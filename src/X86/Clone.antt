-- ===== src/X86/Clone.antt =====
-- The stack that `sys_fork` makes for the thread of a child, with arch/x86/x86.c.
use heaven_os.Prelude.{
  ℕ, ◌+◌, ◌-◌, ◌^◌, ◌≤◌, ◌<◌, ◌≡◌, ◌≢◌, ◌⊎◌, ◌==◌, some, false, inl, inr, refl, ◌∙◌, arith,
}
use heaven_os.Memory.{Bytes, page_size, memset, memcpy}
use heaven_os.Memory.Words.{load64, store64, store64-outside, load64-store64, load64-same}
use heaven_os.Memory.Fill.{memset-at}
use heaven_os.Memory.Move.{copied, memcpy-copied}
use heaven_os.X86.Thread.{
  ArchThread, made, arch_regs_size, off_rax, off_ret_addr, context_size, regs_at, push_context,
  clone_thread, arch_thread_destroy, fork_thread,
}

-- The thread of a child whose stack is the page at `frame`, in the bytes `m'`, made from the thread
-- `src` in the bytes `m`.
pub record IsChild (frame pop_and_iret : ℕ) (src : ArchThread) (m : Bytes) (th : ArchThread)
    (regs : ℕ) (m' : Bytes) : Type 0 where
  pub stack : arch_thread_destroy th ≡ frame
  pub regs_top : regs + arch_regs_size ≡ th.kstack_top
  pub context_below : th.rsp + context_size ≡ regs
  pub registers :
      (i : ℕ)
      → i < arch_regs_size
      → (i < off_rax) ⊎ (off_rax + 8 ≤ i)
      → m' (regs + i) ≡ m (regs_at src + i)
  pub result : load64 m' (regs + off_rax) ≡ 0
  pub entered : load64 m' (th.rsp + off_ret_addr) ≡ pop_and_iret
  pub others : (a : ℕ) → (a < frame) ⊎ (frame + page_size ≤ a) → m' a ≡ m a

module _ (frame pop_and_iret top : ℕ) (m : Bytes) where
  -- The bytes of the stack, in the order in which they are written.
  abbrev cleared : Bytes
  cleared = memset frame 0 page_size m

  abbrev copied_regs : Bytes
  copied_regs =
      memcpy (frame + page_size - arch_regs_size) (top - arch_regs_size) arch_regs_size cleared

  abbrev with_context : Bytes
  with_context = push_context (frame + page_size - arch_regs_size) pop_and_iret copied_regs

  abbrev child_bytes : Bytes
  child_bytes = store64 with_context (frame + page_size - arch_regs_size + off_rax) 0

  module _ (above : arch_regs_size ≤ top)
      (apart : (top ≤ frame) ⊎ (frame + page_size ≤ top - arch_regs_size)) where
    copied_regs-at :
        (a : ℕ)
        → copied_regs a
          ≡ copied
              (frame + page_size - arch_regs_size)
              (top - arch_regs_size)
              arch_regs_size
              cleared
              a
    copied_regs-at a =
        memcpy-copied (frame + page_size - arch_regs_size) (top - arch_regs_size) arch_regs_size
          cleared a
          (elim apart [
            | inl lo ↦ inr (omega (arith, lo, above))
            | inr hi ↦ inl (omega (arith, hi))
          ])

    with_context-at :
        (a : ℕ) → (a < frame + 3912) ⊎ (frame + 3920 ≤ a) → with_context a ≡ copied_regs a
    with_context-at a h =
        store64-outside copied_regs
          (frame + page_size - arch_regs_size - context_size + off_ret_addr) pop_and_iret a
          (omega (arith, h))

    child_bytes-at :
        (a : ℕ) → (a < frame + 4032) ⊎ (frame + 4040 ≤ a) → child_bytes a ≡ with_context a
    child_bytes-at a h =
        store64-outside with_context (frame + page_size - arch_regs_size + off_rax) 0 a
          (omega (arith, h))

    child-registers :
        (i : ℕ)
        → i < arch_regs_size
        → (i < off_rax) ⊎ (off_rax + 8 ≤ i)
        → child_bytes (frame + page_size - arch_regs_size + i) ≡ m (top - arch_regs_size + i)
    child-registers i small other =
        child_bytes-at (frame + page_size - arch_regs_size + i) (omega (arith, other))
        ∙ with_context-at (frame + page_size - arch_regs_size + i) (omega arith)
        ∙ copied_regs-at (frame + page_size - arch_regs_size + i)
        ∙ ground (arith, memset-at frame 0 page_size m (top - arch_regs_size + i))

    child-others : (a : ℕ) → (a < frame) ⊎ (frame + page_size ≤ a) → child_bytes a ≡ m a
    child-others a h =
        child_bytes-at a (omega (arith, h))
        ∙ with_context-at a (omega (arith, h))
        ∙ copied_regs-at a
        ∙ ground (arith, h, memset-at frame 0 page_size m a)

    child-entered :
        pop_and_iret < 2 ^ 64
        → load64 child_bytes (frame + page_size - arch_regs_size - context_size + off_ret_addr)
          ≡ pop_and_iret
    child-entered small =
        let at = frame + page_size - arch_regs_size - context_size + off_ret_addr in
        load64-same with_context child_bytes at
          (λ b lo hi. child_bytes-at b (inl (omega (arith, hi))))
        ∙ load64-store64 copied_regs at pop_and_iret small

clone-made :
    (frame pop_and_iret : ℕ) (src dst : ArchThread) (m : Bytes)
    → frame ≢ 0
    → clone_thread frame pop_and_iret src dst m
      ≡ made
          (record {
            kstack_top = frame + page_size;
            rsp = frame + page_size - arch_regs_size - context_size;
          })
          (frame + page_size - arch_regs_size)
          (with_context frame pop_and_iret src.kstack_top m)
unfolding clone_thread
clone-made frame pop_and_iret src dst m given =
    let given' : (frame == 0) ≡ false = ground (arith, given) in rw given' refl

-- With a frame that is not NULL and apart from the registers on the stack of the current task,
-- `sys_fork` makes a thread for the child: the top of its stack has the registers of the parent with 0
-- as the result of the call, below them stands a context that returns to `pop_and_iret`, no byte
-- outside the frame is changed, and `arch_thread_destroy` of the thread frees this frame.
pub fork_thread-IsChild :
    (frame pop_and_iret : ℕ) (src dst : ArchThread) (m : Bytes)
    → frame ≢ 0
    → pop_and_iret < 2 ^ 64
    → arch_regs_size ≤ src.kstack_top
    → (src.kstack_top ≤ frame) ⊎ (frame + page_size ≤ regs_at src)
    → (th : ArchThread) × (regs : ℕ) × (m' : Bytes) × (fork_thread frame pop_and_iret
          (some src)
          dst
          m
        ≡ some (made th regs m'))
      × IsChild frame pop_and_iret src m th regs m'
unfolding fork_thread
fork_thread-IsChild frame pop_and_iret src dst m given small above apart =
    let top = src.kstack_top in
    (
      record {
        kstack_top = frame + page_size;
        rsp = frame + page_size - arch_regs_size - context_size;
      },
      frame + page_size - arch_regs_size,
      child_bytes frame pop_and_iret top m,
      rw (clone-made frame pop_and_iret src dst m given) refl,
      record {
        stack = omega arith;
        regs_top = omega arith;
        context_below = omega arith;
        registers = child-registers frame pop_and_iret top m above apart;
        result =
            load64-store64 (with_context frame pop_and_iret top m)
              (frame + page_size - arch_regs_size + off_rax) 0 (omega arith);
        entered = child-entered frame pop_and_iret top m above apart small;
        others = child-others frame pop_and_iret top m above apart;
      },
    )
