-- ===== src/X86/Start.antt =====
-- The stack of the first thread, which arch/x86/x86.c makes for the user program.
use heaven_os.Prelude.{
  ℕ, ◌+◌, ◌-◌, ◌*◌, ◌^◌, ◌≤◌, ◌<◌, ◌≡◌, ◌≢◌, ◌⊎◌, ◌==◌, false, inl, inr, refl, ◌∙◌, arith,
}
use heaven_os.Memory.{Bytes, page_size, memset}
use heaven_os.Memory.Words.{load64, store16, store64, store64-outside, load64-store64, load64-same}
use heaven_os.Memory.Fill.{memset-at}
use heaven_os.X86.{rflags_if}
use heaven_os.X86.Thread.{
  ArchThread, made, arch_regs_size, off_rip, off_cs, off_rflags, off_rsp, off_ss, off_ret_addr,
  context_size, push_context, arch_thread_new, arch_thread_destroy,
}

abbrev pub load16 : Bytes → ℕ → ℕ
load16 m a = m a + 256 * m (a + 1)

-- What the return from an interrupt finds on the stack of a thread: the program, its stack of four pages
-- from 0x70000000 on, the segments of user mode, and interrupts enabled.
pub record IsStart (frame user_program pop_and_iret : ℕ) (m : Bytes) (th : ArchThread) (regs : ℕ)
    (m' : Bytes) : Type 0 where
  pub stack : arch_thread_destroy th ≡ frame
  pub regs_top : regs + arch_regs_size ≡ th.kstack_top
  pub context_below : th.rsp + context_size ≡ regs
  pub rip : load64 m' (regs + off_rip) ≡ user_program
  pub cs : load16 m' (regs + off_cs) ≡ 8 * 4 + 3
  pub rflags : load64 m' (regs + off_rflags) ≡ rflags_if
  pub rsp : load64 m' (regs + off_rsp) ≡ 0x70004000
  pub ss : load16 m' (regs + off_ss) ≡ 8 * 3 + 3
  pub cleared : (i : ℕ) → i < off_rip → m' (regs + i) ≡ 0
  pub entered : load64 m' (th.rsp + off_ret_addr) ≡ pop_and_iret
  pub others : (a : ℕ) → (a < frame) ⊎ (frame + page_size ≤ a) → m' a ≡ m a

store16-outside : (m : Bytes) (a v b : ℕ) → (b < a) ⊎ (a + 2 ≤ b) → store16 m a v b ≡ m b
unfolding store16
store16-outside m a v b h = ground arith

load16-store16 : (m : Bytes) (a v : ℕ) → v < 2 ^ 16 → load16 (store16 m a v) a ≡ v
unfolding store16
load16-store16 m a v h = ground arith

load16-same :
    (m m' : Bytes) (a : ℕ) → m' a ≡ m a → m' (a + 1) ≡ m (a + 1) → load16 m' a ≡ load16 m a
load16-same m m' a e e' = omega arith

module _ (regs user_program pop_and_iret : ℕ) (m : Bytes) where
  -- The bytes after each write.
  abbrev m1 : Bytes
  m1 = store64 m (regs + off_rsp) 0x70004000

  abbrev m2 : Bytes
  m2 = store16 m1 (regs + off_ss) 27

  abbrev m3 : Bytes
  m3 = store64 m2 (regs + off_rip) user_program

  abbrev m4 : Bytes
  m4 = store16 m3 (regs + off_cs) 35

  abbrev m5 : Bytes
  m5 = store64 m4 (regs + off_rflags) 512

  abbrev m6 : Bytes
  m6 = push_context regs pop_and_iret m5

  module _ (room : 56 ≤ regs) where
    m6-at : (a : ℕ) → regs ≤ a → m6 a ≡ m5 a
    m6-at a h =
        store64-outside m5 (regs - context_size + off_ret_addr) pop_and_iret a (inr (omega arith))

    m5-at : (a : ℕ) → (a < regs + 152) ⊎ (regs + 160 ≤ a) → m5 a ≡ m4 a
    m5-at a h = store64-outside m4 (regs + off_rflags) 512 a (omega (arith, h))

    m4-at : (a : ℕ) → (a < regs + 144) ⊎ (regs + 146 ≤ a) → m4 a ≡ m3 a
    m4-at a h = store16-outside m3 (regs + off_cs) 35 a (omega (arith, h))

    m3-at : (a : ℕ) → (a < regs + 136) ⊎ (regs + 144 ≤ a) → m3 a ≡ m2 a
    m3-at a h = store64-outside m2 (regs + off_rip) user_program a (omega (arith, h))

    m2-at : (a : ℕ) → (a < regs + 168) ⊎ (regs + 170 ≤ a) → m2 a ≡ m1 a
    m2-at a h = store16-outside m1 (regs + off_ss) 27 a (omega (arith, h))

    m1-at : (a : ℕ) → (a < regs + 160) ⊎ (regs + 168 ≤ a) → m1 a ≡ m a
    m1-at a h = store64-outside m (regs + off_rsp) 0x70004000 a (omega (arith, h))

    outside :
        (a : ℕ) → (a < regs - 8) ⊎ (regs + 176 ≤ a) ⊎ ((regs ≤ a) × (a < regs + 136)) → m6 a ≡ m a
    outside a h =
        store64-outside m5 (regs - context_size + off_ret_addr) pop_and_iret a (omega (arith, h))
        ∙ m5-at a (omega (arith, h))
        ∙ m4-at a (omega (arith, h))
        ∙ m3-at a (omega (arith, h))
        ∙ m2-at a (omega (arith, h))
        ∙ m1-at a (omega (arith, h))

    read_rflags : load64 m6 (regs + off_rflags) ≡ 512
    read_rflags =
        load64-same m5 m6 (regs + off_rflags) (λ b lo hi. m6-at b (omega (arith, lo)))
        ∙ load64-store64 m4 (regs + off_rflags) 512 (omega arith)

    read_cs : load16 m6 (regs + off_cs) ≡ 35
    read_cs =
        load16-same m4 m6 (regs + off_cs) (to_m4 (regs + 144) (omega arith) (omega arith))
          (to_m4 (regs + 144 + 1) (omega arith) (omega arith))
        ∙ load16-store16 m3 (regs + off_cs) 35 (omega arith)
      where
        to_m4 : (a : ℕ) → regs ≤ a → a < regs + 152 → m6 a ≡ m4 a
        to_m4 a lo hi = m6-at a lo ∙ m5-at a (inl hi)

    read_rip : user_program < 2 ^ 64 → load64 m6 (regs + off_rip) ≡ user_program
    read_rip small =
        load64-same m3 m6 (regs + off_rip) (λ b lo hi.
          m6-at b (omega (arith, lo))
          ∙ m5-at b (inl (omega (arith, hi)))
          ∙ m4-at b (inl (omega (arith, hi))))
        ∙ load64-store64 m2 (regs + off_rip) user_program small

    read_ss : load16 m6 (regs + off_ss) ≡ 27
    read_ss =
        load16-same m2 m6 (regs + off_ss) (to_m2 (regs + 168) (omega arith))
          (to_m2 (regs + 168 + 1) (omega arith))
        ∙ load16-store16 m1 (regs + off_ss) 27 (omega arith)
      where
        to_m2 : (a : ℕ) → regs + 168 ≤ a → m6 a ≡ m2 a
        to_m2 a lo =
            m6-at a (omega (arith, lo))
            ∙ m5-at a (inr (omega (arith, lo)))
            ∙ m4-at a (inr (omega (arith, lo)))
            ∙ m3-at a (inr (omega (arith, lo)))

    read_rsp : load64 m6 (regs + off_rsp) ≡ 0x70004000
    read_rsp =
        load64-same m1 m6 (regs + off_rsp) (λ b lo hi.
          m6-at b (omega (arith, lo))
          ∙ m5-at b (inr (omega (arith, lo)))
          ∙ m4-at b (inr (omega (arith, lo)))
          ∙ m3-at b (inr (omega (arith, lo)))
          ∙ m2-at b (inl (omega (arith, hi))))
        ∙ load64-store64 m (regs + off_rsp) 0x70004000 (omega arith)

-- With a frame that is not NULL, `arch_thread_new` makes a thread whose stack is the frame: its top
-- makes the return from an interrupt enter the user program in user mode with all other registers
-- 0, and below stands a context that returns to `pop_and_iret`. No byte outside the frame is
-- changed, and `arch_thread_destroy` of the thread frees this frame.
pub arch_thread_new-IsStart :
    (frame user_program pop_and_iret : ℕ) (th : ArchThread) (m : Bytes)
    → frame ≢ 0
    → user_program < 2 ^ 64
    → pop_and_iret < 2 ^ 64
    → (th' : ArchThread) × (regs : ℕ) × (m' : Bytes) × (arch_thread_new frame user_program
          pop_and_iret th m
        ≡ made th' regs m')
      × IsStart frame user_program pop_and_iret m th' regs m'
unfolding arch_thread_new
arch_thread_new-IsStart frame user_program pop_and_iret th m given small small' =
    let given' : (frame == 0) ≡ false = ground (arith, given) in
    let regs : ℕ = frame + page_size - arch_regs_size in
    let blank = memset frame 0 page_size m in
    let room : 56 ≤ regs = omega arith in
    let written = outside regs user_program pop_and_iret blank room in
    (
      record { kstack_top = frame + page_size; rsp = regs - context_size },
      regs,
      m6 regs user_program pop_and_iret blank,
      rw given' refl,
      record {
        stack = omega arith;
        regs_top = omega arith;
        context_below = omega arith;
        rip = read_rip regs user_program pop_and_iret blank room small;
        cs = read_cs regs user_program pop_and_iret blank room;
        rflags = read_rflags regs user_program pop_and_iret blank room;
        rsp = read_rsp regs user_program pop_and_iret blank room;
        ss = read_ss regs user_program pop_and_iret blank room;
        cleared = λ i lt.
            written (regs + i) (inr (inr (omega arith, omega (arith, lt))))
            ∙ ground (arith, lt, memset-at frame 0 page_size m (regs + i));
        entered =
            load64-store64 (m5 regs user_program pop_and_iret blank)
              (regs - context_size + off_ret_addr) pop_and_iret small';
        others = λ a h.
            written a
              (elim h [ inl lo ↦ inl (omega (arith, lo)) | inr hi ↦ inr (inl (omega (arith, hi))) ])
            ∙ ground (arith, h, memset-at frame 0 page_size m a);
      },
    )
