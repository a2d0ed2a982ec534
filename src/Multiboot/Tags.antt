-- ===== src/Multiboot/Tags.antt =====
-- The loop of `mb_parse_boot_info` of kernel/multiboot.c ends and finds the last tag of each type.
use heaven_os.Prelude.{
  ℕ, zero, suc, ◌+◌, ◌<◌, ◌≡◌, ◌≢◌, ◌==◌, true, false, if◌then◌else◌, refl, ◌∙◌, arith, some, List,
  [], ◌∷◌, length,
}
use heaven_os.Prelude.Last.{IsLast, missing, IsLast-step}
use heaven_os.Memory.{Bytes}
use heaven_os.Memory.Words.{load64}
use heaven_os.Multiboot.{
  Multiboot, mb_tag_end, mb_tag_memmap, mb_tag_fb, mb_tag_rsdp_v1, mb_tag_rsdp_v2, tag_type,
  next_tag, keep_tag, tag_loop, mb_parse_boot_info, boot_info_header_size,
}

-- The tags from an address on, in front of an end tag.
pub data Tags (m : Bytes) : ℕ → List ℕ → Type 0 where
  last : (iter : ℕ) → tag_type m iter ≡ mb_tag_end → Tags m iter []
  more :
      (iter : ℕ) (tags : List ℕ)
      → tag_type m iter ≢ mb_tag_end
      → Tags m (next_tag m iter) tags
      → Tags m iter (iter ∷ tags)

-- A pointer that is kept is the address of the tag.
abbrev pub own : ℕ → ℕ
own tag = tag

-- The pointers that the loop leaves, for the tags that it saw and the pointers before.
pub record Parsed (m : Bytes) (tags : List ℕ) (before after : Multiboot) : Type 0 where
  pub memmap : IsLast (tag_type m) own mb_tag_memmap before.mb_memmap_info tags after.mb_memmap_info
  pub fb : IsLast (tag_type m) own mb_tag_fb before.mb_fb_info tags after.mb_fb_info
  pub rsdp_v1 :
      IsLast (tag_type m) own mb_tag_rsdp_v1 before.mb_acpi_rsdp_v1 tags after.mb_acpi_rsdp_v1
  pub rsdp_v2 :
      IsLast (tag_type m) own mb_tag_rsdp_v2 before.mb_acpi_rsdp_v2 tags after.mb_acpi_rsdp_v2
  pub boot_info : after.mb_boot_info ≡ before.mb_boot_info

-- What one round keeps, pointer by pointer.
keep_tag-fields :
    (type x : ℕ) (mb : Multiboot)
    → ((keep_tag type x mb).mb_memmap_info
        ≡ (if type == mb_tag_memmap then x else mb.mb_memmap_info))
      × ((keep_tag type x mb).mb_fb_info ≡ (if type == mb_tag_fb then x else mb.mb_fb_info))
      × ((keep_tag type x mb).mb_acpi_rsdp_v1
          ≡ (if type == mb_tag_rsdp_v1 then x else mb.mb_acpi_rsdp_v1))
      × ((keep_tag type x mb).mb_acpi_rsdp_v2
          ≡ (if type == mb_tag_rsdp_v2 then x else mb.mb_acpi_rsdp_v2))
      × ((keep_tag type x mb).mb_boot_info ≡ mb.mb_boot_info)
keep_tag-fields type x mb = ground arith

Parsed-tag :
    (m : Bytes) (x : ℕ) (tags : List ℕ) (mb mb' : Multiboot)
    → Parsed m tags (keep_tag (tag_type m x) x mb) mb'
    → Parsed m (x ∷ tags) mb mb'
Parsed-tag m x tags mb mb' h =
    let (memmap, fb, v1, v2, info) = keep_tag-fields (tag_type m x) x mb in
    record {
      memmap = IsLast-step (tag_type m) own mb_tag_memmap _ x tags _ (rw memmap at (h.memmap));
      fb = IsLast-step (tag_type m) own mb_tag_fb _ x tags _ (rw fb at (h.fb));
      rsdp_v1 = IsLast-step (tag_type m) own mb_tag_rsdp_v1 _ x tags _ (rw v1 at (h.rsdp_v1));
      rsdp_v2 = IsLast-step (tag_type m) own mb_tag_rsdp_v2 _ x tags _ (rw v2 at (h.rsdp_v2));
      boot_info = h.boot_info ∙ info;
    }

tag_loop-Parsed :
    (fuel iter : ℕ) (tags : List ℕ) (m : Bytes) (mb : Multiboot)
    → Tags m iter tags
    → length tags < fuel
    → (mb' : Multiboot) × (tag_loop fuel iter m mb ≡ some mb') × Parsed m tags mb mb'
unfolding tag_loop
tag_loop-Parsed zero iter tags m mb h enough = absurd (omega (arith, enough))
tag_loop-Parsed (suc fuel) iter [] m mb (last i end) enough =
    let stop : (tag_type m i == mb_tag_end) ≡ true = ground (arith, end) in
    (
      mb,
      rw stop refl,
      record {
        memmap = missing (λ j t e. cc);
        fb = missing (λ j t e. cc);
        rsdp_v1 = missing (λ j t e. cc);
        rsdp_v2 = missing (λ j t e. cc);
        boot_info = refl;
      },
    )
tag_loop-Parsed (suc fuel) iter (x ∷ tags) m mb (more i rest other h) enough =
    let go : (tag_type m i == mb_tag_end) ≡ false = ground (arith, other) in
    let (mb', e, parsed) =
      tag_loop-Parsed fuel (next_tag m i) rest m (keep_tag (tag_type m i) i mb) h
        (omega (arith, enough)) in
    (mb', rw (go, e) refl, Parsed-tag m i rest mb mb' parsed)

-- When the tags behind the header of the boot information reach an end tag, on fuel that exceeds
-- their number, `mb_parse_boot_info` of early data that is not NULL ends: the pointer to the boot
-- information is the one of the early data, and each of the other four is the last tag of its type,
-- or what it was when there is none.
pub mb_parse_boot_info-Parsed :
    (fuel early_data : ℕ) (tags : List ℕ) (m : Bytes) (mb : Multiboot)
    → early_data ≢ 0
    → Tags m (load64 m early_data + boot_info_header_size) tags
    → length tags < fuel
    → (mb' : Multiboot) × (mb_parse_boot_info fuel early_data m mb ≡ some mb')
      × Parsed m tags (record mb { mb_boot_info = load64 m early_data }) mb'
unfolding mb_parse_boot_info
mb_parse_boot_info-Parsed fuel early_data tags m mb given h enough =
    let given' : (early_data == 0) ≡ false = ground (arith, given) in
    let (mb', e, parsed) =
      tag_loop-Parsed fuel (load64 m early_data + boot_info_header_size) tags m
        (record mb { mb_boot_info = load64 m early_data }) h enough in
    (mb', rw given' e, parsed)
