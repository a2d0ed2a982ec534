-- ===== src/Memory/Tests.antt =====
-- Runs of common.c, and its theorems at them.
use heaven_os.Prelude.{ℕ, ◌+◌, ◌<◌, ◌≡◌, ◌≢◌, refl, arith, ltb, if◌then◌else◌}
use heaven_os.Memory.{Bytes, memmove, memcmp, minus_one, movsq_down}
use heaven_os.Memory.Move.{memmove-copied}

-- Byte `a` holds `a` below 100, and 0 above.
abbrev ramp : Bytes
ramp a = if ltb a 100 then a else 0

memmove_overlap : (memmove 16 8 16 ramp 16 ≡ 8) × (memmove 16 8 16 ramp 31 ≡ 23)
unfolding memmove movsq_down
memmove_overlap = (refl, refl)

memcmp_signs : memcmp 3 4 5 ramp ≡ minus_one
unfolding memcmp
memcmp_signs = refl

ramp_ne : (j : ℕ) → j < 10 → ramp (90 + j) ≢ 0
ramp_ne j h = ground arith

memmove-copied_example : memmove 16 8 16 ramp 31 ≡ 23
memmove-copied_example = memmove-copied 16 8 16 ramp 31
