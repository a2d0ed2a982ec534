-- ===== src/Memory.antt =====
-- common.c, and the byte loops and macros of common.h. Memory is a function from addresses to
-- bytes. Addresses are natural numbers: an object never runs past the top of the address space.
pub mod Fill
pub mod Move
pub mod Compare
pub mod Words
mod Tests
use heaven_os.Prelude.{
  ℕ, zero, suc, ◌+◌, ◌-◌, ◌*◌, ◌/◌, ◌%◌, ◌^◌, bit_and, bit_or, Bool, true, false, ltb, ◌==◌, ◌&&◌,
  if◌then◌else◌, update, Option, none, some,
}

abbrev pub Bytes : Type 0
Bytes = ℕ → ℕ

-- A cast to `uint8_t`.
abbrev pub u8 : ℕ → ℕ
u8 n = n % 256

abbrev pub page_size : ℕ
page_size = 4096

abbrev pub round_down : ℕ → ℕ → ℕ
round_down a n = a - a % n

-- `ROUNDUP` at 64 bits.
abbrev pub round_up : ℕ → ℕ → ℕ
round_up a n = round_down ((a + n - 1) % 2 ^ 64) n

abbrev pub div_round_up : ℕ → ℕ → ℕ
div_round_up x r = (x + r - 1) / r

pub memset : ℕ → ℕ → ℕ → Bytes → Bytes
memset p ch zero m = m
memset p ch (suc sz) m = memset (p + 1) ch sz (update m p (u8 ch))

pub memcpy : ℕ → ℕ → ℕ → Bytes → Bytes
memcpy d s zero m = m
memcpy d s (suc sz) m = memcpy (d + 1) (s + 1) sz (update m d (m s))

-- The results -1, 0 and 1 of `memcmp`.
pub data Sign : Type 0 where
  minus_one nought plus_one : Sign

unfoldable pub memcmp : ℕ → ℕ → ℕ → Bytes → Sign
memcmp s1 s2 zero m = nought
memcmp s1 s2 (suc count) m =
    if m s1 == m s2
    then memcmp (s1 + 1) (s2 + 1) count m
    else if ltb (m s1) (m s2)
    then minus_one
    else plus_one

-- `strlen` on fuel; `none` when no NUL byte is met.
strlen_from : ℕ → ℕ → ℕ → Bytes → Option ℕ
strlen_from zero str len m = none
strlen_from (suc fuel) str len m =
    let rest = strlen_from fuel str (len + 1) m in if m (str + len) == 0 then some len else rest

pub strlen : ℕ → ℕ → Bytes → Option ℕ
unfolding strlen_from
strlen fuel str m = strlen_from fuel str 0 m

-- `rep movsb` with the direction flag clear and set: one byte a round, upwards or downwards.
pub movsb_up : ℕ → ℕ → ℕ → Bytes → Bytes
movsb_up d s zero m = m
movsb_up d s (suc c) m = movsb_up (d + 1) (s + 1) c (update m d (m s))

pub movsb_down : ℕ → ℕ → ℕ → Bytes → Bytes
movsb_down d s zero m = m
movsb_down d s (suc c) m = movsb_down (d - 1) (s - 1) c (update m d (m s))

-- The eight bytes from `s` on are read before the eight from `d` on are written.
abbrev pub copy_word : ℕ → ℕ → Bytes → Bytes
copy_word d s m a = if ltb a d then m a else if ltb a (d + 8) then m (s + (a - d)) else m a

-- `rep movsq` likewise, eight bytes a round.
pub movsq_up : ℕ → ℕ → ℕ → Bytes → Bytes
movsq_up d s zero m = m
movsq_up d s (suc c) m = movsq_up (d + 8) (s + 8) c (copy_word d s m)

pub movsq_down : ℕ → ℕ → ℕ → Bytes → Bytes
movsq_down d s zero m = m
movsq_down d s (suc c) m = movsq_down (d - 8) (s - 8) c (copy_word d s m)

-- `!((s & 7) | (d & 7) | (n & 7))`
pub word_aligned : ℕ → ℕ → ℕ → Bool
word_aligned s d n = bit_or (bit_or (bit_and s 7) (bit_and d 7)) (bit_and n 7) == 0

pub memmove : ℕ → ℕ → ℕ → Bytes → Bytes
unfolding word_aligned
memmove d s n m =
    if ltb s d && ltb d (s + n)
    then (if word_aligned (s + n) (d + n) n
        then movsq_down (d + n - 8) (s + n - 8) (n / 8) m
        else movsb_down (d + n - 1) (s + n - 1) n m)
    else if word_aligned s d n
    then movsq_up d s (n / 8) m
    else movsb_up d s n m
