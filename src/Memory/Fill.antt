-- ===== src/Memory/Fill.antt =====
-- `memset` and `memcpy` of common.c as functions of the address.
use heaven_os.Prelude.{ℕ, zero, suc, ◌+◌, ◌≡◌, arith, ltb, if◌then◌else◌, update}
use heaven_os.Memory.{Bytes, u8, memset}

-- `memset` stores the byte in `[p, p + sz)` and changes nothing else.
pub memset-at :
    (p ch sz : ℕ) (m : Bytes) (a : ℕ)
    → memset p ch sz m a ≡ (if ltb a p then m a else if ltb a (p + sz) then u8 ch else m a)
unfolding memset
memset-at p ch zero m a = ground arith
memset-at p ch (suc sz) m a = ground (arith, memset-at (p + 1) ch sz (update m p (u8 ch)) a)
