-- ===== src/Acpi/Lookup.antt =====
-- `acpi_lookup` of drivers/acpi.c finds the first table with a signature.
use heaven_os.Prelude.{
  ℕ, zero, suc, ◌+◌, ◌<◌, ◌≤◌, ◌≡◌, ◌≢◌, ◌⊎◌, inl, inr, ◌==◌, true, false, if◌then◌else◌,
  Bool-cases, ℕ_discrete, refl, arith, some,
}
use heaven_os.Memory.{Bytes}
use heaven_os.Acpi.{
  Acpi, acpi_check, has_signature, lookup_loop, rsdt_entry, xsdt_entry, entry_count, acpi_lookup,
}

-- The result is the first of the entries from index `i` to `stop` that has the signature, when its
-- checksum is right, and 0 when it is not or there is none.
pub data IsFirst (entry : ℕ → ℕ) (signature stop i : ℕ) (m : Bytes) : ℕ → Type 0 where
  found :
      (k : ℕ)
      → i ≤ k
      → k < stop
      → has_signature signature (entry k) m ≡ true
      → ((j : ℕ) → i ≤ j → j < k → has_signature signature (entry j) m ≡ false)
      → IsFirst entry signature stop i m (if acpi_check (entry k) m then entry k else 0)
  missing :
      ((j : ℕ) → i ≤ j → j < stop → has_signature signature (entry j) m ≡ false)
      → IsFirst entry signature stop i m 0

IsFirst-later :
    (entry : ℕ → ℕ) (signature stop i : ℕ) (m : Bytes) (r : ℕ)
    → has_signature signature (entry i) m ≡ false
    → IsFirst entry signature stop (i + 1) m r
    → IsFirst entry signature stop i m r
IsFirst-later entry signature stop i m r other (found k lo hi matches before) =
    found k (omega arith) hi matches (λ j lo' hi'. at_or_behind before j lo' hi')
  where
    at_or_behind :
        ((j : ℕ) → i + 1 ≤ j → j < k → has_signature signature (entry j) m ≡ false)
        → (j : ℕ) → i ≤ j
        → j < k
        → has_signature signature (entry j) m ≡ false
    at_or_behind before j lo hi = elim (ℕ_discrete j i) [
      | yes e ↦ rw e other
      | no ne ↦ before j (omega arith) hi
    ]
IsFirst-later entry signature stop i m r other (missing none_there) = missing (λ j lo hi.
    elim (ℕ_discrete j i) [ yes e ↦ rw e other | no ne ↦ none_there j (omega arith) hi ])

lookup_loop-IsFirst :
    (entry : ℕ → ℕ) (signature n i : ℕ) (m : Bytes)
    → IsFirst entry signature (i + n) i m (lookup_loop entry signature n i m)
unfolding lookup_loop
lookup_loop-IsFirst entry signature zero i m = missing (λ j lo hi. absurd (omega (arith, lo, hi)))
lookup_loop-IsFirst entry signature (suc n) i m =
    elim (Bool-cases (has_signature signature (entry i) m)) [
      | inl e ↦
          rw e (found i (omega arith) (omega arith) e (λ j lo hi. absurd (omega (arith, lo, hi))))
      | inr e ↦
          let stop : i + suc n ≡ i + 1 + n = omega arith in
          rw (e, stop)
            (IsFirst-later entry signature (i + 1 + n) i m (lookup_loop entry signature n (i + 1) m)
              e (lookup_loop-IsFirst entry signature n (i + 1) m))
    ]

-- With a signature that is not NULL and a root table, `acpi_lookup` does not panic: it returns the
-- first table with the signature that the XSDT lists, or that the RSDT lists when there is no XSDT,
-- if the checksum of that table is right, and NULL if it is not or there is no such table.
pub acpi_lookup-IsFirst :
    (acpi : Acpi) (signature : ℕ) (m : Bytes)
    → signature ≢ 0
    → (acpi.xsdt ≢ 0) ⊎ (acpi.rsdt ≢ 0)
    → (r : ℕ) × (acpi_lookup acpi signature m ≡ some r)
      × (if acpi.xsdt == 0
          then IsFirst (rsdt_entry acpi.rsdt m) signature (entry_count acpi.rsdt 4 m) 0 m r
          else IsFirst (xsdt_entry acpi.xsdt m) signature (entry_count acpi.xsdt 8 m) 0 m r)
unfolding acpi_lookup
acpi_lookup-IsFirst acpi signature m given root =
    let given' : (signature == 0) ≡ false = ground (arith, given) in
    elim (Bool-cases (acpi.xsdt == 0)) [
      | inl e ↦
          let rsdt : (acpi.rsdt == 0) ≡ false = ground (arith, root) in
          let from : 0 + entry_count acpi.rsdt 4 m ≡ entry_count acpi.rsdt 4 m = omega arith in
          rw (given', e, rsdt)
            (
              lookup_loop (rsdt_entry acpi.rsdt m) signature (entry_count acpi.rsdt 4 m) 0 m,
              refl,
              rw from at (
                  lookup_loop-IsFirst (rsdt_entry acpi.rsdt m) signature (entry_count acpi.rsdt 4 m)
                    0 m),
            )
      | inr e ↦
          let from : 0 + entry_count acpi.xsdt 8 m ≡ entry_count acpi.xsdt 8 m = omega arith in
          rw (given', e)
            (
              lookup_loop (xsdt_entry acpi.xsdt m) signature (entry_count acpi.xsdt 8 m) 0 m,
              refl,
              rw from at (
                  lookup_loop-IsFirst (xsdt_entry acpi.xsdt m) signature (entry_count acpi.xsdt 8 m)
                    0 m),
            )
    ]
