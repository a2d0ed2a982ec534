-- ===== src/Printk/Digits.antt =====
-- `bprintu64` of kernel/printk.c prints the digits of its number.
use heaven_os.Prelude.{
  ℕ, zero, suc, ◌+◌, ◌-◌, ◌*◌, ◌/◌, ◌%◌, ◌^◌, ◌≤◌, ◌<◌, ◌≡◌, ◌⊎◌, ltb, ◌==◌, ◌&&◌, if◌then◌else◌,
  update, refl, sym, ◌∙◌, ap, arith, Bool, true, false, inl, inr, Bool-cases, ℕ_discrete, Option,
  some, none, get_elem?,
}
use native.Mathlib.Nat.{
  pow-zero, pow-suc, mul-le-mul_right, mod-lt, mod-add-div, div-lt_iff_lt-mul, div-mul-le_self,
}
use heaven_os.Memory.{Bytes}
use heaven_os.Printk.{digits, put_digits}

-- The value of a digit's character.
abbrev pub digit_value : ℕ → ℕ
digit_value c = if ltb c 58 then c - 48 else c - 87

-- The number that `n` digits from `p` on stand for, the first digit first.
abbrev pub number_value : ℕ → Bytes → ℕ → ℕ → ℕ
number_value base m p zero = 0
number_value base m p (suc n) = number_value base m p n * base + digit_value (m (p + n))

-- Likewise, the last digit first.
abbrev pub reversed_value : ℕ → Bytes → ℕ → ℕ → ℕ
reversed_value base m p zero = 0
reversed_value base m p (suc n) = digit_value (m p) + base * reversed_value base m (p + 1) n

abbrev digit_char : ℕ → ℕ
digit_char d = if ltb d 10 then 48 + d else 87 + d

digit_value-digit_char : (d : ℕ) → d < 16 → digit_value (digit_char d) ≡ d
digit_value-digit_char d h = ground arith

abbrev has_char : Option ℕ → ℕ → Bool
has_char none d = false
has_char (some c) d = c == digit_char d

-- Whether the table has the characters of the digits below `n`.
abbrev has_chars : ℕ → Bool
has_chars zero = true
has_chars (suc n) = has_char (get_elem? digits n) n && has_chars n

has_chars-has_char : (n d : ℕ) → has_chars n ≡ true → d < n → has_char (get_elem? digits d) d ≡ true
has_chars-has_char zero d all h = absurd (omega arith)
has_chars-has_char (suc n) d all h = elim (ℕ_discrete d n) [
  | yes e ↦ rw e (ground arith)
  | no ne ↦ has_chars-has_char n d (ground arith) (omega arith)
]

has_char-some : (o : Option ℕ) (d : ℕ) → has_char o d ≡ true → o ≡ some (digit_char d)
has_char-some none d e = cc
has_char-some (some c) d e = ap some (ground arith)

digits-digit_char : (d : ℕ) → d < 16 → get_elem? digits d ≡ some (digit_char d)
digits-digit_char d h = has_char-some (get_elem? digits d) d (has_chars-has_char 16 d refl h)

-- What the first loop leaves: `n` digits of `a`, the last one first, and the rest of memory.
pub record IsReversed (a base p n : ℕ) (m m' : Bytes) : Type 0 where
  pub value : reversed_value base m' p n ≡ a
  pub complete : a < base ^ n
  pub minimal : (n ≡ 0) ⊎ (base ^ n ≤ a * base)
  pub digit : (i : ℕ) → i < n → digit_value (m' (p + i)) < base
  pub ascii : (i : ℕ) → i < n → m' (p + i) < 128
  pub outside : (b : ℕ) → (b < p) ⊎ (p + n ≤ b) → m' b ≡ m b

-- What the first byte and the others have, all have.
each :
    (P : ℕ → Type 0) (m : Bytes) (p n : ℕ)
    → P (m p)
    → ((i : ℕ) → i < n → P (m (p + 1 + i)))
    → (i : ℕ) → i < suc n
    → P (m (p + i))
each P m p n first rest zero h = let here : p + 0 ≡ p = omega arith in rw here first
each P m p n first rest (suc i) h =
    let next : p + suc i ≡ p + 1 + i = omega arith in rw next (rest i (omega arith))

base_pow : (a base n : ℕ) → 0 < a → (n ≡ 0) ⊎ (base ^ n ≤ a / base * base) → base ^ suc n ≤ a * base
base_pow a base n pos h =
    let le : base ^ n ≤ a = elim h [
      | inl e ↦ rw (e, pow-zero base) pos
      | inr h' ↦ omega (arith, h', div-mul-le_self a base)
    ] in
    rw (pow-suc base n) (mul-le-mul_right base le)

put_digits-zero :
    (fuel buf bytes base : ℕ) (m : Bytes) → put_digits fuel buf bytes 0 base m ≡ some (bytes, m)
unfolding put_digits
put_digits-zero zero buf bytes base m = refl
put_digits-zero (suc fuel) buf bytes base m = refl

no_digits : (a base p : ℕ) (m : Bytes) → a ≡ 0 → IsReversed a base p 0 m m
no_digits a base p m e = record {
  value = sym e;
  complete = rw (e, pow-zero base) (omega arith);
  minimal = inl refl;
  digit = λ i h. absurd (omega (arith, h));
  ascii = λ i h. absurd (omega (arith, h));
  outside = λ b h. refl;
}

-- One more digit in front of the digits of the quotient.
more_digits :
    (a base p n : ℕ) (m m' : Bytes)
    → 2 ≤ base
    → base ≤ 16
    → 0 < a
    → IsReversed (a / base) base (p + 1) n (update m p (digit_char (a % base))) m'
    → IsReversed a base p (suc n) m m'
more_digits a base p n m m' two sixteen pos r =
    let small : a % base < base = mod-lt a (omega arith) in
    let last : m' p ≡ digit_char (a % base) = r.outside p (inl (omega arith)) ∙ ground arith in
    let back : digit_value (digit_char (a % base)) ≡ a % base =
      digit_value-digit_char (a % base) (omega arith) in
    record {
      value = rw (last, back, r.value) (omega (arith, mod-add-div a base));
      complete = rw (pow-suc base n) ((div-lt_iff_lt-mul {k = base} (omega arith)).0 r.complete);
      minimal = inr (base_pow a base n pos r.minimal);
      digit = each (λ (c : ℕ). digit_value c < base) m' p n (rw (last, back) small) r.digit;
      ascii = each (λ (c : ℕ). c < 128) m' p n (ground (arith, last)) r.ascii;
      outside = λ b h. r.outside b (ground (arith, h)) ∙ ground (arith, h);
    }

pub put_digits-IsReversed :
    (k fuel buf bytes a base : ℕ) (m : Bytes)
    → 2 ≤ base
    → base ≤ 16
    → k ≤ fuel
    → a < base ^ k
    → (n : ℕ) × (m' : Bytes) × (put_digits fuel buf bytes a base m ≡ some (bytes + n, m'))
      × (n ≤ k)
      × IsReversed a base (buf + bytes) n m m'
unfolding put_digits
put_digits-IsReversed zero fuel buf bytes a base m two sixteen enough lt =
    let nought : a ≡ 0 = omega (arith, pow-zero base) in
    let stay : bytes + 0 ≡ bytes = omega arith in
    (
      0,
      m,
      rw (nought, stay) (put_digits-zero fuel buf bytes base m),
      omega arith,
      no_digits a base (buf + bytes) m nought,
    )
put_digits-IsReversed (suc k) zero buf bytes a base m two sixteen enough lt = absurd (omega arith)
put_digits-IsReversed (suc k) (suc fuel) buf bytes a base m two sixteen enough lt =
    elim (Bool-cases (a == 0)) [
      | inl e ↦
          let stay : bytes + 0 ≡ bytes = omega arith in
          (0, m, rw (e, stay) refl, omega arith, no_digits a base (buf + bytes) m (ground arith))
      | inr e ↦
          let small : a % base < base = mod-lt a (omega arith) in
          let found : get_elem? digits (a % base) ≡ some (digit_char (a % base)) =
            digits-digit_char (a % base) (omega arith) in
          let m1 = update m (buf + bytes) (digit_char (a % base)) in
          let quotient : a / base < base ^ k =
            (div-lt_iff_lt-mul {k = base} (omega arith)).1 (rw (sym (pow-suc base k)) lt) in
          let (n, m', wrote, few, r) =
            put_digits-IsReversed k fuel buf (bytes + 1) (a / base) base m1 two sixteen
              (omega arith) quotient in
          let at : buf + (bytes + 1) ≡ buf + bytes + 1 = omega arith in
          let count : bytes + 1 + n ≡ bytes + suc n = omega arith in
          (
            suc n,
            m',
            rw (e, found, sym count) wrote,
            omega arith,
            more_digits a base (buf + bytes) n m m' two sixteen (ground arith) (rw at at r),
          )
    ]
