-- ===== src/Decimal/RoundTrip.antt =====
-- Printing a C `int` and reading it back.
use mathlib.Core.Logic.{ite, dite}
use mathlib.Core.WellFounded
use mathlib.Core.WellFounded.{Acc, Acc-prop}
use native.Mathlib.Decide.{dec_lt}
use distributed_file_system.Base.{
  ℕ, suc, ◌+◌, ◌-◌, ◌*◌, ◌/◌, ◌%◌, ◌≤◌, ◌<◌, ◌≡◌, refl, ap, [], ◌∷◌, arith, Bytes, All, NoSlash,
}
use distributed_file_system.Base.Int.{ℤ, pos, negsuc, IsInt32, two31, to_int_small}
use distributed_file_system.Decimal.{
  lt_wf, tenth_lt, emit, show_nat, show_int, scan_digits, saturate, saturate_neg, scan_signed,
  skip_spaces, atoi,
}

abbrev pub IsDigit : ℕ → Type 0
IsDigit c = (b'0' ≤ c) × (c ≤ b'9')

-- Any two proofs of `Acc` are equal.
emit_step :
    (n : ℕ) (w : Acc ◌<◌ n) (w' : Acc ◌<◌ (n / 10)) (out : Bytes)
    → emit n w out ≡ ite (dec_lt 9 n) (emit (n / 10) w' ((b'0' + n % 10) ∷ out)) ((b'0' + n) ∷ out)
unfolding emit
emit_step n (Acc.intro _ smaller) w' out = λ i.
    dite (dec_lt 9 n)
      (λ h. emit (n / 10) (Acc-prop (smaller (n / 10) (tenth_lt h)) w' i) ((b'0' + n % 10) ∷ out))
      (λ _. (b'0' + n) ∷ out)

abbrev digits : ℕ → Bytes → Bytes
digits n = emit n (lt_wf.apply n)

digits_step :
    (n : ℕ) (out : Bytes)
    → digits n out ≡ ite (dec_lt 9 n) (digits (n / 10) ((b'0' + n % 10) ∷ out)) ((b'0' + n) ∷ out)
digits_step n out = emit_step n _ _ out

-- A digit is read.
scan_digit :
    (acc c : ℕ) (s : Bytes)
    → IsDigit c
    → scan_digits acc (c ∷ s) ≡ scan_digits (acc * 10 + (c - b'0')) s
unfolding scan_digits
scan_digit acc c s h = ground arith

scan-digits_lem : (n : ℕ) (out : Bytes) → scan_digits 0 (digits n out) ≡ scan_digits n out
scan-digits_lem n =
    WellFounded.induction lt_wf
      {C = λ m. (out : Bytes) → scan_digits 0 (digits m out) ≡ scan_digits m out} n
      λ m ih out. grind (
        arith,
        digits_step m out,
        ih (m / 10),
        scan_digit (m / 10) (b'0' + m % 10) out,
        scan_digit 0 (b'0' + m) out,
      )

digits-IsDigit : (n : ℕ) (out : Bytes) → All IsDigit out → All IsDigit (digits n out)
digits-IsDigit n =
    WellFounded.induction lt_wf
      {C = λ m. (out : Bytes) → All IsDigit out → All IsDigit (digits m out)} n
      λ m ih out h.
        ground (arith, digits_step m out, λ (p : m / 10 < m). ih (m / 10) p ((b'0' + m % 10) ∷ out))

pub show_nat-IsDigit : (n : ℕ) → All IsDigit (show_nat n)
unfolding show_nat
show_nat-IsDigit n = digits-IsDigit n [] tt

show_nat-scan : (n : ℕ) → scan_digits 0 (show_nat n) ≡ n
unfolding show_nat scan_digits
show_nat-scan n = scan-digits_lem n []

-- What starts with a digit is neither a blank nor a sign.
read_digits : (s : Bytes) → All IsDigit s → scan_signed (skip_spaces s) ≡ saturate (scan_digits 0 s)
unfolding scan_signed skip_spaces scan_digits saturate saturate_neg
read_digits [] h = refl
read_digits (c ∷ s) (hc, hs) = ground arith

-- The sign is neither a blank nor a digit.
read_minus : (s : Bytes) → scan_signed (skip_spaces (b'-' ∷ s)) ≡ saturate_neg (scan_digits 0 s)
unfolding scan_signed skip_spaces
read_minus s = refl

saturate_small : (n : ℕ) → n < two31 → saturate n ≡ pos n
unfolding saturate
saturate_small n h = ground arith

saturate_neg_small : (n : ℕ) → n < two31 → saturate_neg (suc n) ≡ negsuc n
unfolding saturate_neg
saturate_neg_small n h = ground arith

-- `atoi` reads back every `int` that `%d` printed.
pub atoi-show_int : (z : ℤ) → IsInt32 z → atoi (show_int z) ≡ z
unfolding atoi show_int
atoi-show_int (pos n) h =
    rw (read_digits (show_nat n) (show_nat-IsDigit n), show_nat-scan n, saturate_small n h)
      (to_int_small (pos n) h)
atoi-show_int (negsuc n) h =
    rw (read_minus (show_nat (suc n)), show_nat-scan (suc n), saturate_neg_small n h)
      (to_int_small (negsuc n) h)

digits-NoSlash : (s : Bytes) → All IsDigit s → NoSlash s
digits-NoSlash [] h = tt
digits-NoSlash (c ∷ s) (h, hs) = ((λ e. omega arith), digits-NoSlash s hs)

-- A printed `int` is a single path component.
pub show_int-NoSlash : (z : ℤ) → NoSlash (show_int z)
unfolding show_int
show_int-NoSlash (pos n) = digits-NoSlash _ (show_nat-IsDigit n)
show_int-NoSlash (negsuc n) = (omega arith, digits-NoSlash _ (show_nat-IsDigit (suc n)))

pub show_int-injective : (a b : ℤ) → IsInt32 a → IsInt32 b → show_int a ≡ show_int b → a ≡ b
show_int-injective a b ha hb e = cc (ap atoi e, atoi-show_int a ha, atoi-show_int b hb)
