-- ===== src/Decimal.antt =====
-- The conversions of libc that the program calls on numbers in text: `%d` and `%zu` of printf,
-- and `atoi`, which is `(int) strtol(s, NULL, 10)` with a 64-bit `long`.
pub mod RoundTrip
use mathlib.Core.Logic.{dite}
use mathlib.Core.WellFounded.{Acc, WellFounded}
use native.Mathlib.Decide.{dec_lt}
use distributed_file_system.Base.{
  ℕ, zero, suc, ◌+◌, ◌-◌, ◌*◌, ◌/◌, ◌%◌, ◌<◌, ◌≡◌, Bool, true, false, ◌&&◌, ◌||◌, List, [], ◌∷◌,
  arith, ltb, leb, ◌==◌, if◌then◌else◌, Bytes,
}
use distributed_file_system.Base.Int.{ℤ, pos, negsuc, to_int}

Acc-below : (k n : ℕ) → n < k → Acc ◌<◌ n
Acc-below zero n h = elim h [ ]
Acc-below (suc k) n h = Acc.intro n (λ m hm. Acc-below k m (omega arith))

unfoldable pub lt_wf : WellFounded ◌<◌
unfolding Acc-below
lt_wf = record { apply = λ n. Acc-below (suc n) n (omega arith) }

pub tenth_lt : {n : ℕ} → 9 < n → n / 10 < n
tenth_lt h = omega arith

-- The digits of `n` in front of `out`.
unfoldable pub emit : (n : ℕ) → Acc ◌<◌ n → Bytes → Bytes
emit n (Acc.intro _ smaller) out =
    dite (dec_lt 9 n) (λ h. emit (n / 10) (smaller (n / 10) (tenth_lt h)) ((b'0' + n % 10) ∷ out))
      (λ _. (b'0' + n) ∷ out)

-- `%zu`
unfoldable pub show_nat : ℕ → Bytes
unfolding emit lt_wf dec_lt
show_nat n = emit n (lt_wf.apply n) []

-- `%d`
unfoldable pub show_int : ℤ → Bytes
unfolding show_nat
show_int (pos n) = show_nat n
show_int (negsuc n) = b'-' ∷ show_nat (suc n)

abbrev pub is_digit : ℕ → Bool
is_digit c = leb b'0' c && leb c b'9'

abbrev pub is_space : ℕ → Bool
is_space c = c == 32 || (leb 9 c && leb c 13)

-- The value of the leading digits of a text, behind the digits that gave `acc`.
unfoldable pub scan_digits : ℕ → Bytes → ℕ
scan_digits acc [] = acc
scan_digits acc (c ∷ s) = elim (is_digit c) [
  | true ↦ scan_digits (acc * 10 + (c - b'0')) s
  | false ↦ acc
]

abbrev pub long_max : ℕ
long_max = 9223372036854775807

-- `strtol` stops at LONG_MAX and LONG_MIN.
unfoldable pub saturate : ℕ → ℤ
saturate n = if leb n long_max then pos n else pos long_max

unfoldable pub saturate_neg : ℕ → ℤ
saturate_neg zero = pos 0
saturate_neg (suc n) = if leb n long_max then negsuc n else negsuc long_max

-- An optional sign and the digits.
unfoldable pub scan_signed : Bytes → ℤ
unfolding scan_digits saturate saturate_neg
scan_signed [] = pos 0
scan_signed (c ∷ s) =
    if c == b'-'
    then saturate_neg (scan_digits 0 s)
    else if c == b'+'
    then saturate (scan_digits 0 s)
    else saturate (scan_digits 0 (c ∷ s))

unfoldable pub skip_spaces : Bytes → Bytes
skip_spaces [] = []
skip_spaces (c ∷ s) = elim (is_space c) [ true ↦ skip_spaces s | false ↦ c ∷ s ]

unfoldable pub atoi : Bytes → ℤ
unfolding scan_signed skip_spaces to_int
atoi s = to_int (scan_signed (skip_spaces s))
