-- ===== src/State/Remove/Shift.antt =====
-- The loop that closes the gap of a removed entry.
use distributed_file_system.Base.{
  ℕ, zero, suc, ◌+◌, ◌≤◌, ◌<◌, ◌≡◌, refl, ap, sym, ◌∙◌, inl, inr, Option-cases, some, List, [], ◌∷◌,
  length, take, set, get_elem?, All, arith, ◌>>=◌,
}
use distributed_file_system.State.{FileStateCurrentInner}
use distributed_file_system.State.Remove.{shift_down}

unfoldable pub remove_nth {ℓ} : {A : Type ℓ} → ℕ → List A → List A
remove_nth i [] = []
remove_nth zero (x ∷ xs) = xs
remove_nth (suc i) (x ∷ xs) = x ∷ remove_nth i xs

module _ {ℓ} {A : Type ℓ} where
  pub length-remove_nth :
      (i : ℕ) (xs : List A) → i < length xs → suc (length (remove_nth i xs)) ≡ length xs
  unfolding remove_nth
  length-remove_nth i [] h = elim h [ ]
  length-remove_nth zero (x ∷ xs) h = refl
  length-remove_nth (suc i) (x ∷ xs) h = ap suc (length-remove_nth i xs (omega arith))

  pub All-remove_nth {κ} :
      (P : A → Type κ) (i : ℕ) (xs : List A) → All P xs → All P (remove_nth i xs)
  unfolding remove_nth
  All-remove_nth P i [] h = tt
  All-remove_nth P zero (x ∷ xs) h = h.1
  All-remove_nth P (suc i) (x ∷ xs) h = (h.0, All-remove_nth P i xs h.1)

-- Shifting in a list with a longer head.
shift_down-cons :
    (rounds i : ℕ) (x : FileStateCurrentInner) (files files' : List FileStateCurrentInner)
    → shift_down rounds i files ≡ some files'
    → shift_down rounds (suc i) (x ∷ files) ≡ some (x ∷ files')
unfolding shift_down
shift_down-cons zero i x files files' e = cc
shift_down-cons (suc rounds) i x files files' e = elim (Option-cases (get_elem? files (suc i))) [
  | inl missing ↦ cc (rw missing at e)
  | inr (f, found) ↦ rw found (
      shift_down-cons rounds (suc i) x (set files i f) files'
        (sym (ap (λ o. o >>= (λ g. shift_down rounds (suc i) (set files i g))) found) ∙ e))
]

-- From the head on, everything moves down by one.
shift_down_head :
    (rounds : ℕ) (x : FileStateCurrentInner) (files : List FileStateCurrentInner)
    → rounds ≤ length files
    → (files' : List FileStateCurrentInner) × (shift_down rounds 0 (x ∷ files) ≡ some files')
      × (length files' ≡ suc (length files))
      × (take rounds files' ≡ take rounds files)
unfolding shift_down
shift_down_head zero x files h = (x ∷ files, refl, refl, refl)
shift_down_head (suc rounds) x [] h = absurd (omega arith)
shift_down_head (suc rounds) x (y ∷ files) h =
    let (files', shifted, len, eq) = shift_down_head rounds y files (omega arith) in
    (y ∷ files', shift_down-cons rounds 0 y (y ∷ files) files' shifted, ap suc len, ap (◌∷◌ y) eq)

-- The loop takes out the element at `i` and stays in bounds.
pub shift_down-remove_nth :
    (rounds i last : ℕ) (files : List FileStateCurrentInner)
    → i + rounds ≡ last
    → last < length files
    → (files' : List FileStateCurrentInner) × (shift_down rounds i files ≡ some files')
      × (length files' ≡ length files)
      × (take last files' ≡ remove_nth i (take (suc last) files))
unfolding remove_nth
shift_down-remove_nth rounds i last [] sum h = absurd (omega arith)
shift_down-remove_nth rounds zero last (x ∷ files) sum h =
    let e : last ≡ rounds = omega arith in
    let (files', shifted, len, eq) = shift_down_head rounds x files (omega arith) in
    (files', shifted, len, rw e eq)
shift_down-remove_nth rounds (suc i) zero (x ∷ files) sum h = absurd (omega arith)
shift_down-remove_nth rounds (suc i) (suc last) (x ∷ files) sum h =
    let (files', shifted, len, eq) =
      shift_down-remove_nth rounds i last files (omega arith) (omega arith) in
    (x ∷ files', shift_down-cons rounds i x files files' shifted, ap suc len, ap (◌∷◌ x) eq)
