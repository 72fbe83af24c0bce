-- ===== src/FileOperation/Next.antt =====
-- The chunk number that `getNextChunkNumber` proposes.
use distributed_file_system.Base.{
  ℕ, ◌+◌, ◌≡◌, refl, ap, ◌∙◌, ◌⊎◌, inl, inr, Bool-cases, true, false, none, some, List, [], ◌∷◌,
  All, arith, ltb, if◌then◌else◌,
}
use distributed_file_system.Base.Int.{ℤ, pos, negsuc, int_ltb, IsInt32, two31, to_int-IsInt32}
use distributed_file_system.Base.{Bytes}
use distributed_file_system.Decimal.{atoi, scan_signed, skip_spaces}
use distributed_file_system.Disk.{Dirent, Disk}
use distributed_file_system.FileOperation.{
  is_listed, max_number, increment, dir_path, get_next_chunk_number,
}

-- `a <= b`
abbrev IsAtMost : ℤ → ℤ → Type 0
IsAtMost a b = int_ltb b a ≡ false

IsAtMost-trans : (a b c : ℤ) → IsAtMost a b → IsAtMost b c → IsAtMost a c
unfolding int_ltb
IsAtMost-trans (pos a) (pos b) (pos c) h k = ground arith
IsAtMost-trans (pos a) (pos b) (negsuc c) h k = ground arith
IsAtMost-trans (pos a) (negsuc b) c h k = absurd cc
IsAtMost-trans (negsuc a) (pos b) (pos c) h k = refl
IsAtMost-trans (negsuc a) (pos b) (negsuc c) h k = absurd cc
IsAtMost-trans (negsuc a) (negsuc b) (pos c) h k = refl
IsAtMost-trans (negsuc a) (negsuc b) (negsuc c) h k = ground arith

IsAtMost-refl : (a : ℤ) → IsAtMost a a
unfolding int_ltb
IsAtMost-refl (pos a) = ground arith
IsAtMost-refl (negsuc a) = ground arith

IsAtMost-above : (a b : ℤ) → int_ltb a b ≡ true → IsAtMost a b
unfolding int_ltb
IsAtMost-above (pos a) (pos b) h = ground arith
IsAtMost-above (pos a) (negsuc b) h = absurd cc
IsAtMost-above (negsuc a) (pos b) h = refl
IsAtMost-above (negsuc a) (negsuc b) h = ground arith

atoi-IsInt32 : (s : Bytes) → IsInt32 (atoi s)
unfolding atoi
atoi-IsInt32 s = to_int-IsInt32 (scan_signed (skip_spaces s))

-- Every entry but "." and ".." has a number of at most `m`.
abbrev AreAtMost : ℤ → List Dirent → Type 0
AreAtMost m = All (λ entry. is_listed entry.d_name ≡ true → IsAtMost (atoi entry.d_name) m)

-- One round of the loop.
abbrev round : ℤ → Dirent → ℤ
round max entry =
    if is_listed entry.d_name
    then (if int_ltb max (atoi entry.d_name) then atoi entry.d_name else max)
    else max

round_lem :
    (max : ℤ) (entry : Dirent)
    → IsInt32 max
    → IsInt32 (round max entry)
      × IsAtMost max (round max entry)
      × (is_listed entry.d_name ≡ true → IsAtMost (atoi entry.d_name) (round max entry))
round_lem max entry h = elim (Bool-cases (is_listed entry.d_name)) [
  | inr skipped ↦ rw skipped (h, IsAtMost-refl max, λ listed. absurd cc)
  | inl listed ↦ elim (Bool-cases (int_ltb max (atoi entry.d_name))) [
    | inl more ↦
        rw (listed, more)
          (
            atoi-IsInt32 entry.d_name,
            IsAtMost-above max (atoi entry.d_name) more,
            λ e. IsAtMost-refl (atoi entry.d_name),
          )
    | inr no_more ↦ rw (listed, no_more) (h, IsAtMost-refl max, λ e. no_more)
  ]
]

max_number_lem :
    (max : ℤ) (entries : List Dirent)
    → IsInt32 max
    → IsInt32 (max_number max entries)
      × IsAtMost max (max_number max entries)
      × AreAtMost (max_number max entries) entries
unfolding max_number
max_number_lem max [] h = (h, IsAtMost-refl max, tt)
max_number_lem max (entry ∷ rest) h =
    let next = round max entry in
    let (h', up, own) = round_lem max entry h in
    let (i, above, all) = max_number_lem (round max entry) rest h' in
    (
      i,
      IsAtMost-trans max next (max_number next rest) up above,
      (
        λ listed. IsAtMost-trans (atoi entry.d_name) next (max_number next rest) (own listed) above,
        all,
      ),
    )

above_next : (m : ℕ) (z : ℤ) → IsAtMost z (pos m) → int_ltb z (pos (m + 1)) ≡ true
unfolding int_ltb
above_next m (pos a) h = ground arith
above_next m (negsuc a) h = refl

are_below :
    (m n : ℤ) (entries : List Dirent)
    → ((z : ℤ) → IsAtMost z m → int_ltb z n ≡ true)
    → AreAtMost m entries
    → All (λ entry. is_listed entry.d_name ≡ true → int_ltb (atoi entry.d_name) n ≡ true) entries
are_below m n [] h k = tt
are_below m n (entry ∷ rest) h (own, k) =
    (λ listed. h (atoi entry.d_name) (own listed), are_below m n rest h k)

increment_lem :
    (m : ℤ)
    → IsInt32 m
    → IsAtMost (pos 0) m
    → ((increment m ≡ none) × (m ≡ pos 2147483647))
      ⊎ ((n : ℤ) × (increment m ≡ some n) × ((z : ℤ) → IsAtMost z m → int_ltb z n ≡ true))
unfolding increment int_ltb
increment_lem (negsuc m) h k = absurd cc
increment_lem (pos m) h k = elim (Bool-cases (ltb (m + 1) two31)) [
  | inl small ↦ inr (pos (m + 1), rw small refl, above_next m)
  | inr large ↦ inl (rw large refl, ap pos (ground arith))
]

module _ (d : Disk) where
  numbered :
      (directory : Bytes) (s : d.State) (entries : List Dirent)
      → d.opendir (dir_path directory) s ≡ some entries
      → get_next_chunk_number d directory s ≡ increment (max_number (pos 0) entries)
  unfolding get_next_chunk_number
  numbered directory s entries opened =
      ap (λ o. elim o [ none ↦ some (pos 1) | some es ↦ increment (max_number (pos 0) es) ]) opened

  -- In a directory that can be read, the number proposed is above 0 and above the number of every
  -- entry but "." and "..". Only where the largest is 2147483647 does `max_number + 1` overflow.
  pub get_next_chunk_number_fresh :
      (directory : Bytes) (s : d.State) (entries : List Dirent)
      → d.opendir (dir_path directory) s ≡ some entries
      → ((get_next_chunk_number d directory s ≡ none)
          × (max_number (pos 0) entries ≡ pos 2147483647))
        ⊎ ((n : ℤ) × (get_next_chunk_number d directory s ≡ some n)
            × (int_ltb (pos 0) n ≡ true)
            × All
                (λ entry. is_listed entry.d_name ≡ true → int_ltb (atoi entry.d_name) n ≡ true)
                entries)
  get_next_chunk_number_fresh directory s entries opened =
      let (int, positive, all) = max_number_lem (pos 0) entries (omega arith) in
      elim (increment_lem (max_number (pos 0) entries) int positive) [
        | inl (overflow, largest) ↦ inl (numbered directory s entries opened ∙ overflow, largest)
        | inr (n, next, above) ↦ inr (
          n,
          numbered directory s entries opened ∙ next,
          above (pos 0) positive,
          are_below (max_number (pos 0) entries) n entries above all,
        )
      ]
