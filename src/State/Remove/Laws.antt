-- ===== src/State/Remove/Laws.antt =====
-- What `remove_from_struct` does on every branch.
use Prim.Native.Nat.add
use distributed_file_system.Base.{
  ℕ, zero, suc, ◌+◌, ◌-◌, ◌≤◌, ◌<◌, ◌≡◌, refl, ap, sym, ◌∙◌, subst, ◌⊎◌, inl, inr, Bool, Bool-cases,
  true, false, none, some, List, [], ◌∷◌, map, length, take, drop, get_elem?, All, arith, Bytes,
  str_eq, length-take, get_elem?-total, drop-get_elem?, take-all,
}
use distributed_file_system.State.{
  FileStateCurrentInner, StorageStateOuter, mutex_unlock, mapping_of, catalogue, HasChunks, IsValid,
  mutex_lock_lem, mutex_unlock_lem,
}
use distributed_file_system.State.Print.{print_storage_state-render}
use distributed_file_system.State.Remove.{
  find_index, shrink, remove_at, remove_from_struct, without_file,
}
use distributed_file_system.State.Remove.Shift.{remove_nth, All-remove_nth, shift_down-remove_nth}

-- The search, on the table: the index it gives is that of the entry that `without_file` takes out.
abbrev Searches : (rounds i : ℕ) → List FileStateCurrentInner → Bytes → Type 0
Searches rounds i files path =
    let visible = take rounds (drop i files) in
    ((find_index rounds i files path ≡ some none)
      × (without_file path (map mapping_of visible) ≡ map mapping_of visible))
    ⊎ ((k : ℕ) × (find_index rounds i files path ≡ some (some (i + k)))
        × (k < rounds)
        × (without_file path (map mapping_of visible) ≡ map mapping_of (remove_nth k visible)))

module _ (rounds i : ℕ) (files : List FileStateCurrentInner) (path : Bytes)
    (f : FileStateCurrentInner) (e : get_elem? files i ≡ some f) where
  find_index_hit :
      str_eq f.file_path path ≡ true → find_index (suc rounds) i files path ≡ some (some i)
  unfolding find_index
  find_index_hit hit = ground arith

  find_index_miss :
      str_eq f.file_path path ≡ false
      → find_index (suc rounds) i files path ≡ find_index rounds (suc i) files path
  unfolding find_index
  find_index_miss miss = ground arith

  without_file_hit :
      str_eq f.file_path path ≡ true
      → without_file path (map mapping_of (take (suc rounds) (drop i files)))
        ≡ map mapping_of (take rounds (drop (suc i) files))
  unfolding without_file mapping_of
  without_file_hit hit = rw (drop-get_elem? files i f e) (rw hit refl)

  without_file_miss :
      str_eq f.file_path path ≡ false
      → without_file path (map mapping_of (take (suc rounds) (drop i files)))
        ≡ mapping_of f ∷ without_file path (map mapping_of (take rounds (drop (suc i) files)))
  unfolding without_file mapping_of
  without_file_miss miss = rw (drop-get_elem? files i f e) (rw miss refl)

  find_index_step : Searches rounds (suc i) files path → Searches (suc rounds) i files path
  unfolding remove_nth
  find_index_step later = elim (Bool-cases (str_eq f.file_path path)) [
    | inl hit ↦ inr (
      0,
      find_index_hit hit ∙ ap (λ n. some (some n)) (omega arith),
      omega arith,
      without_file_hit hit ∙ rw (drop-get_elem? files i f e) refl,
    )
    | inr miss ↦ elim later [
      | inl (missing, same) ↦ inl (
        find_index_miss miss ∙ missing,
        without_file_miss miss
            ∙ ap (◌∷◌ (mapping_of f)) same
            ∙ rw (drop-get_elem? files i f e) refl,
      )
      | inr (k, found, below, eq) ↦ inr (
        suc k,
        find_index_miss miss ∙ found ∙ ap (λ n. some (some n)) (omega arith),
        omega arith,
        without_file_miss miss ∙ ap (◌∷◌ (mapping_of f)) eq ∙ rw (drop-get_elem? files i f e) refl,
      )
    ]
  ]

find_index-without_file :
    (rounds i : ℕ) (files : List FileStateCurrentInner) (path : Bytes)
    → i + rounds ≤ length files
    → Searches rounds i files path
unfolding find_index without_file
find_index-without_file zero i files path h = inl (refl, refl)
find_index-without_file (suc rounds) i files path h =
    let (f, e) = get_elem?-total files i (omega arith) in
    find_index_step rounds i files path f e
      (find_index-without_file rounds (suc i) files path (omega arith))

-- Shrinking the array changes nothing that the count lets the code see.
shrink_lem :
    (shrunk : Bool) (count : ℕ) (files : List FileStateCurrentInner)
    → count ≤ length files
    → All HasChunks (take count files)
    → (t : StorageStateOuter) × (shrink shrunk count
          (record { file_to_chunk_state = files; num_file_count = count; lock = true })
        ≡ some t)
      × IsValid t
      × (catalogue t ≡ map mapping_of (take count files))
unfolding shrink mutex_unlock catalogue
shrink_lem shrunk zero files h v =
    let t : StorageStateOuter = record {
      file_to_chunk_state = [];
      num_file_count = 0;
      lock = false;
    } in
    let w : IsValid t = record { unlocked = refl; allocated = omega arith; chunks = tt } in
    (t, rw (print_storage_state-render t w) refl, w, refl)
shrink_lem false (suc count) files h v = (
  record { file_to_chunk_state = files; num_file_count = suc count; lock = false },
  refl,
  record { unlocked = refl; allocated = h; chunks = v },
  refl,
)
shrink_lem true (suc count) files h v =
    let kept = take (suc count) files in
    let len : length kept ≡ suc count = omega (arith, length-take (suc count) files) in
    let same : take (suc count) kept ≡ kept = take-all (suc count) kept (omega (arith, len)) in
    let t : StorageStateOuter = record {
      file_to_chunk_state = kept;
      num_file_count = suc count;
      lock = false;
    } in
    let w : IsValid t = record {
      unlocked = refl;
      allocated = omega (arith, len);
      chunks = subst (All HasChunks) (sym same) v;
    } in
    (t, rw (print_storage_state-render t w) refl, w, ap (map mapping_of) same)

map-remove_nth {ℓ κ} :
    {A : Type ℓ} {B : Type κ} (g : A → B) (i : ℕ) (xs : List A)
    → map g (remove_nth i xs) ≡ remove_nth i (map g xs)
unfolding remove_nth
map-remove_nth g i [] = refl
map-remove_nth g zero (x ∷ xs) = refl
map-remove_nth g (suc i) (x ∷ xs) = ap (◌∷◌ (g x)) (map-remove_nth g i xs)

remove_at_lem :
    (shrunk : Bool) (index : ℕ) (s : StorageStateOuter)
    → IsValid s
    → index < s.num_file_count
    → (t : StorageStateOuter) × (remove_at shrunk index (record s { lock = true }) ≡ some t)
      × IsValid t
      × (catalogue t
          ≡ map mapping_of (remove_nth index (take s.num_file_count s.file_to_chunk_state)))
unfolding remove_at
remove_at_lem shrunk index s v h =
    let count : ℕ = s.num_file_count - 1 in
    let (files, shifted, len, rest) =
      shift_down-remove_nth (count - index) index count s.file_to_chunk_state (omega arith)
        (omega (arith, v.allocated)) in
    let whole : suc count ≡ s.num_file_count = omega arith in
    let rest' : take count files ≡ remove_nth index (take s.num_file_count s.file_to_chunk_state) =
      rest ∙ ap (λ c. remove_nth index (take c s.file_to_chunk_state)) whole in
    let (t, done, w, c) =
      shrink_lem shrunk count files (omega (arith, v.allocated, len))
        (subst (All HasChunks) (sym rest') (All-remove_nth HasChunks index _ v.chunks)) in
    (t, rw shifted done, w, c ∙ ap (map mapping_of) rest')

-- On a valid state the removal never faults, whether the array could be shrunk or not. The state
-- stays valid and unlocked, and its table is the old one without the first entry of the path, the
-- others in their order.
pub remove_from_struct-without_file :
    (shrunk : Bool) (path : Bytes) (s : StorageStateOuter)
    → IsValid s
    → (t : StorageStateOuter) × (remove_from_struct shrunk path s ≡ some t)
      × IsValid t
      × (catalogue t ≡ without_file path (catalogue s))
unfolding remove_from_struct
remove_from_struct-without_file shrunk path s v =
    elim (find_index-without_file s.num_file_count 0 s.file_to_chunk_state path
      (omega (arith, v.allocated))) [
        | inl (missing, same) ↦ (
          s,
          rw (mutex_lock_lem s v.unlocked, missing)
              (mutex_unlock_lem (record s { lock = true }) refl
                ∙ ap (λ b. some (record s { lock = b })) (sym v.unlocked)),
          v,
          unfold catalogue in sym same,
        )
        | inr (k, found, below, eq) ↦
            let (t, done, w, c) = remove_at_lem shrunk k s v below in
            (
              t,
              rw (mutex_lock_lem s v.unlocked, found)
                  (ap (λ c. remove_at shrunk c (record s { lock = true })) (add.zero k) ∙ done),
              w,
              c ∙ unfold catalogue in sym eq,
            )
      ]

-- The search that the call makes, on the table: where it finds no entry the table has none of the
-- path, and else the entry that is taken out is the one that it finds.
pub find_index-nth :
    (path : Bytes) (s : StorageStateOuter)
    → IsValid s
    → (without_file path (catalogue s) ≡ catalogue s)
      ⊎ ((k : ℕ) × (find_index s.num_file_count 0 s.file_to_chunk_state path ≡ some (some k))
          × (k < s.num_file_count)
          × (without_file path (catalogue s) ≡ remove_nth k (catalogue s)))
unfolding catalogue
find_index-nth path s v =
    elim (find_index-without_file s.num_file_count 0 s.file_to_chunk_state path
      (omega (arith, v.allocated))) [
        | inl (missing, same) ↦ inl same
        | inr (k, found, below, eq) ↦ inr (
          k,
          found ∙ ap (λ n. some (some n)) (add.zero k),
          below,
          eq ∙ map-remove_nth mapping_of k (take s.num_file_count s.file_to_chunk_state),
        )
      ]
