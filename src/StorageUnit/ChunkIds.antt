-- ===== src/StorageUnit/ChunkIds.antt =====
-- The chunk ids of a file that the master lists.
use distributed_file_system.Base.{
  ◌≡◌, refl, ap, ◌∙◌, Bool, Bool-cases, true, false, ◌||◌, inl, inr, List, [], ◌∷◌, ◌++◌, arith,
  Bytes, str_eq, if◌then◌else◌,
}
use distributed_file_system.Base.Int.{ℤ, pos, negsuc, int_eq, int_eq_iff, int_ltb}
use distributed_file_system.Proto.{FileMappings}
use distributed_file_system.StorageUnit.{
  ConnectionData, TcpStorage, contains_id, collect_ids, collect_file, collect_chunks, insert_sorted,
  sort, get_chunks_for_file,
}

-- Whether the first entry of the name has the chunk, for some connection.
unfoldable pub first_has : Bytes → ℤ → List FileMappings → Bool
first_has f z [] = false
first_has f z (m ∷ ms) = if str_eq m.filename f then contains_id z m.chunk_ids else first_has f z ms

unfoldable pub some_has : Bytes → ℤ → List ConnectionData → Bool
some_has f z [] = false
some_has f z (c ∷ cs) = first_has f z c.files_to_chunks || some_has f z cs

contains_id-append :
    (z y : ℤ) (xs : List ℤ) → contains_id z (xs ++ y ∷ []) ≡ (contains_id z xs || int_eq y z)
unfolding contains_id
contains_id-append z y [] = ground arith
contains_id-append z y (k ∷ xs) = rw (contains_id-append z y xs) (ground arith)

pushed_id :
    (z y : ℤ) (res : List ℤ)
    → contains_id z (if contains_id y res then res else res ++ y ∷ [])
      ≡ (contains_id z res || int_eq y z)
pushed_id z y res = grind (arith, contains_id-append z y res, int_eq_iff y z)

collect_ids_lem :
    (z : ℤ) (ids res : List ℤ)
    → contains_id z (collect_ids ids res) ≡ (contains_id z res || contains_id z ids)
unfolding collect_ids contains_id
collect_ids_lem z [] res = ground arith
collect_ids_lem z (y ∷ ids) res =
    collect_ids_lem z ids (if contains_id y res then res else res ++ y ∷ [])
    ∙ rw (pushed_id z y res) (ground arith)

collect_file_lem :
    (f : Bytes) (z : ℤ) (ms : List FileMappings) (res : List ℤ)
    → contains_id z (collect_file f ms res) ≡ (contains_id z res || first_has f z ms)
unfolding collect_file first_has
collect_file_lem f z [] res = ground arith
collect_file_lem f z (m ∷ ms) res =
    ground (arith, collect_ids_lem z m.chunk_ids res, collect_file_lem f z ms res)

collect_chunks_lem :
    (f : Bytes) (z : ℤ) (cs : List ConnectionData) (res : List ℤ)
    → contains_id z (collect_chunks f cs res) ≡ (contains_id z res || some_has f z cs)
unfolding collect_chunks some_has
collect_chunks_lem f z [] res = ground arith
collect_chunks_lem f z (c ∷ cs) res =
    collect_chunks_lem f z cs (collect_file f c.files_to_chunks res)
    ∙ rw (collect_file_lem f z c.files_to_chunks res) (ground arith)

-- No id twice.
abbrev AreApart : List ℤ → Type 0
AreApart [] = Unit {0}
AreApart (x ∷ xs) = (contains_id x xs ≡ false) × AreApart xs

AreApart-append :
    (xs : List ℤ) (y : ℤ) → AreApart xs → contains_id y xs ≡ false → AreApart (xs ++ y ∷ [])
unfolding contains_id
AreApart-append [] y h new = (refl, tt)
AreApart-append (x ∷ xs) y (hx, h) new = (
  contains_id-append x y xs ∙ ground (arith, int_eq_iff y x, int_eq_iff x y),
  AreApart-append xs y h (ground arith),
)

collect_ids-AreApart : (ids res : List ℤ) → AreApart res → AreApart (collect_ids ids res)
unfolding collect_ids
collect_ids-AreApart [] res h = h
collect_ids-AreApart (y ∷ ids) res h =
    collect_ids-AreApart ids _ (elim (Bool-cases (contains_id y res)) [
      | inl known ↦ rw known h
      | inr new ↦ rw new (AreApart-append res y h new)
    ])

collect_file-AreApart :
    (f : Bytes) (ms : List FileMappings) (res : List ℤ)
    → AreApart res
    → AreApart (collect_file f ms res)
unfolding collect_file
collect_file-AreApart f [] res h = h
collect_file-AreApart f (m ∷ ms) res h = elim (Bool-cases (str_eq m.filename f)) [
  | inl hit ↦ rw hit (collect_ids-AreApart m.chunk_ids res h)
  | inr miss ↦ rw miss (collect_file-AreApart f ms res h)
]

collect_chunks-AreApart :
    (f : Bytes) (cs : List ConnectionData) (res : List ℤ)
    → AreApart res
    → AreApart (collect_chunks f cs res)
unfolding collect_chunks
collect_chunks-AreApart f [] res h = h
collect_chunks-AreApart f (c ∷ cs) res h =
    collect_chunks-AreApart f cs _ (collect_file-AreApart f c.files_to_chunks res h)

-- Each id is below the next.
abbrev pub IsAscending : List ℤ → Type 0
IsAscending [] = Unit {0}
IsAscending (x ∷ []) = Unit {0}
IsAscending (x ∷ y ∷ ys) = (int_ltb x y ≡ true) × IsAscending (y ∷ ys)

int_ltb-total : (x y : ℤ) → int_eq y x ≡ false → int_ltb y x ≡ false → int_ltb x y ≡ true
unfolding int_eq int_ltb
int_ltb-total (pos a) (pos b) h k = ground arith
int_ltb-total (pos a) (negsuc b) h k = absurd cc
int_ltb-total (negsuc a) (pos b) h k = refl
int_ltb-total (negsuc a) (negsuc b) h k = ground arith

contains_id-insert_sorted :
    (z x : ℤ) (ys : List ℤ) → contains_id z (insert_sorted x ys) ≡ (int_eq x z || contains_id z ys)
unfolding contains_id insert_sorted
contains_id-insert_sorted z x [] = refl
contains_id-insert_sorted z x (y ∷ ys) = ground (arith, contains_id-insert_sorted z x ys)

contains_id-sort : (z : ℤ) (xs : List ℤ) → contains_id z (sort xs) ≡ contains_id z xs
unfolding contains_id sort
contains_id-sort z [] = refl
contains_id-sort z (x ∷ xs) =
    contains_id-insert_sorted z x (sort xs) ∙ ap (λ b. int_eq x z || b) (contains_id-sort z xs)

insert_sorted-IsAscending :
    (x : ℤ) (ys : List ℤ)
    → contains_id x ys ≡ false
    → IsAscending ys
    → IsAscending (insert_sorted x ys)
unfolding contains_id insert_sorted
insert_sorted-IsAscending x [] new h = tt
insert_sorted-IsAscending x (y ∷ []) new h = elim (Bool-cases (int_ltb y x)) [
  | inl below ↦ rw below (below, tt)
  | inr not_below ↦ rw not_below (int_ltb-total x y (ground arith) not_below, tt)
]
insert_sorted-IsAscending x (y ∷ z ∷ ys) new (hy, h) = elim (Bool-cases (int_ltb y x)) [
  | inr not_below ↦ rw not_below (int_ltb-total x y (ground arith) not_below, (hy, h))
  | inl below ↦
      let tail = insert_sorted-IsAscending x (z ∷ ys) (ground arith) h in
      rw below (elim (Bool-cases (int_ltb z x)) [
        | inl further ↦ rw further (hy, (rw further at tail))
        | inr here ↦ rw here (below, (rw here at tail))
      ])
]

sort-IsAscending : (xs : List ℤ) → AreApart xs → IsAscending (sort xs)
unfolding sort
sort-IsAscending [] h = tt
sort-IsAscending (x ∷ xs) (hx, h) =
    insert_sorted-IsAscending x (sort xs) (contains_id-sort x xs ∙ hx) (sort-IsAscending xs h)

-- The chunk ids of a file come in ascending order, none twice, and are those that the first entry of
-- the name has in the table of some connection.
pub get_chunks_for_file-some_has :
    (f : Bytes) (s : TcpStorage)
    → ((z : ℤ) → contains_id z (get_chunks_for_file f s) ≡ some_has f z s.connections)
      × IsAscending (get_chunks_for_file f s)
unfolding get_chunks_for_file
get_chunks_for_file-some_has f s = (
  λ z.
      contains_id-sort z (collect_chunks f s.connections [])
      ∙ collect_chunks_lem f z s.connections []
      ∙ unfold contains_id in refl,
  sort-IsAscending (collect_chunks f s.connections [])
      (collect_chunks-AreApart f s.connections [] tt),
)
