-- ===== src/StorageUnit/Location.antt =====
-- Where the master says that a chunk is.
use distributed_file_system.Base.{
  ◌≡◌, refl, ◌∙◌, Bool, Bool-cases, true, false, ◌&&◌, ◌||◌, not, inl, inr, List, [], ◌∷◌, ◌++◌,
  arith, Bytes, str_eq, str_eq_iff, str_eq_comm, if◌then◌else◌,
}
use distributed_file_system.Base.Int.{ℤ, int_eq, int_eq_iff}
use distributed_file_system.Proto.{FileMappings}
use distributed_file_system.GetFileDescriptor.{has_id, has_chunk}
use distributed_file_system.StorageUnit.{
  ConnectionData, TcpStorage, contains, contains_id, holds, locate, get_location,
}

int_eq_comm : (a b : ℤ) → int_eq a b ≡ int_eq b a
int_eq_comm a b = ground (arith, int_eq_iff a b, int_eq_iff b a)

contains_id-has_id : (x : ℤ) (ys : List ℤ) → contains_id x ys ≡ has_id x ys
unfolding contains_id has_id
contains_id-has_id x [] = refl
contains_id-has_id x (y ∷ ys) = rw (int_eq_comm y x, contains_id-has_id x ys) refl

holds-has_chunk :
    (known : Bool) (f : Bytes) (z : ℤ) (ms : List FileMappings)
    → holds known f z ms ≡ (not known && has_chunk f z ms)
unfolding holds has_chunk
holds-has_chunk known f z [] = ground arith
holds-has_chunk known f z (m ∷ ms) =
    rw (str_eq_comm m.filename f, contains_id-has_id z m.chunk_ids, holds-has_chunk known f z ms)
      (ground arith)

-- Whether some node of an address has the chunk, by its own look-up on the table that it told.
unfoldable pub is_held : Bytes → Bytes → ℤ → List ConnectionData → Bool
is_held ip f z [] = false
is_held ip f z (c ∷ cs) = (str_eq c.ip ip && has_chunk f z c.files_to_chunks) || is_held ip f z cs

pub contains-append :
    (x y : Bytes) (xs : List Bytes) → contains x (xs ++ y ∷ []) ≡ (contains x xs || str_eq y x)
unfolding contains
contains-append x y [] = ground arith
contains-append x y (k ∷ xs) = ground (arith, contains-append x y xs)

pushed :
    (ip f : Bytes) (z : ℤ) (c : ConnectionData) (res : List Bytes)
    → contains ip
        (if holds (contains c.ip res) f z c.files_to_chunks then res ++ c.ip ∷ [] else res)
      ≡ (contains ip res || (str_eq c.ip ip && has_chunk f z c.files_to_chunks))
pushed ip f z c res =
    rw (holds-has_chunk (contains c.ip res) f z c.files_to_chunks)
      (grind (arith, contains-append ip c.ip res, str_eq_iff c.ip ip))

locate-is_held :
    (ip f : Bytes) (z : ℤ) (cs : List ConnectionData) (res : List Bytes)
    → contains ip (locate f z cs res) ≡ (contains ip res || is_held ip f z cs)
unfolding locate is_held
locate-is_held ip f z [] res = ground arith
locate-is_held ip f z (c ∷ cs) res =
    locate-is_held ip f z cs
      (if holds (contains c.ip res) f z c.files_to_chunks then res ++ c.ip ∷ [] else res)
    ∙ rw (pushed ip f z c res) (ground arith)

-- No address twice.
abbrev pub AreDistinct : List Bytes → Type 0
AreDistinct [] = Unit {0}
AreDistinct (x ∷ xs) = (contains x xs ≡ false) × AreDistinct xs

apart : (a b : Bool) → (a || b) ≡ false → (a ≡ false) × (b ≡ false)
apart true b e = absurd cc
apart false b e = (refl, e)

pub AreDistinct-append :
    (xs : List Bytes) (y : Bytes)
    → AreDistinct xs
    → contains y xs ≡ false
    → AreDistinct (xs ++ y ∷ [])
unfolding contains
AreDistinct-append [] y h new = (refl, tt)
AreDistinct-append (x ∷ xs) y (hx, h) new =
    let (other, rest) = apart (str_eq x y) (contains y xs) new in
    (contains-append x y xs ∙ rw (hx, str_eq_comm y x, other) refl, AreDistinct-append xs y h rest)

locate-AreDistinct :
    (f : Bytes) (z : ℤ) (cs : List ConnectionData) (res : List Bytes)
    → AreDistinct res
    → AreDistinct (locate f z cs res)
unfolding locate
locate-AreDistinct f z [] res h = h
locate-AreDistinct f z (c ∷ cs) res h =
    locate-AreDistinct f z cs _ (elim (Bool-cases (contains c.ip res)) [
      | inl known ↦ rw (holds-has_chunk (contains c.ip res) f z c.files_to_chunks, known) h
      | inr new ↦ elim (Bool-cases (holds (contains c.ip res) f z c.files_to_chunks)) [
        | inl push ↦ rw push (AreDistinct-append res c.ip h new)
        | inr pass ↦ rw pass h
      ]
    ])

-- The master names an address for a chunk exactly if some node there has the chunk in the table that
-- it told last, by the look-up that the node itself makes for a download; and it names no address
-- twice.
pub get_location-is_held :
    (f : Bytes) (z : ℤ) (s : TcpStorage)
    → ((ip : Bytes) → contains ip (get_location f z s) ≡ is_held ip f z s.connections)
      × AreDistinct (get_location f z s)
unfolding get_location
get_location-is_held f z s = (
  λ ip. locate-is_held ip f z s.connections [] ∙ unfold contains in refl,
  locate-AreDistinct f z s.connections [] tt,
)
