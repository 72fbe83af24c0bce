-- ===== src/GetFileDescriptor/Search.antt =====
-- The look-up of a chunk after an insertion into the table, and after a removal.
use distributed_file_system.Base.{
  ◌≡◌, ◌≢◌, refl, sym, ◌∙◌, ◌⊎◌, inl, inr, Bool, Bool-cases, true, false, ◌||◌, List, [], ◌∷◌, ◌++◌,
  All, Bytes, str_eq, str_eq_refl, str_eq_iff, arith, if◌then◌else◌,
}
use distributed_file_system.Base.Int.{ℤ, int_eq_iff}
use distributed_file_system.Proto.{FileMappings}
use distributed_file_system.State.Insert.{Allocations, add_chunk, add_to_last-append, inserted}
use distributed_file_system.State.Remove.{without_file}
use distributed_file_system.GetFileDescriptor.{has_id, has_chunk}

has_id-last : (z : ℤ) (ids : List ℤ) → has_id z (ids ++ z ∷ []) ≡ true
unfolding has_id
has_id-last z [] = rw ((int_eq_iff z z).1 refl) refl
has_id-last z (y ∷ ids) = rw (has_id-last z ids) (ground arith)

has_chunk-append :
    (f : Bytes) (z : ℤ) (ms ns : List FileMappings)
    → has_chunk f z (ms ++ ns) ≡ (has_chunk f z ms || has_chunk f z ns)
unfolding has_chunk
has_chunk-append f z [] ns = refl
has_chunk-append f z (m ∷ ms) ns = ground (arith, has_chunk-append f z ms ns)

has_chunk-added :
    (f : Bytes) (z : ℤ) (ms : List FileMappings) (m : FileMappings)
    → m.filename ≡ f
    → has_chunk f z (ms ++ add_chunk true z m ∷ []) ≡ true
unfolding add_chunk
has_chunk-added f z ms m named =
    has_chunk-append f z ms (record m { chunk_ids = m.chunk_ids ++ z ∷ [] } ∷ []) ∙ found
  where
    here : has_chunk f z (record m { chunk_ids = m.chunk_ids ++ z ∷ [] } ∷ []) ≡ true
    here = unfold has_chunk in rw (named, str_eq_refl f, has_id-last z m.chunk_ids) refl

    found :
        (has_chunk f z ms || has_chunk f z (record m { chunk_ids = m.chunk_ids ++ z ∷ [] } ∷ []))
        ≡ true
    found = rw here (ground arith)

-- Whether the insertion puts the id under its own name: it makes a new entry, or the last entry
-- has the name.
abbrev pub IsOwn : Bytes → (directory_has_file : Bool) → List FileMappings → Type 0
IsOwn f has ms =
    (has ≡ false)
    ⊎ ((pre : List FileMappings) × (m : FileMappings) × (ms ≡ pre ++ m ∷ []) × (m.filename ≡ f))

-- An id that was inserted under its own name is found under that name.
pub has_chunk-inserted :
    (a : Allocations) (f : Bytes) (z : ℤ) (has : Bool) (ms : List FileMappings)
    → a.chunks ≡ true
    → IsOwn f has ms
    → has_chunk f z (inserted a f z has ms) ≡ true
unfolding inserted
has_chunk-inserted a f z has ms ok (inl new) =
    rw (new, ok) (has_chunk-added f z ms (record { filename = f; chunk_ids = [] }) refl)
has_chunk-inserted a f z false ms ok (inr (pre, m, e, named)) =
    rw ok (has_chunk-added f z ms (record { filename = f; chunk_ids = [] }) refl)
has_chunk-inserted a f z true ms ok (inr (pre, m, e, named)) =
    rw (ok, e, add_to_last-append true z pre m) (has_chunk-added f z pre m named)

-- Where the directory of the file has a chunk and the last entry is of another name, the id goes to
-- that entry, and under its own name it is found only if it was there before.
pub has_chunk-inserted_other :
    (a : Allocations) (f : Bytes) (z : ℤ) (pre : List FileMappings) (m : FileMappings)
    → m.filename ≢ f
    → has_chunk f z (inserted a f z true (pre ++ m ∷ [])) ≡ has_chunk f z (pre ++ m ∷ [])
unfolding inserted
has_chunk-inserted_other a f z pre m other = rw (add_to_last-append a.chunks z pre m) (
    has_chunk-append f z pre (add_chunk a.chunks z m ∷ [])
    ∙ rw (both a.chunks) (sym (has_chunk-append f z pre (m ∷ []))))
  where
    differs : str_eq f m.filename ≡ false
    differs = elim (Bool-cases (str_eq f m.filename)) [
      | inl same ↦ absurd (other (sym ((str_eq_iff f m.filename).0 same)))
      | inr no_match ↦ no_match
    ]

    both : (grown : Bool) → has_chunk f z (add_chunk grown z m ∷ []) ≡ has_chunk f z (m ∷ [])
    both true = unfold has_chunk add_chunk in rw differs refl
    both false = unfold has_chunk add_chunk in refl

-- No two entries of a table have one name.
abbrev pub HasDistinctNames : List FileMappings → Type 0
HasDistinctNames [] = Unit {0}
HasDistinctNames (m ∷ ms) = All (λ n. m.filename ≢ n.filename) ms × HasDistinctNames ms

not_in_others :
    (f : Bytes) (z : ℤ) (ms : List FileMappings)
    → All (λ n. f ≢ n.filename) ms
    → has_chunk f z ms ≡ false
unfolding has_chunk
not_in_others f z [] h = refl
not_in_others f z (m ∷ ms) (hm, h) = ground (arith, not_in_others f z ms h, str_eq_iff f m.filename)

-- With distinct names a removed file has no chunk, and every other chunk stays where it was.
pub has_chunk-without_file :
    (f g : Bytes) (z : ℤ) (ms : List FileMappings)
    → HasDistinctNames ms
    → has_chunk g z (without_file f ms) ≡ (if str_eq f g then false else has_chunk g z ms)
unfolding has_chunk without_file
has_chunk-without_file f g z [] h = ground arith
has_chunk-without_file f g z (m ∷ ms) (hm, h) = elim (Bool-cases (str_eq m.filename f)) [
  | inl hit ↦ rw hit (
      ground (
        arith,
        str_eq_iff m.filename f,
        str_eq_iff f g,
        str_eq_iff g m.filename,
        not_in_others m.filename z ms hm,
      ))
  | inr miss ↦ rw miss (
      ground (
        arith,
        str_eq_iff m.filename f,
        str_eq_iff f g,
        str_eq_iff g m.filename,
        has_chunk-without_file f g z ms h,
      ))
]
