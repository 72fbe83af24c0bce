-- ===== src/Main/Held.antt =====
-- storageLayer/main.c: what the mappings of a health message point to, while the HTTP handler is
-- called. As long as no call harms them, the table begins with the files that they were made of.
use distributed_file_system.Base.{
  ℕ, zero, suc, ◌≤◌, ◌≡◌, refl, ap, sym, ◌∙◌, subst, inl, inr, Bool, true, false, Option, some,
  List, [], ◌∷◌, ◌++◌, append_assoc, append-nil, length, arith, Bytes, ltb,
}
use distributed_file_system.Base.Int.{ℤ}
use distributed_file_system.Proto.{FileMappings}
use distributed_file_system.State.{StorageStateOuter, IsValid, catalogue, length-catalogue}
use distributed_file_system.State.Insert.{Allocations, add_chunk, add_to_last, inserted}
use distributed_file_system.State.Remove.{without_file}
use distributed_file_system.State.Remove.Shift.{remove_nth, length-remove_nth}
use distributed_file_system.State.Remove.Laws.{find_index-nth}
use distributed_file_system.HttpMain.Invariant.{Changed}
use distributed_file_system.Main.{frees, harms}

-- The table begins with the mapped files: the same names, and the ids that were copied with ids
-- that came since behind them.
abbrev pub IsHeld : (mapped table : List FileMappings) → Type 0
IsHeld [] table = Unit {0}
IsHeld (m ∷ mapped) [] = ⊥
IsHeld (m ∷ mapped) (c ∷ table) =
    (m.filename ≡ c.filename)
    × ((more : List ℤ) × (c.chunk_ids ≡ m.chunk_ids ++ more))
    × IsHeld mapped table

pub IsHeld-refl : (ms : List FileMappings) → IsHeld ms ms
IsHeld-refl [] = tt
IsHeld-refl (m ∷ ms) = (refl, ([], sym (append-nil m.chunk_ids)), IsHeld-refl ms)

pub length-IsHeld : (ms cs : List FileMappings) → IsHeld ms cs → length ms ≤ length cs
length-IsHeld [] cs h = omega arith
length-IsHeld (m ∷ ms) [] h = absurd h
length-IsHeld (m ∷ ms) (c ∷ cs) h = omega (arith, length-IsHeld ms cs h.2)

IsHeld-append : (ms cs ds : List FileMappings) → IsHeld ms cs → IsHeld ms (cs ++ ds)
IsHeld-append [] cs ds h = tt
IsHeld-append (m ∷ ms) [] ds h = absurd h
IsHeld-append (m ∷ ms) (c ∷ cs) ds h = (h.0, h.1, IsHeld-append ms cs ds h.2)

add_chunk-more :
    (grown : Bool) (z : ℤ) (ids more : List ℤ) (c : FileMappings)
    → c.chunk_ids ≡ ids ++ more
    → (more' : List ℤ) × ((add_chunk grown z c).chunk_ids ≡ ids ++ more')
unfolding add_chunk
add_chunk-more false z ids more c e = (more, e)
add_chunk-more true z ids more c e =
    (more ++ z ∷ [], ap (λ l. l ++ z ∷ []) e ∙ append_assoc ids more (z ∷ []))

filename-add_chunk :
    (grown : Bool) (z : ℤ) (c : FileMappings) → c.filename ≡ (add_chunk grown z c).filename
unfolding add_chunk
filename-add_chunk false z c = refl
filename-add_chunk true z c = refl

IsHeld-add_to_last :
    (grown : Bool) (z : ℤ) (ms cs : List FileMappings)
    → IsHeld ms cs
    → IsHeld ms (add_to_last grown z cs)
unfolding add_to_last
IsHeld-add_to_last grown z [] cs h = tt
IsHeld-add_to_last grown z (m ∷ ms) [] h = absurd h
IsHeld-add_to_last grown z (m ∷ []) (c ∷ []) h =
    (h.0 ∙ filename-add_chunk grown z c, add_chunk-more grown z m.chunk_ids h.1.0 c h.1.1, tt)
IsHeld-add_to_last grown z (m ∷ n ∷ ms) (c ∷ []) h = absurd h.2
IsHeld-add_to_last grown z (m ∷ ms) (c ∷ k ∷ cs) h =
    (h.0, h.1, IsHeld-add_to_last grown z ms (k ∷ cs) h.2)

IsHeld-inserted :
    (a : Allocations) (f : Bytes) (z : ℤ) (has : Bool) (ms cs : List FileMappings)
    → IsHeld ms cs
    → IsHeld ms (inserted a f z has cs)
unfolding inserted
IsHeld-inserted a f z true ms cs h = IsHeld-add_to_last a.chunks z ms cs h
IsHeld-inserted a f z false ms cs h = IsHeld-append ms cs _ h

IsHeld-remove_nth :
    (k : ℕ) (ms cs : List FileMappings) → IsHeld ms cs → length ms ≤ k → IsHeld ms (remove_nth k cs)
unfolding remove_nth
IsHeld-remove_nth k [] cs h far = tt
IsHeld-remove_nth k (m ∷ ms) [] h far = absurd h
IsHeld-remove_nth zero (m ∷ ms) (c ∷ cs) h far = absurd (omega arith)
IsHeld-remove_nth (suc k) (m ∷ ms) (c ∷ cs) h far =
    (h.0, h.1, IsHeld-remove_nth k ms cs h.2 (omega arith))

module _ (moved : Bool) (t before after : StorageStateOuter) (valid : IsValid t)
    (v : IsValid before) (w : IsValid after) (h : IsHeld (catalogue t) (catalogue before)) where
  removal-IsHeld :
      (f : Bytes)
      → catalogue after ≡ without_file f (catalogue before)
      → harms moved t.num_file_count before after (some f) ≡ false
      → IsHeld (catalogue t) (catalogue after)
  unfolding harms frees
  removal-IsHeld f e safe = elim (find_index-nth f before v) [
    | inl missing ↦ subst (IsHeld (catalogue t)) (sym (e ∙ missing)) h
    | inr (k, found, below, eq) ↦
        let len = length-remove_nth k (catalogue before) (rw (length-catalogue before v) below) in
        let fewer : ltb after.num_file_count before.num_file_count ≡ true =
          ground
            (arith, len, ap length (e ∙ eq), length-catalogue before v, length-catalogue after w) in
        let far : ltb k t.num_file_count ≡ false = rw (fewer, frees, found) at safe in
        subst (IsHeld (catalogue t)) (sym (e ∙ eq)) (
          IsHeld-remove_nth k (catalogue t) (catalogue before) h
            (ground (arith, far, length-catalogue t valid)))
  ]

  -- A call that does not harm the mappings leaves what they point to.
  pub harms-IsHeld :
      (x_filename : Option Bytes)
      → Changed x_filename before after
      → harms moved t.num_file_count before after x_filename ≡ false
      → IsHeld (catalogue t) (catalogue after)
  harms-IsHeld x_filename c safe = elim c.change [
    | inl same ↦ subst (λ s. IsHeld (catalogue t) (catalogue s)) (sym same) h
    | inr (inl (a, f, z, has, e)) ↦
        subst (IsHeld (catalogue t)) (sym e)
          (IsHeld-inserted a f z has (catalogue t) (catalogue before) h)
    | inr (inr (f, named, e)) ↦
        removal-IsHeld f e
          (subst (λ n. harms moved t.num_file_count before after n ≡ false) named safe)
  ]
