-- ===== src/State/Print.antt =====
-- storageLayer/state/fileState.c, `print_storage_state`: the text that it prints.
use distributed_file_system.Base.{
  ℕ, zero, suc, ◌+◌, ◌≤◌, ◌≡◌, refl, Option, some, List, [], ◌∷◌, ◌++◌, length, get_elem?,
  get_elem?-total, take, All, arith, Bytes, codes, ◌>>=◌, drop, drop-get_elem?, length-take, map,
}
use distributed_file_system.Base.Int.{ℤ}
use native.Mathlib.Nat.{min-eq_left}
use distributed_file_system.Decimal.{show_nat, show_int}
use distributed_file_system.Proto.{FileMappings}
use distributed_file_system.State.{
  FileStateCurrentInner, StorageStateOuter, mutex_lock, mutex_unlock, mapping_of, catalogue,
  length-catalogue, HasChunks, IsValid,
}

-- The text of one id, `"%d "`.
unfoldable pub print_id : ℤ → Bytes
print_id z = show_int z ++ codes " "

-- The loop over `j`, of which `rounds` rounds are left.
unfoldable pub print_ids : (rounds j : ℕ) → List ℤ → Option Bytes
print_ids zero j ids = some []
print_ids (suc rounds) j ids = do
  z ← get_elem? ids j
  rest ← print_ids rounds (suc j) ids
  some (print_id z ++ rest)

-- The lines of a file before its ids.
unfoldable pub print_header : (i : ℕ) → Bytes → ℕ → Bytes
print_header i path n =
    codes "\nFile "
    ++ show_nat (i + 1)
    ++ codes ":\n  Path: "
    ++ path
    ++ codes "\n  Total chunks: "
    ++ show_nat n
    ++ codes "\n  Chunk IDs: "

unfoldable pub print_file : ℕ → FileStateCurrentInner → Option Bytes
unfolding print_header print_ids
print_file i f = do
  ids ← print_ids f.num_chunks 0 f.chunk_ids
  some (print_header i f.file_path f.num_chunks ++ ids ++ codes "\n")

-- The loop over `i`, of which `rounds` rounds are left.
unfoldable pub print_files : (rounds i : ℕ) → List FileStateCurrentInner → Option Bytes
print_files zero i files = some []
print_files (suc rounds) i files = do
  f ← get_elem? files i
  text ← print_file i f
  rest ← print_files rounds (suc i) files
  some (text ++ rest)

unfoldable pub print_storage_state : StorageStateOuter → Option (Bytes × StorageStateOuter)
unfolding print_files mutex_lock mutex_unlock
print_storage_state s = do
  s ← mutex_lock s
  files ← print_files s.num_file_count 0 s.file_to_chunk_state
  s ← mutex_unlock s
  some (
    codes "\n=== Storage State ===\nTotal files: "
        ++ show_nat s.num_file_count
        ++ codes "\n"
        ++ files
        ++ codes "===================\n\n",
    s,
  )

-- The same text, from the table alone.
unfoldable pub render_ids : List ℤ → Bytes
render_ids [] = []
render_ids (z ∷ ids) = print_id z ++ render_ids ids

unfoldable pub render_files : ℕ → List FileMappings → Bytes
unfolding render_ids
render_files i [] = []
render_files i (m ∷ ms) =
    (print_header i m.filename (length m.chunk_ids) ++ render_ids m.chunk_ids ++ codes "\n")
    ++ render_files (suc i) ms

unfoldable pub render : List FileMappings → Bytes
unfolding render_files
render ms =
    codes "\n=== Storage State ===\nTotal files: "
    ++ show_nat (length ms)
    ++ codes "\n"
    ++ render_files 0 ms
    ++ codes "===================\n\n"

print_ids-render_ids :
    (rounds j : ℕ) (ids : List ℤ)
    → j + rounds ≤ length ids
    → print_ids rounds j ids ≡ some (render_ids (take rounds (drop j ids)))
unfolding print_ids render_ids
print_ids-render_ids zero j ids h = refl
print_ids-render_ids (suc rounds) j ids h =
    let (z, e) = get_elem?-total ids j (omega arith) in
    rw (e, print_ids-render_ids rounds (suc j) ids (omega arith), drop-get_elem? ids j z e) refl

print_file-render :
    (i : ℕ) (f : FileStateCurrentInner) (ms : List FileMappings)
    → HasChunks f
    → (text : Bytes) × (print_file i f ≡ some text)
      × (text ++ render_files (suc i) ms ≡ render_files i (mapping_of f ∷ ms))
unfolding print_file render_files mapping_of
print_file-render i f ms h = (
  print_header i f.file_path f.num_chunks
      ++ render_ids (take f.num_chunks f.chunk_ids)
      ++ codes "\n",
  rw (print_ids-render_ids f.num_chunks 0 f.chunk_ids (omega arith)) refl,
  rw (length-take f.num_chunks f.chunk_ids, min-eq_left h) refl,
)

print_files-render_files :
    (rounds i : ℕ) (files : List FileStateCurrentInner)
    → i + rounds ≤ length files
    → All HasChunks (take rounds (drop i files))
    → print_files rounds i files
      ≡ some (render_files i (map mapping_of (take rounds (drop i files))))
unfolding print_files
print_files-render_files zero i files h v = unfold render_files in refl
print_files-render_files (suc rounds) i files h v =
    let (f, e) = get_elem?-total files i (omega arith) in
    let d = drop-get_elem? files i f e in
    let v' : HasChunks f × All HasChunks (take rounds (drop (suc i) files)) = rw d at v in
    let (text, printed, eq) =
      print_file-render i f (map mapping_of (take rounds (drop (suc i) files))) v'.0 in
    rw (e, printed, print_files-render_files rounds (suc i) files (omega arith) v'.1, d, eq) refl

-- On a valid state the loops read no element out of bounds, the text is the one of the table, and
-- the state, its lock included, is as before.
pub print_storage_state-render :
    (s : StorageStateOuter) → IsValid s → print_storage_state s ≡ some (render (catalogue s), s)
unfolding print_storage_state render catalogue
print_storage_state-render s v = rw (
  length-catalogue s v,
  v.unlocked,
  print_files-render_files s.num_file_count 0 s.file_to_chunk_state (omega arith) v.chunks,
)
