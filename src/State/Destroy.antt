-- ===== src/State/Destroy.antt =====
-- storageLayer/state/fileState.c, `storage_state_destroy`: what it frees.
use distributed_file_system.Base.{
  ℕ, zero, suc, ◌+◌, ◌≤◌, ◌≡◌, refl, true, Option, some, List, [], ◌∷◌, length, take, drop,
  get_elem?, arith, ◌>>=◌, get_elem?-total, drop-get_elem?,
}
use distributed_file_system.State.{
  FileStateCurrentInner, StorageStateOuter, mutex_lock, mutex_unlock, storage_state_init, catalogue,
  IsValid, mutex_lock_lem, mutex_unlock_lem,
}

-- The loop over `i`, of which `rounds` rounds are left: the entries whose path and chunk array are
-- freed, in the order of the frees.
unfoldable pub free_files :
    (rounds i : ℕ) → List FileStateCurrentInner → Option (List FileStateCurrentInner)
free_files zero i files = some []
free_files (suc rounds) i files = do
  f ← get_elem? files i
  rest ← free_files rounds (suc i) files
  some (f ∷ rest)

unfoldable pub storage_state_destroy : StorageStateOuter → Option (List FileStateCurrentInner)
storage_state_destroy s = do
  s ← mutex_lock s
  freed ← free_files s.num_file_count 0 s.file_to_chunk_state
  _ ← mutex_unlock s
  some freed

free_files-take :
    (rounds i : ℕ) (files : List FileStateCurrentInner)
    → i + rounds ≤ length files
    → free_files rounds i files ≡ some (take rounds (drop i files))
unfolding free_files
free_files-take zero i files h = refl
free_files-take (suc rounds) i files h =
    let (f, e) = get_elem?-total files i (omega arith) in
    rw (e, free_files-take rounds (suc i) files (omega arith), drop-get_elem? files i f e) refl

-- On a valid state every entry below the count is freed once, and nothing else.
pub storage_state_destroy-take :
    (s : StorageStateOuter)
    → IsValid s
    → storage_state_destroy s ≡ some (take s.num_file_count s.file_to_chunk_state)
unfolding storage_state_destroy
storage_state_destroy-take s v =
    rw
      (
        mutex_lock_lem s v.unlocked,
        free_files-take s.num_file_count 0 s.file_to_chunk_state (omega (arith, v.allocated)),
        mutex_unlock_lem (record s { lock = true }) refl,
      )
      refl

-- The first state is valid, and its table is empty.
pub storage_state_init-IsValid : IsValid storage_state_init × (catalogue storage_state_init ≡ [])
unfolding storage_state_init catalogue
storage_state_init-IsValid =
    (record { unlocked = refl; allocated = omega arith; chunks = tt }, refl)
