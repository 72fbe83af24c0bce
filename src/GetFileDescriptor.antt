-- ===== src/GetFileDescriptor.antt =====
-- storageLayer/httpServer/getFileDescriptor.c: the look-up of a chunk in the table, and the
-- descriptor of its file.
pub mod Search
use distributed_file_system.Base.{
  ℕ, zero, suc, ◌+◌, ◌≤◌, ◌<◌, ◌≡◌, refl, ap, sym, ◌∙◌, Bool, Bool-cases, inl, inr, true, false,
  ◌&&◌, ◌||◌, Option, none, some, List, [], ◌∷◌, map, length, take, drop, get_elem?, All, arith,
  Bytes, str_eq, ◌>>=◌, if◌then◌else◌, get_elem?-total, drop-get_elem?,
}
use distributed_file_system.Base.Int.{ℤ, int_eq}
use distributed_file_system.Proto.{FileMappings}
use distributed_file_system.Disk.{Disk}
use distributed_file_system.State.{
  FileStateCurrentInner, StorageStateOuter, mutex_lock, mutex_unlock, mapping_of, catalogue,
  HasChunks, IsValid, mutex_lock_lem, mutex_unlock_lem,
}
use distributed_file_system.FileOperation.{full_path, Node}

-- The loop over `j`, of which `rounds` rounds are left: whether it jumps out.
unfoldable pub find_chunk : (rounds j : ℕ) → List ℤ → ℤ → Option Bool
find_chunk zero j ids chunk_id = some false
find_chunk (suc rounds) j ids chunk_id = do
  id ← get_elem? ids j
  elim (int_eq chunk_id id) [ true ↦ some true | false ↦ find_chunk rounds (suc j) ids chunk_id ]

-- The loop over `i`: an entry of the name that lacks the chunk is passed over.
unfoldable pub find_file : (rounds i : ℕ) → List FileStateCurrentInner → Bytes → ℤ → Option Bool
find_file zero i files filename chunk_id = some false
find_file (suc rounds) i files filename chunk_id = do
  f ← get_elem? files i
  found ←
      (if str_eq filename f.file_path
        then find_chunk f.num_chunks 0 f.chunk_ids chunk_id
        else some false)
  elim found [ true ↦ some true | false ↦ find_file rounds (suc i) files filename chunk_id ]

module _ (d : Disk) where
  -- The descriptor, `none` for -1, and the table with its lock.
  unfoldable pub get_file_descriptor : Bytes → ℤ → Node d → Option (Option d.Fd × StorageStateOuter)
  get_file_descriptor filename chunk_id s = do
    storage ← mutex_lock s.storage
    found ← find_file storage.num_file_count 0 storage.file_to_chunk_state filename chunk_id
    storage' ← mutex_unlock storage
    some (if found then d.open_rdonly (full_path filename chunk_id) s.disk else none, storage')

-- The same on the table: whether some entry of the name has the chunk.
unfoldable pub has_id : ℤ → List ℤ → Bool
has_id chunk_id [] = false
has_id chunk_id (id ∷ ids) = int_eq chunk_id id || has_id chunk_id ids

unfoldable pub has_chunk : Bytes → ℤ → List FileMappings → Bool
unfolding has_id
has_chunk filename chunk_id [] = false
has_chunk filename chunk_id (m ∷ ms) =
    (str_eq filename m.filename && has_id chunk_id m.chunk_ids) || has_chunk filename chunk_id ms

find_chunk-has_id :
    (rounds j : ℕ) (ids : List ℤ) (chunk_id : ℤ)
    → j + rounds ≤ length ids
    → find_chunk rounds j ids chunk_id ≡ some (has_id chunk_id (take rounds (drop j ids)))
unfolding find_chunk has_id
find_chunk-has_id zero j ids chunk_id h = refl
find_chunk-has_id (suc rounds) j ids chunk_id h =
    let (z, e) = get_elem?-total ids j (omega arith) in
    rw (drop-get_elem? ids j z e)
      (ground (arith, e, find_chunk-has_id rounds (suc j) ids chunk_id (omega arith)))

find_file-has_chunk :
    (rounds i : ℕ) (files : List FileStateCurrentInner) (filename : Bytes) (chunk_id : ℤ)
    → i + rounds ≤ length files
    → All HasChunks (take rounds (drop i files))
    → find_file rounds i files filename chunk_id
      ≡ some (has_chunk filename chunk_id (map mapping_of (take rounds (drop i files))))
unfolding find_file has_chunk mapping_of
find_file-has_chunk zero i files filename chunk_id h v = refl
find_file-has_chunk (suc rounds) i files filename chunk_id h v =
    let (f, e) = get_elem?-total files i (omega arith) in
    let eq = drop-get_elem? files i f e in
    let v' : HasChunks f × All HasChunks (take rounds (drop (suc i) files)) = rw eq at v in
    rw eq (
      ground (
        arith,
        e,
        find_chunk-has_id f.num_chunks 0 f.chunk_ids chunk_id (omega (arith, v'.0)),
        find_file-has_chunk rounds (suc i) files filename chunk_id (omega arith) v'.1,
      ))

module _ (d : Disk) where
  -- On a valid table the look-up never faults and leaves the table as it was, its lock included.
  -- The file of the chunk is opened exactly when some entry of the name has the chunk.
  pub get_file_descriptor-has_chunk :
      (filename : Bytes) (chunk_id : ℤ) (s : Node d)
      → IsValid s.storage
      → get_file_descriptor d filename chunk_id s
        ≡ some (
          if has_chunk filename chunk_id (catalogue s.storage)
              then d.open_rdonly (full_path filename chunk_id) s.disk
              else none,
          s.storage,
        )
  unfolding get_file_descriptor catalogue
  get_file_descriptor-has_chunk filename chunk_id s v =
      rw
        (
          mutex_lock_lem s.storage v.unlocked,
          find_file-has_chunk s.storage.num_file_count 0 s.storage.file_to_chunk_state filename
              chunk_id (omega (arith, v.allocated)) v.chunks,
          mutex_unlock_lem (record s.storage { lock = true }) refl,
        )
        (ap
          (λ b. some (
            if has_chunk filename chunk_id (catalogue s.storage)
                then d.open_rdonly (full_path filename chunk_id) s.disk
                else none,
            record s.storage { lock = b },
          ))
          (sym v.unlocked))
