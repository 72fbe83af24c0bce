-- ===== src/State.antt =====
-- storageLayer/headers/fileState.h and storageLayer/state/fileState.c: the table of files and
-- chunks that a storage node keeps in memory. An array is a list of at least as many elements as
-- its count says; an access outside it, a NULL that is written through or printed, and a lock that
-- its own thread holds already are faults, `none`.
pub mod Print
pub mod Insert
pub mod Remove
pub mod Encode
pub mod Destroy
use distributed_file_system.Base.{
  ℕ, zero, suc, ◌≤◌, ◌≡◌, ap, Bool, true, false, Option, none, some, List, [], ◌∷◌, ◌++◌, map,
  length, take, All, Bytes, if◌then◌else◌, length-map, length-take, arith, min,
}
use distributed_file_system.Base.Int.{ℤ}
use distributed_file_system.Proto.{FileMappings}

pub record FileStateCurrentInner : Type 0 where
  pub file_path : Bytes
  pub chunk_ids : List ℤ
  pub num_chunks : ℕ

-- `lock` says whether the mutex is held.
pub record StorageStateOuter : Type 0 where
  pub file_to_chunk_state : List FileStateCurrentInner
  pub num_file_count : ℕ
  pub lock : Bool

-- `pthread_mutex_lock` on a mutex that the caller holds would wait for ever.
unfoldable pub mutex_lock : StorageStateOuter → Option StorageStateOuter
mutex_lock s = if s.lock then none else some (record s { lock = true })

unfoldable pub mutex_unlock : StorageStateOuter → Option StorageStateOuter
mutex_unlock s = if s.lock then some (record s { lock = false }) else none

pub mutex_lock_lem :
    (s : StorageStateOuter) → s.lock ≡ false → mutex_lock s ≡ some (record s { lock = true })
unfolding mutex_lock
mutex_lock_lem s l = ap (λ b. if b then none else some (record s { lock = true })) l

pub mutex_unlock_lem :
    (s : StorageStateOuter) → s.lock ≡ true → mutex_unlock s ≡ some (record s { lock = false })
unfolding mutex_unlock
mutex_unlock_lem s l = ap (λ b. if b then some (record s { lock = false }) else none) l

unfoldable pub storage_state_init : StorageStateOuter
storage_state_init = record { file_to_chunk_state = []; num_file_count = 0; lock = false }

-- The entry of the health message that a struct stands for.
unfoldable pub mapping_of : FileStateCurrentInner → FileMappings
mapping_of f = record { filename = f.file_path; chunk_ids = take f.num_chunks f.chunk_ids }

-- The table that a state stands for: what the counts let the code see.
unfoldable pub catalogue : StorageStateOuter → List FileMappings
unfolding mapping_of
catalogue s = map mapping_of (take s.num_file_count s.file_to_chunk_state)

-- The chunk array of a file is as long as its count.
abbrev pub HasChunks : FileStateCurrentInner → Type 0
HasChunks f = f.num_chunks ≤ length f.chunk_ids

-- Between two calls nobody holds the lock, and every count is within its array.
pub record IsValid (s : StorageStateOuter) : Type 0 where
  pub unlocked : s.lock ≡ false
  pub allocated : s.num_file_count ≤ length s.file_to_chunk_state
  pub chunks : All HasChunks (take s.num_file_count s.file_to_chunk_state)

pub length-catalogue : (s : StorageStateOuter) → IsValid s → length (catalogue s) ≡ s.num_file_count
unfolding catalogue
length-catalogue s v =
    rw (length-map (take s.num_file_count s.file_to_chunk_state) mapping_of)
      (omega (arith, length-take s.num_file_count s.file_to_chunk_state))
