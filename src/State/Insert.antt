-- ===== src/State/Insert.antt =====
-- storageLayer/state/fileState.c, `push_chunk_id` and `insert_to_struct`, with the change of the
-- table that they make.
pub mod Steps
pub mod Laws
use mathlib.Core.List.{map-append}
use distributed_file_system.Base.{
  ℕ, zero, suc, ◌≤◌, ◌≡◌, refl, ap, sym, ◌∙◌, subst, ◌⊎◌, inl, inr, Bool, Bool-cases, true, false,
  ◌&&◌, Option, none, some, List, [], ◌∷◌, ◌++◌, map, length, take, set, get_elem?, All, arith,
  Bytes, ◌>>=◌, if◌then◌else◌, All-append, All-append_left, All-append_right, length-append,
  length-take, length-set, take-all, take-suc, take-set_below, get_elem?-total, get_elem?-set_self,
}
use distributed_file_system.Base.Int.{ℤ}
use distributed_file_system.Proto.{FileMappings}
use distributed_file_system.State.{
  FileStateCurrentInner, StorageStateOuter, mutex_lock, mutex_unlock, mapping_of, catalogue,
  HasChunks, IsValid, length-catalogue, mutex_lock_lem, mutex_unlock_lem,
}
use distributed_file_system.State.Print.{print_storage_state, print_storage_state-render}

-- Which of the allocations of an insertion succeed: the grown table, the copy of the path, the
-- grown chunk array.
pub record Allocations : Type 0 where
  pub files : Bool
  pub path : Bool
  pub chunks : Bool

-- The chunk array, grown to one more element, with the id written at the old count.
unfoldable pub push_chunk_id : Bool → FileStateCurrentInner → ℤ → FileStateCurrentInner
push_chunk_id grown f chunk_id =
    if grown
    then record f {
      chunk_ids = take f.num_chunks f.chunk_ids ++ chunk_id ∷ [];
      num_chunks = suc f.num_chunks;
    }
    else f

-- A new entry at the end. A table that could not be grown is written through NULL; a path that
-- could not be copied is printed as NULL at the end of the call.
unfoldable pub add_file : Allocations → Bytes → StorageStateOuter → Option StorageStateOuter
add_file a file_path s =
    if a.files && a.path
    then some (record s {
      file_to_chunk_state =
          take s.num_file_count s.file_to_chunk_state
          ++ record { file_path = file_path; chunk_ids = []; num_chunks = 0 } ∷ [];
      num_file_count = suc s.num_file_count;
    })
    else none

-- The last entry gets the id. With no entry the index is -1.
unfoldable pub push_to_last : Bool → ℤ → (count : ℕ) → StorageStateOuter → Option StorageStateOuter
unfolding push_chunk_id
push_to_last grown chunk_id zero s = none
push_to_last grown chunk_id (suc i) s = do
  current_file ← get_elem? s.file_to_chunk_state i
  some (record s {
    file_to_chunk_state = set s.file_to_chunk_state i (push_chunk_id grown current_file chunk_id);
  })

unfoldable pub insert_to_struct :
    Allocations
    → Bytes
    → ℤ
    → (directory_has_file : Bool) → StorageStateOuter
    → Option StorageStateOuter
insert_to_struct a file_path chunk_id directory_has_file s = do
  s ← mutex_lock s
  s ← (if directory_has_file then some s else add_file a file_path s)
  s ← push_to_last a.chunks chunk_id s.num_file_count s
  s ← mutex_unlock s
  (_, s) ← print_storage_state s
  some s

-- The same on the table.
unfoldable pub add_chunk : Bool → ℤ → FileMappings → FileMappings
add_chunk grown chunk_id m =
    if grown then record m { chunk_ids = m.chunk_ids ++ chunk_id ∷ [] } else m

unfoldable pub add_to_last : Bool → ℤ → List FileMappings → List FileMappings
add_to_last grown chunk_id [] = []
add_to_last grown chunk_id (m ∷ []) = add_chunk grown chunk_id m ∷ []
add_to_last grown chunk_id (m ∷ n ∷ ms) = m ∷ add_to_last grown chunk_id (n ∷ ms)

unfoldable pub inserted :
    Allocations → Bytes → ℤ → (directory_has_file : Bool) → List FileMappings → List FileMappings
unfolding add_chunk
inserted a file_path chunk_id directory_has_file ms =
    if directory_has_file
    then add_to_last a.chunks chunk_id ms
    else ms ++ add_chunk a.chunks chunk_id (record { filename = file_path; chunk_ids = [] }) ∷ []

-- Whether an insertion has an entry to put the id in.
unfoldable pub accepts : Allocations → (directory_has_file : Bool) → List FileMappings → Bool
accepts a true [] = false
accepts a true (m ∷ ms) = true
accepts a false ms = a.files && a.path

pub add_to_last-append :
    (grown : Bool) (chunk_id : ℤ) (ms : List FileMappings) (m : FileMappings)
    → add_to_last grown chunk_id (ms ++ m ∷ []) ≡ ms ++ add_chunk grown chunk_id m ∷ []
unfolding add_to_last
add_to_last-append grown chunk_id [] m = refl
add_to_last-append grown chunk_id (n ∷ []) m = refl
add_to_last-append grown chunk_id (n ∷ k ∷ ms) m =
    ap (◌∷◌ n) (add_to_last-append grown chunk_id (k ∷ ms) m)
