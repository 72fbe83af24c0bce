-- ===== src/State/Remove.antt =====
-- storageLayer/state/fileState.c, `remove_from_struct`, with the change of the table that it makes.
pub mod Shift
pub mod Laws
use Prim.Native.Nat.add
use distributed_file_system.Base.{
  ℕ, zero, suc, ◌+◌, ◌-◌, ◌≤◌, ◌<◌, ◌≡◌, refl, ap, sym, ◌∙◌, subst, ◌⊎◌, inl, inr, Bool, Bool-cases,
  Option-cases, true, false, Option, none, some, List, [], ◌∷◌, map, length, take, drop, set,
  get_elem?, All, arith, Bytes, str_eq, ◌>>=◌, if◌then◌else◌, length-take, get_elem?-total,
  drop-get_elem?, take-all,
}
use distributed_file_system.Proto.{FileMappings}
use distributed_file_system.State.{
  FileStateCurrentInner, StorageStateOuter, mutex_lock, mutex_unlock, mapping_of, catalogue,
  HasChunks, IsValid, mutex_lock_lem, mutex_unlock_lem,
}
use distributed_file_system.State.Print.{print_storage_state, print_storage_state-render}

-- The index of the first entry with the path, `none` for the code's -1. `rounds` rounds of the
-- loop over `i` are left.
unfoldable pub find_index : (rounds i : ℕ) → List FileStateCurrentInner → Bytes → Option (Option ℕ)
find_index zero i files file_path = some none
find_index (suc rounds) i files file_path = do
  f ← get_elem? files i
  elim (str_eq f.file_path file_path) [
    | true ↦ some (some i)
    | false ↦ find_index rounds (suc i) files file_path
  ]

-- `files[i] = files[i + 1]`, for the `rounds` indices from `i` on.
unfoldable pub shift_down :
    (rounds i : ℕ) → List FileStateCurrentInner → Option (List FileStateCurrentInner)
shift_down zero i files = some files
shift_down (suc rounds) i files = do
  f ← get_elem? files (suc i)
  shift_down rounds (suc i) (set files i f)

-- The end of the call, with the table shifted and its count lowered to `count`. The bool is whether
-- the shorter array could be allocated; where it could not, the old one stays and nothing is
-- printed.
unfoldable pub shrink : Bool → (count : ℕ) → StorageStateOuter → Option StorageStateOuter
shrink shrunk zero s = do
  s ← mutex_unlock (record s { file_to_chunk_state = [] })
  (_, s) ← print_storage_state s
  some s
shrink false (suc count) s = mutex_unlock s
shrink true (suc count) s = do
  s ← mutex_unlock (record s { file_to_chunk_state = take (suc count) s.file_to_chunk_state })
  (_, s) ← print_storage_state s
  some s

unfoldable pub remove_at : Bool → ℕ → StorageStateOuter → Option StorageStateOuter
remove_at shrunk index s = do
  files ← shift_down (s.num_file_count - 1 - index) index s.file_to_chunk_state
  let count = s.num_file_count - 1
  shrink shrunk count (record s { file_to_chunk_state = files; num_file_count = count })

unfoldable pub remove_from_struct : Bool → Bytes → StorageStateOuter → Option StorageStateOuter
remove_from_struct shrunk file_path s = do
  s ← mutex_lock s
  found ← find_index s.num_file_count 0 s.file_to_chunk_state file_path
  elim found [ none ↦ mutex_unlock s | some index ↦ remove_at shrunk index s ]

-- The same on the table: the first entry of the path is taken out.
unfoldable pub without_file : Bytes → List FileMappings → List FileMappings
without_file path [] = []
without_file path (m ∷ ms) = if str_eq m.filename path then ms else m ∷ without_file path ms
