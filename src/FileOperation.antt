-- ===== src/FileOperation.antt =====
-- storageLayer/state/fileOperation.c: the chunk files under data/.
pub mod Paths
pub mod Save
pub mod Next
pub mod Retry
use mathlib.Core.List.{reverse}
use distributed_file_system.Base.{
  ℕ, zero, suc, ◌+◌, ◌-◌, ltb, Bool, true, false, ◌&&◌, ◌||◌, not, Option, none, some, List, [],
  ◌∷◌, ◌++◌, take, length, Bytes, codes, str_eq, ◌>>=◌, ◌==◌, if◌then◌else◌,
}
use distributed_file_system.Base.Int.{ℤ, pos, negsuc, int_ltb, two31}
use distributed_file_system.Decimal.{show_int, atoi}
use distributed_file_system.Disk.{Dirent, Disk}
use distributed_file_system.State.{StorageStateOuter}
use distributed_file_system.State.Insert.{Allocations, insert_to_struct}

-- `snprintf` into a buffer of `size` bytes keeps one byte for the NUL.
unfoldable pub snprintf : (size : ℕ) → Bytes → Bytes
snprintf size text = take (size - 1) text

-- `char full_path[512]`, from "data/%s/%d"
unfoldable pub full_path : Bytes → ℤ → Bytes
unfolding snprintf
full_path filename chunk_id = snprintf 512 (codes "data/" ++ filename ++ b'/' ∷ show_int chunk_id)

-- `char dir_path[512]`, from "data/%s"
unfoldable pub dir_path : Bytes → Bytes
unfolding snprintf
dir_path filename = snprintf 512 (codes "data/" ++ filename)

-- `strrchr(s, '/')`: what stands before the last slash, `none` for NULL.
unfoldable pub before_last_slash : Bytes → Option Bytes
before_last_slash [] = none
before_last_slash (c ∷ s) = elim (before_last_slash s) [
  | some t ↦ some (c ∷ t)
  | none ↦ if c == b'/' then some [] else none
]

-- Whether a name is neither "." nor "..".
unfoldable pub is_listed : Bytes → Bool
is_listed name = not (str_eq name (codes ".")) && not (str_eq name (codes ".."))

-- The `readdir` loop of `directory_has_files`.
unfoldable pub has_regular : List Dirent → Bool
unfolding is_listed
has_regular [] = false
has_regular (entry ∷ rest) = elim (is_listed entry.d_name && entry.is_reg) [
  | true ↦ true
  | false ↦ has_regular rest
]

-- The `readdir` loop of `get_next_chunk_number`.
unfoldable pub max_number : ℤ → List Dirent → ℤ
unfolding is_listed atoi int_ltb
max_number max [] = max
max_number max (entry ∷ rest) =
    max_number
      (if is_listed entry.d_name
        then (if int_ltb max (atoi entry.d_name) then atoi entry.d_name else max)
        else max)
      rest

-- `n + 1` on `int`, `none` where it overflows.
unfoldable pub increment : ℤ → Option ℤ
increment (pos n) = if ltb (n + 1) two31 then some (pos (n + 1)) else none
increment (negsuc zero) = some (pos 0)
increment (negsuc (suc n)) = some (negsuc n)

module _ (d : Disk) where
  -- The loop over `p`: `done` stands before `p`, in reverse, and the rest of `temp` follows. At a
  -- slash the text before it is a directory to make.
  unfoldable pub make_parents : (done rest : Bytes) → d.State → d.State
  make_parents done [] s = s
  make_parents done (c ∷ rest) s =
      make_parents (c ∷ done) rest (if c == b'/' then d.mkdir (reverse done) s else s)

  -- `temp` with the part behind its last slash cut off. The loop starts at its second byte.
  unfoldable pub make_directories : (temp : Bytes) → d.State → d.State
  unfolding make_parents
  make_directories [] s = d.mkdir [] s
  make_directories (c ∷ temp) s = d.mkdir (c ∷ temp) (make_parents (c ∷ []) temp s)

  -- `char temp[512]`
  unfoldable pub create_directories : Bytes → d.State → Bool × d.State
  unfolding make_directories before_last_slash
  create_directories path s = elim (before_last_slash (take 511 path)) [
    | none ↦ (true, s)
    | some temp ↦ (true, make_directories temp s)
  ]

  unfoldable pub file_exists : Bytes → d.State → Bool
  file_exists filepath s = d.access filepath s

  unfoldable pub directory_has_files : Bytes → d.State → Bool
  unfolding has_regular
  directory_has_files dirpath s = elim (d.opendir dirpath s) [
    | none ↦ false
    | some entries ↦ has_regular entries
  ]

  unfoldable pub get_next_chunk_number : Bytes → d.State → Option ℤ
  unfolding dir_path max_number increment
  get_next_chunk_number directory s = elim (d.opendir (dir_path directory) s) [
    | none ↦ some (pos 1)
    | some entries ↦ increment (max_number (pos 0) entries)
  ]

  -- The state of a storage node: its table and its disk.
  pub record Node : Type 0 where
    pub storage : StorageStateOuter
    pub disk : d.State

  -- The write and what follows it. The file was opened for appending. The result of `fclose`, which
  -- comes after the insertion, is not looked at.
  unfoldable pub write_chunk :
      Allocations
      → (path filename : Bytes) → ℤ
      → (directory_has_file : Bool) → Bytes
      → Node
      → Option (Bool × Node)
  write_chunk a path filename chunk_id directory_has_file bytes s =
      let (written, buffered) = d.fwrite path bytes s.disk in
      if written == length bytes
      then (insert_to_struct a filename chunk_id directory_has_file s.storage >>= (λ storage.
          some (true, record { storage = storage; disk = (d.fclose path buffered).1 })))
      else some (false, record s { disk = (d.fclose path buffered).1 })

  unfoldable pub save_new_chunk :
      Allocations
      → (path filename : Bytes) → ℤ
      → (directory_has_file : Bool) → Bytes
      → Node
      → Option (Bool × Node)
  save_new_chunk a path filename chunk_id directory_has_file bytes s =
      let (created, disk) = create_directories path s.disk in
      if created
      then elim (d.fopen path disk) [
        | none ↦ some (false, record s { disk = disk })
        | some disk' ↦
            write_chunk a path filename chunk_id directory_has_file bytes
              (record s { disk = disk' })
      ]
      else some (false, record s { disk = disk })

  -- `none` for `filename` or `bytes` is NULL; `bytes` holds as many bytes as the size says. A fault
  -- is `none`, else the result and the new state.
  unfoldable pub save_chunk_to_file :
      Allocations → (filename bytes : Option Bytes) → (chunk_id : ℤ) → Node → Option (Bool × Node)
  save_chunk_to_file a none bytes chunk_id s = some (false, s)
  save_chunk_to_file a (some filename) none chunk_id s = some (false, s)
  save_chunk_to_file a (some filename) (some []) chunk_id s = some (false, s)
  save_chunk_to_file a (some filename) (some (b ∷ bytes)) chunk_id s =
      let path = full_path filename chunk_id in
      let directory_has_file = directory_has_files (dir_path filename) s.disk in
      if file_exists path s.disk
      then some (true, s)
      else save_new_chunk a path filename chunk_id directory_has_file (b ∷ bytes) s
