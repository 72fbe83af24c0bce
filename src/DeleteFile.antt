-- ===== src/DeleteFile.antt =====
-- storageLayer/httpServer/deleteFile.c: the removal of a file's directory and of its table entry.
pub mod Removal
pub mod Laws
use distributed_file_system.Base.{
  ℕ, zero, suc, ◌+◌, ◌≡◌, Bool, true, false, Option, none, some, List, [], ◌∷◌, ◌++◌, Bytes, ◌>>=◌,
  if◌then◌else◌,
}
use distributed_file_system.Disk.{Dirent, Disk}
use distributed_file_system.State.Remove.{remove_from_struct}
use distributed_file_system.FileOperation.{Node, snprintf, dir_path, is_listed}

-- 0, -1, or a recursion that was deeper than its bound.
pub data Outcome (S : Type 0) : Type 0 where
  removed : S → Outcome S
  failed : S → Outcome S
  too_deep : Outcome S

-- `char filepath[1024]`, from "%s/%s"
unfoldable pub entry_path : Bytes → Bytes → Bytes
unfolding snprintf
entry_path path name = snprintf 1024 (path ++ b'/' ∷ name)

-- The depth that is enough where no directory has a path of more than 1000 bytes.
abbrev pub max_depth : ℕ
max_depth = 1001

module _ (d : Disk) where
  -- What the loop does with an entry that `lstat` knows, `directory` saying whether it is one.
  unfoldable pub remove_known :
      (Bytes → d.State → Outcome d.State)
      → (filepath : Bytes) → (directory : Bool) → d.State
      → Outcome d.State
  remove_known recurse filepath true s = recurse filepath s
  remove_known recurse filepath false s = elim (d.unlink filepath s) [
    | none ↦ failed s
    | some t ↦ removed t
  ]

  unfoldable pub remove_entry :
      (Bytes → d.State → Outcome d.State) → (path : Bytes) → Dirent → d.State → Outcome d.State
  unfolding remove_known is_listed entry_path
  remove_entry recurse path entry s =
      if is_listed entry.d_name
      then elim (d.lstat (entry_path path entry.d_name) s) [
        | none ↦ failed s
        | some directory ↦ remove_known recurse (entry_path path entry.d_name) directory s
      ]
      else removed s

  -- The `readdir` loop.
  unfoldable pub remove_entries :
      (Bytes → d.State → Outcome d.State) → (path : Bytes) → List Dirent → d.State → Outcome d.State
  unfolding remove_entry
  remove_entries recurse path [] s = removed s
  remove_entries recurse path (entry ∷ rest) s = elim (remove_entry recurse path entry s) [
    | removed t ↦ remove_entries recurse path rest t
    | failed t ↦ failed t
    | too_deep ↦ too_deep
  ]

  unfoldable pub remove_last : (path : Bytes) → Outcome d.State → Outcome d.State
  remove_last path (removed t) = elim (d.rmdir path t) [ none ↦ failed t | some u ↦ removed u ]
  remove_last path (failed t) = failed t
  remove_last path too_deep = too_deep

  -- `depth` bounds the recursion.
  unfoldable pub remove_directory : (depth : ℕ) → Bytes → d.State → Outcome d.State
  unfolding remove_entries remove_last
  remove_directory zero path s = too_deep
  remove_directory (suc depth) path s = elim (d.opendir path s) [
    | none ↦ failed s
    | some entries ↦ remove_last path (remove_entries (remove_directory depth) path entries s)
  ]

  -- `shrunk` says whether the table's array can be shrunk.
  unfoldable pub delete_file : (shrunk : Bool) → Bytes → Node d → Option (Bool × Node d)
  delete_file shrunk filename s = elim (remove_directory max_depth (dir_path filename) s.disk) [
    | removed disk ↦ do
      storage ← remove_from_struct shrunk filename s.storage
      some (true, record { storage = storage; disk = disk })
    | failed disk ↦ some (false, record s { disk = disk })
    | too_deep ↦ none
  ]
