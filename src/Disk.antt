-- ===== src/Disk.antt =====
-- The file system as the program calls it: access, opendir and readdir, lstat, unlink, rmdir,
-- mkdir, fopen with fwrite and fclose, open with fstat, and what libmicrohttpd sends from a descriptor. All of
-- it is a parameter; `IsPosix` states the documented behaviour that the theorems use.
pub mod Memory
use distributed_file_system.Base.{
  ℕ, ◌≤◌, ◌<◌, ◌≡◌, ◌≢◌, ◌⊎◌, Bool, true, false, Option, none, some, List, [], ◌∷◌, ◌++◌, Bytes,
  length, take, NoSlash,
}

-- A `struct dirent`: the name, and whether `d_type` is DT_REG.
pub record Dirent : Type 0 where
  pub d_name : Bytes
  pub is_reg : Bool

pub record Disk : Type 1 where
  -- What is stored.
  pub State : Type 0
  -- A descriptor that `open` has returned, never -1.
  pub Fd : Type 0
  -- `access(path, F_OK) == 0`
  pub access : Bytes → State → Bool
  -- `opendir`, and what `readdir` then returns up to NULL; `none` for NULL.
  pub opendir : Bytes → State → Option (List Dirent)
  -- `S_ISDIR` of the mode that `lstat` gives; `none` for -1.
  pub lstat : Bytes → State → Option Bool
  -- `none` for -1, with nothing changed.
  pub unlink : Bytes → State → Option State
  pub rmdir : Bytes → State → Option State
  -- `mkdir(path, 0755)`; the program does not look at its result.
  pub mkdir : Bytes → State → State
  -- `fopen(path, "ab")`; `none` for NULL.
  pub fopen : Bytes → State → Option State
  -- `fwrite` to the stream of a path, which has a buffer: the number of bytes taken.
  pub fwrite : (path bytes : Bytes) → State → ℕ × State
  -- `fclose` of that stream, which writes out the buffer; false for EOF.
  pub fclose : (path : Bytes) → State → Bool × State
  -- `open(path, O_RDONLY)`; `none` for -1.
  pub open_rdonly : Bytes → State → Option Fd
  -- `st_size` of `fstat`; `none` if it fails.
  pub fstat : Fd → State → Option ℕ
  -- The first bytes that are read from a descriptor.
  pub read_fd : Fd → ℕ → State → Bytes
  -- Not called by the program: the content of the regular file of a path.
  pub content : Bytes → State → Option Bytes
  -- Not called by the program: what a file is, the one that a path names, if any, and what is in
  -- it. Many texts name one file, as "a/b", "a//b" and "a/c/../b" do.
  pub File : Type 0
  pub file_at : Bytes → State → Option File
  pub stored : File → State → Option Bytes

abbrev pub IsIn : Dirent → List Dirent → Type 0
IsIn entry [] = ⊥
IsIn entry (e ∷ es) = (entry ≡ e) ⊎ IsIn entry es

-- An entry of a directory.
abbrev pub IsEntry : (d : Disk) → Bytes → Dirent → d.State → Type 0
IsEntry d p entry s = (es : List Dirent) × (d.opendir p s ≡ some es) × IsIn entry es

-- Everything that is there in `t` is there in `s`.
pub record Shrinks (d : Disk) (s t : d.State) : Type 0 where
  pub directories : (q : Bytes) → d.lstat q t ≡ some true → d.lstat q s ≡ some true
  pub files : (q : Bytes) (f : d.File) → d.file_at q t ≡ some f → d.file_at q s ≡ some f
  pub entries : (q : Bytes) (entry : Dirent) → IsEntry d q entry t → IsEntry d q entry s

-- The documented behaviour that the program relies on.
pub record IsPosix (d : Disk) : Type 0 where
  -- A file with a content is there.
  pub access-content :
      (p : Bytes) (s : d.State) (c : Bytes) → d.content p s ≡ some c → d.access p s ≡ true
  -- Opening a file that is not there makes it empty.
  pub content-fopen_new :
      (p : Bytes) (s t : d.State)
      → d.fopen p s ≡ some t
      → d.access p s ≡ false
      → d.content p t ≡ some []
  -- A write to a stream that was opened for appending leaves a first part of its bytes behind the
  -- file once the stream is closed, and all of them if neither call fails.
  pub content-written :
      (p b c : Bytes) (r s t u : d.State)
      → d.fopen p r ≡ some s
      → d.content p s ≡ some c
      → d.fwrite p b s ≡ (length b, t)
      → d.fclose p t ≡ (true, u)
      → d.content p u ≡ some (c ++ b)
  pub content-written_part :
      (p b c : Bytes) (r s : d.State)
      → d.fopen p r ≡ some s
      → d.content p s ≡ some c
      → (k : ℕ) × (d.content p (d.fclose p (d.fwrite p b s).1).1 ≡ some (c ++ take k b))
  -- A descriptor of a file gives its size and its content.
  pub fstat-open :
      (p c : Bytes) (s : d.State) (fd : d.Fd)
      → d.content p s ≡ some c
      → d.open_rdonly p s ≡ some fd
      → d.fstat fd s ≡ some (length c)
  pub read-open :
      (p c : Bytes) (s : d.State) (fd : d.Fd)
      → d.content p s ≡ some c
      → d.open_rdonly p s ≡ some fd
      → d.read_fd fd (length c) s ≡ c
  -- Removing a name changes no other file, and removing a directory none.
  pub stored-unlink :
      (p : Bytes) (f : d.File) (s t : d.State)
      → d.unlink p s ≡ some t
      → d.file_at p s ≢ some f
      → d.stored f t ≡ d.stored f s
  pub stored-rmdir :
      (p : Bytes) (f : d.File) (s t : d.State) → d.rmdir p s ≡ some t → d.stored f t ≡ d.stored f s
  -- Only an empty directory is removed.
  pub rmdir_empty :
      (p q : Bytes) (s t : d.State)
      → d.rmdir p s ≡ some t
      → NoSlash q
      → d.content (p ++ b'/' ∷ q) t ≡ none
  -- What is there after a removal was there before it: directories, what the names name, and the
  -- entries of directories.
  pub shrinks-unlink : (p : Bytes) (s t : d.State) → d.unlink p s ≡ some t → Shrinks d s t
  pub shrinks-rmdir : (p : Bytes) (s t : d.State) → d.rmdir p s ≡ some t → Shrinks d s t
