-- ===== src/Tests/Chunks.antt =====
-- Chunk files, directories and their removal, on concrete disks.
use distributed_file_system.Base.{
  ℕ, zero, suc, ◌≤◌, ◌≡◌, refl, ◌≢◌, ◌⊎◌, true, false, none, some, [], ◌∷◌, All, take, ◌++◌, ap,
  sym, ◌∙◌, append_assoc, arith, Bytes, codes, str_eq, str_eq_iff, length,
}
use distributed_file_system.Base.Int.{ℤ, pos, int_ltb}
use distributed_file_system.Decimal.{show_int, show_nat, emit, atoi}
use distributed_file_system.Disk.{Disk}
use distributed_file_system.Disk.Memory.{
  memory_of, memory_of-IsPosix, memory, memory-IsPosix, Files, lookup, children,
}
use distributed_file_system.FileOperation.{
  Node, full_path, dir_path, file_exists, create_directories, save_chunk_to_file,
  get_next_chunk_number, max_number, is_listed, snprintf, make_directories, make_parents,
  before_last_slash,
}
use distributed_file_system.FileOperation.Next.{get_next_chunk_number_fresh}
use distributed_file_system.FileOperation.Retry.{save_chunk_to_file_retried}
use distributed_file_system.FileOperation.Paths.{Fits, full_path-injective, full_path_truncated}
use distributed_file_system.FileOperation.Save.{appears}
use distributed_file_system.DeleteFile.{entry_path, remove_directory, max_depth}
use distributed_file_system.DeleteFile.Removal.{
  Ends, IsApart, IsReached-extends, entry_path_extends, IsReached, at_root, below, IsShallow, Keeps,
  remove_directory-Ends,
}
use distributed_file_system.Tests.{name_a, name_b, allocations, table_a, disk_a, disk_ab}

paths-Fits : Fits name_a (pos 12) × Fits name_b (pos 1)
unfolding show_int show_nat emit
paths-Fits = (omega arith, omega arith)

full_path-injective_example : (name_a ≡ name_a) × (pos 12 ≡ pos 12)
full_path-injective_example =
    full_path-injective name_a name_a (pos 12) (pos 12) paths-Fits.0 paths-Fits.0 (omega arith)
      (omega arith) refl

-- A name of 506 bytes.
abbrev repeated : ℕ → Bytes
repeated zero = []
repeated (suc n) = b'x' ∷ repeated n

full_path_truncated_example : full_path (repeated 506) (pos 1) ≡ full_path (repeated 506) (pos 2)
full_path_truncated_example = full_path_truncated (repeated 506) (pos 1) (pos 2) (omega arith)

-- A disk of short paths.
AreShort : Files → Type 0
AreShort [] = Unit {0}
AreShort ((p, held) ∷ s) = (length p ≤ 1000) × AreShort s

lstat_short : (s : Files) (p : Bytes) → AreShort s → memory.lstat p s ≡ some true → length p ≤ 1000
unfolding AreShort lookup
lstat_short [] p h found = absurd cc
lstat_short ((q, held) ∷ s) p (hq, h) found = ground (arith, str_eq_iff p q, lstat_short s p h)

AreShort-IsShallow :
    (root : Bytes) (s : Files)
    → length root ≤ 1000
    → AreShort s
    → (p : Bytes) → IsReached memory root s p
    → length p ≤ 1000
AreShort-IsShallow root s short h p at_root = short
AreShort-IsShallow root s short h p (below path entry reached is_entry listed found) =
    lstat_short s (entry_path path entry.d_name) h found

disk_ab-AreShort : AreShort disk_ab
unfolding AreShort
disk_ab-AreShort = (omega arith, (omega arith, (omega arith, (omega arith, (omega arith, tt)))))

path_a_short : length (dir_path name_a) ≤ 1000
unfolding dir_path snprintf
path_a_short = omega arith

pub disk_ab-IsShallow : IsShallow memory (dir_path name_a) disk_ab
disk_ab-IsShallow = AreShort-IsShallow (dir_path name_a) disk_ab path_a_short disk_ab-AreShort

remove_directory-Ends_example :
    Ends
      (Keeps memory (codes "data/a") disk_ab)
      (remove_directory memory max_depth (codes "data/a") disk_ab)
remove_directory-Ends_example =
    remove_directory-Ends memory memory-IsPosix max_depth (codes "data/a") disk_ab (omega arith)
      (AreShort-IsShallow (codes "data/a") disk_ab (omega arith) disk_ab-AreShort)

file_at-same : (q f : Bytes) (s : Files) → memory.file_at q s ≡ some f → q ≡ f
file_at-same q f s e = ground arith

-- The chunk of `b` is apart from the directory of `a`, and stays when that is removed.
chunk_b-IsApart : IsApart memory (codes "data/a") disk_ab (codes "data/b/1")
chunk_b-IsApart p entry reached is_entry listed e =
    let shallow = AreShort-IsShallow (codes "data/a") disk_ab (omega arith) disk_ab-AreShort in
    let (r, extends) = IsReached-extends memory (codes "data/a") disk_ab shallow p reached in
    let (r', extends') = entry_path_extends p entry.d_name (shallow p reached) in
    let same : codes "data/a" ++ (r ++ b'/' ∷ r') ≡ codes "data/b/1" =
      sym (append_assoc (codes "data/a") r (b'/' ∷ r'))
      ∙ ap (λ q. q ++ b'/' ∷ r') (sym extends)
      ∙ sym extends'
      ∙ file_at-same (entry_path p entry.d_name) (codes "data/b/1") disk_ab e in
    ground (arith, same)

chunk_b_stays :
    (t : Files)
    → Keeps memory (codes "data/a") disk_ab t
    → memory.content (codes "data/b/1") t ≡ some (codes "uv")
unfolding lookup str_eq
chunk_b_stays t k = k.apart (codes "data/b/1") chunk_b-IsApart

opened_b : memory.opendir (dir_path name_b) disk_ab ≡ some (children (codes "data/b") disk_ab)
unfolding dir_path snprintf lookup str_eq
opened_b = refl

get_next_chunk_number_fresh_example :
    ((get_next_chunk_number memory name_b disk_ab ≡ none)
      × (max_number (pos 0) (children (codes "data/b") disk_ab) ≡ pos 2147483647))
    ⊎ ((n : ℤ) × (get_next_chunk_number memory name_b disk_ab ≡ some n)
        × (int_ltb (pos 0) n ≡ true)
        × All
            (λ entry. is_listed entry.d_name ≡ true → int_ltb (atoi entry.d_name) n ≡ true)
            (children (codes "data/b") disk_ab))
get_next_chunk_number_fresh_example =
    get_next_chunk_number_fresh memory name_b disk_ab (children (codes "data/b") disk_ab) opened_b

-- A disk that takes one byte of each write.
abbrev narrow : Disk
narrow = memory_of 1

abbrev narrow_node : Node narrow
narrow_node = record { storage = table_a; disk = disk_a }

abbrev disk_opened : Files
disk_opened = (codes "data/b/1", some []) ∷ (codes "data/b", none) ∷ disk_a

narrow_new : file_exists narrow (full_path name_b (pos 1)) disk_a ≡ false
unfolding file_exists full_path snprintf show_int show_nat emit lookup str_eq
narrow_new = refl

narrow_absent : appears narrow (full_path name_b (pos 1)) disk_a ≡ false
unfolding create_directories make_directories make_parents before_last_slash full_path snprintf
    show_int show_nat emit lookup str_eq
narrow_absent = refl

narrow_opened :
    narrow.fopen
      (full_path name_b (pos 1))
      (create_directories narrow (full_path name_b (pos 1)) disk_a).1
    ≡ some disk_opened
unfolding create_directories make_directories make_parents before_last_slash full_path snprintf
    show_int show_nat emit lookup str_eq
narrow_opened = refl

narrow_short :
    (narrow.fwrite (full_path name_b (pos 1)) (codes "uv") disk_opened).0 ≢ length (codes "uv")
unfolding full_path snprintf show_int show_nat emit lookup str_eq
narrow_short e = omega arith

save_chunk_to_file_retried_example :
    (t : Node narrow) × (save_chunk_to_file narrow allocations
        (some name_b)
        (some (codes "uv"))
        (pos 1)
        narrow_node
      ≡ some (false, t))
    × (t.storage ≡ table_a)
    × ((k : ℕ) × (narrow.content (full_path name_b (pos 1)) t.disk ≡ some (take k (codes "uv"))))
    × (save_chunk_to_file narrow allocations (some name_b) (some (codes "uv")) (pos 1) t
        ≡ some (true, t))
save_chunk_to_file_retried_example =
    save_chunk_to_file_retried narrow (memory_of-IsPosix 1) allocations allocations name_b b'u' b'u'
      (b'v' ∷ []) (b'v' ∷ []) (pos 1) narrow_node disk_opened narrow_new narrow_absent narrow_opened
      narrow_short
