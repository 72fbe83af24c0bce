-- ===== src/FileOperation/Save.antt =====
-- storageLayer/state/fileOperation.c: what `saveChunkToFile` does on every branch.
use distributed_file_system.Base.{
  ◌≡◌, refl, ap, sym, ◌∙◌, ◌⊎◌, inl, inr, Bool, Bool-cases, true, false, Option, Option-cases, none,
  some, [], ◌∷◌, take, length, arith, Bytes, ◌==◌, ==_iff,
}
use distributed_file_system.Base.Int.{ℤ}
use distributed_file_system.Disk.{Disk, IsPosix}
use distributed_file_system.State.{IsValid, catalogue}
use distributed_file_system.State.Insert.{Allocations, accepts, inserted}
use distributed_file_system.State.Insert.Laws.{insert_to_struct-inserted}
use distributed_file_system.FileOperation.{
  Node, before_last_slash, full_path, dir_path, create_directories, file_exists,
  directory_has_files, write_chunk, save_new_chunk, save_chunk_to_file,
}

module _ (d : Disk) where
  -- Whether a path names something once the directories on it are made. A path through ".." may,
  -- that named nothing before.
  abbrev pub appears : Bytes → d.State → Bool
  appears path s = d.access path (create_directories d path s).1

  abbrev closes : (path bytes : Bytes) → Option d.State → Bool
  closes path bytes none = false
  closes path bytes (some u) = (d.fclose path (d.fwrite path bytes u).1).0

  -- Whether the `fclose` of the save writes out what `fwrite` has taken.
  abbrev pub flushed : (path bytes : Bytes) → d.State → Bool
  flushed path bytes s = closes path bytes (d.fopen path (create_directories d path s).1)

  abbrev pub all_flushed : (path : Bytes) → Option Bytes → d.State → Bool
  all_flushed path none s = true
  all_flushed path (some bytes) s = flushed path bytes s

module _ (d : Disk) (x : IsPosix d) where
  pub create_directories_lem : (path : Bytes) (s : d.State) → (create_directories d path s).0 ≡ true
  unfolding create_directories
  create_directories_lem path s = elim (Option-cases (before_last_slash (take 511 path))) [
    | inl whole ↦ ground arith
    | inr (temp, cut) ↦ ground arith
  ]

  -- What can become of a write, `IsEnd` being what is known of the disk once the file is closed.
  abbrev Written :
      Allocations
      → (filename : Bytes) → ℤ
      → Bool
      → (IsEnd : d.State → Type 0) → Node d
      → Option (Bool × Node d)
      → Type 0
  Written a filename chunk_id has IsEnd s r =
      ((r ≡ none) × (accepts a has (catalogue s.storage) ≡ false))
      ⊎ (((disk : d.State) × (r ≡ some (false, record s { disk = disk })))
          ⊎ ((t : Node d) × (r ≡ some (true, t))
              × IsValid t.storage
              × (catalogue t.storage ≡ inserted a filename chunk_id has (catalogue s.storage))
              × IsEnd t.disk))

  -- What the file holds in the end.
  content-closed :
      (path bytes : Bytes) (start u : d.State)
      → d.fopen path (create_directories d path start).1 ≡ some u
      → (d.fwrite path bytes u).0 ≡ length bytes
      → (appears d path start ≡ true)
        ⊎ ((flushed d path bytes start ≡ false)
            ⊎ (some bytes ≡ d.content path (d.fclose path (d.fwrite path bytes u).1).1))
  content-closed path bytes start u opened full =
      let r = (create_directories d path start).1 in
      let t = (d.fwrite path bytes u).1 in
      elim (Bool-cases (appears d path start)) [
        | inl there ↦ inl there
        | inr new ↦ elim (Bool-cases (d.fclose path t).0) [
          | inr lost ↦ inr (inl (ap (closes d path bytes) opened ∙ lost))
          | inl closed ↦ inr (
              inr (
                sym (
                  x.content-written path bytes [] r u t (d.fclose path t).1 opened
                    (x.content-fopen_new path r u opened new) (ap (λ n. (n, t)) full)
                    (ap (λ b. (b, (d.fclose path t).1)) closed))))
        ]
      ]

  module _ (a : Allocations) (path filename : Bytes) (chunk_id : ℤ) (has : Bool) (bytes : Bytes)
      (s : Node d) (v : IsValid s.storage) (IsEnd : d.State → Type 0)
      (closed : (u : d.State)
        → d.fopen path (create_directories d path s.disk).1 ≡ some u
        → (d.fwrite path bytes u).0 ≡ length bytes
        → IsEnd (d.fclose path (d.fwrite path bytes u).1).1) where
    write_chunk_lem :
        (u : d.State)
        → d.fopen path (create_directories d path s.disk).1 ≡ some u
        → Written a filename chunk_id has IsEnd s
            (write_chunk d a path filename chunk_id has bytes (record s { disk = u }))
    unfolding write_chunk
    write_chunk_lem u opened =
        let disk = (d.fclose path (d.fwrite path bytes u).1).1 in
        elim (Bool-cases ((d.fwrite path bytes u).0 == length bytes)) [
          | inl full ↦ elim (insert_to_struct-inserted a filename chunk_id has s.storage v) [
            | inl (refused, fault) ↦ inl (rw (full, fault) refl, refused)
            | inr (t, accepted, done, w, c) ↦ inr (
                inr (
                  record { storage = t; disk = disk },
                  rw (full, done) refl,
                  w,
                  c,
                  closed u opened ((==_iff _ _).0 full),
                ))
          ]
          | inr short ↦ inr (inl (disk, rw short refl))
        ]

    save_new_chunk_lem :
        Written a filename chunk_id has IsEnd s
          (save_new_chunk d a path filename chunk_id has bytes s)
    unfolding save_new_chunk
    save_new_chunk_lem =
        let t = (create_directories d path s.disk).1 in
        let made = create_directories_lem path s.disk in
        elim (Option-cases (d.fopen path t)) [
          | inl failed ↦ inr (inl (t, rw (made, failed) refl))
          | inr (u, opened) ↦ rw (made, opened) (write_chunk_lem u opened)
        ]

  pub save_chunk_to_file_cases :
      (a : Allocations) (filename : Bytes) (bytes : Option Bytes) (chunk_id : ℤ) (s : Node d)
      → IsValid s.storage
      → let r = save_chunk_to_file d a (some filename) bytes chunk_id s in
        let has = directory_has_files d (dir_path filename) s.disk in
        let path = full_path filename chunk_id in
        ((r ≡ none) × (accepts a has (catalogue s.storage) ≡ false))
        ⊎ (((disk : d.State) × (r ≡ some (false, record s { disk = disk })))
            ⊎ (((r ≡ some (true, s)) × (file_exists d path s.disk ≡ true))
                ⊎ ((t : Node d) × (r ≡ some (true, t))
                    × IsValid t.storage
                    × (catalogue t.storage ≡ inserted a filename chunk_id has (catalogue s.storage))
                    × ((appears d path s.disk ≡ true)
                        ⊎ ((all_flushed d path bytes s.disk ≡ false)
                            ⊎ (bytes ≡ d.content path t.disk))))))
  unfolding save_chunk_to_file
  save_chunk_to_file_cases a filename none chunk_id s v = inr (inl (s.disk, refl))
  save_chunk_to_file_cases a filename (some []) chunk_id s v = inr (inl (s.disk, refl))
  save_chunk_to_file_cases a filename (some (b ∷ bytes)) chunk_id s v =
      elim (Bool-cases (file_exists d (full_path filename chunk_id) s.disk)) [
        | inl old ↦ inr (inr (inl (rw old refl, old)))
        | inr new ↦
            rw new
              (elim (save_new_chunk_lem a (full_path filename chunk_id) filename chunk_id
                (directory_has_files d (dir_path filename) s.disk) (b ∷ bytes) s v
                (λ disk.
                  (appears d (full_path filename chunk_id) s.disk ≡ true)
                  ⊎ ((flushed d (full_path filename chunk_id) (b ∷ bytes) s.disk ≡ false)
                      ⊎ (some (b ∷ bytes) ≡ d.content (full_path filename chunk_id) disk)))
                (content-closed (full_path filename chunk_id) (b ∷ bytes) s.disk)) [
                  | inl fault ↦ inl fault
                  | inr (inl failed) ↦ inr (inl failed)
                  | inr (inr saved) ↦ inr (inr (inr saved))
                ])
      ]
