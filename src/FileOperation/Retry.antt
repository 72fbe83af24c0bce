-- ===== src/FileOperation/Retry.antt =====
-- A write that the disk cuts short, and the attempt to save the chunk again.
use distributed_file_system.Base.{
  ℕ, ◌≡◌, ◌≢◌, refl, inl, inr, Bool, Bool-cases, true, false, some, [], ◌∷◌, take, length, Bytes,
  ◌==◌, ==_iff,
}
use distributed_file_system.Base.Int.{ℤ}
use distributed_file_system.Disk.{Disk, IsPosix}
use distributed_file_system.State.Insert.{Allocations}
use distributed_file_system.FileOperation.{
  Node, full_path, dir_path, create_directories, file_exists, directory_has_files, write_chunk,
  save_new_chunk, save_chunk_to_file,
}
use distributed_file_system.FileOperation.Save.{appears, create_directories_lem}

module _ (d : Disk) (x : IsPosix d) where
  write_short :
      (a : Allocations) (path filename : Bytes) (chunk_id : ℤ) (has : Bool) (bytes : Bytes)
      (s : Node d)
      → (d.fwrite path bytes s.disk).0 ≢ length bytes
      → write_chunk d a path filename chunk_id has bytes s
        ≡ some (false, record s { disk = (d.fclose path (d.fwrite path bytes s.disk).1).1 })
  unfolding write_chunk
  write_short a path filename chunk_id has bytes s short =
      elim (Bool-cases ((d.fwrite path bytes s.disk).0 == length bytes)) [
        | inl full ↦ absurd (short ((==_iff _ _).0 full))
        | inr cut ↦ rw cut refl
      ]

  save_again :
      (a : Allocations) (filename : Bytes) (b : ℕ) (bytes c : Bytes) (chunk_id : ℤ) (s : Node d)
      → d.content (full_path filename chunk_id) s.disk ≡ some c
      → save_chunk_to_file d a (some filename) (some (b ∷ bytes)) chunk_id s ≡ some (true, s)
  unfolding save_chunk_to_file file_exists
  save_again a filename b bytes c chunk_id s there =
      let found : file_exists d (full_path filename chunk_id) s.disk ≡ true =
        x.access-content (full_path filename chunk_id) s.disk c there in
      rw found refl

  -- Let the path of a chunk name nothing, also once the directories on it are made, let its file be
  -- opened, and the write be cut short. Then the save returns false with the table as it was, and
  -- leaves a first part of the bytes in the file. Any later attempt to save the chunk, whatever its
  -- bytes, returns true and changes nothing: the part stays, and the table never gets the chunk.
  pub save_chunk_to_file_retried :
      (a a' : Allocations) (filename : Bytes) (b b' : ℕ) (bytes bytes' : Bytes) (chunk_id : ℤ)
      (s : Node d) (u : d.State)
      → let path = full_path filename chunk_id in
        file_exists d path s.disk ≡ false
        → appears d path s.disk ≡ false
        → d.fopen path (create_directories d path s.disk).1 ≡ some u
        → (d.fwrite path (b ∷ bytes) u).0 ≢ length (b ∷ bytes)
        → (t : Node d) × (save_chunk_to_file d a (some filename) (some (b ∷ bytes)) chunk_id s
            ≡ some (false, t))
          × (t.storage ≡ s.storage)
          × ((k : ℕ) × (d.content path t.disk ≡ some (take k (b ∷ bytes))))
          × (save_chunk_to_file d a' (some filename) (some (b' ∷ bytes')) chunk_id t
              ≡ some (true, t))
  unfolding save_chunk_to_file save_new_chunk
  save_chunk_to_file_retried a a' filename b b' bytes bytes' chunk_id s u new absent opened short =
      let path : Bytes = full_path filename chunk_id in
      let bs : Bytes = b ∷ bytes in
      let r : d.State = (create_directories d path s.disk).1 in
      let made = create_directories_lem d x path s.disk in
      let t : Node d = record s { disk = (d.fclose path (d.fwrite path bs u).1).1 } in
      let (k, stored) =
        x.content-written_part path bs [] r u opened (x.content-fopen_new path r u opened absent) in
      (
        t,
        rw (new, made, opened)
            (write_short a path filename chunk_id (directory_has_files d (dir_path filename) s.disk)
              bs (record s { disk = u }) short),
        refl,
        (k, stored),
        save_again a' filename b' bytes' _ chunk_id t stored,
      )
