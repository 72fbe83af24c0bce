-- ===== src/Tests/Client.antt =====
-- A client that inserts a file of one chunk, reads it back and removes it.
use mathlib.Core.List.Permᴰ
use distributed_file_system.Base.{
  ℕ, ◌≡◌, ◌≢◌, refl, true, Option, none, some, List, [], ◌∷◌, take, length, arith, Bytes, codes,
  ltb,
}
use distributed_file_system.Base.Int.{pos}
use distributed_file_system.StorageUnit.{contains}
use distributed_file_system.StorageUnit.Rotation.{going_round, first_index}
use distributed_file_system.HttpHandlers.{set_contains, return_server_to_write_chunk}
use distributed_file_system.HttpHandlers.ServerToWrite.{
  IsOrder, return_server_to_write_chunk-going_round,
}
use distributed_file_system.Client.{
  Location, Reading, inserted, upload_loop, posted, location_loop, then_run, chunk_loop,
  insert_file, read_file, delete_file,
}
use distributed_file_system.Client.RoundTrip.{Serves, read_file-insert_file}
use distributed_file_system.Client.Remove.{indices, are_ok, delete_file-indices}
use distributed_file_system.Tests.{name_a}
use distributed_file_system.Tests.Master.{master}

-- The first location fails once.
abbrev locations : List Location
locations =
    record { host = codes "10.0.0.1"; responses = none ∷ some 200 ∷ [] }
    ∷ record { host = codes "10.0.0.2"; responses = some 200 ∷ [] }
    ∷ []

abbrev reading : Reading
reading = record {
  made = true;
  chunks = some (0 ∷ []);
  locations = some ((codes "10.0.0.1" ∷ codes "10.0.0.2" ∷ []) ∷ []);
  random_index = λ i n. 0;
  get = λ host filename chunk_id. some (codes "hello");
  appended = λ i. true;
}

uploaded : (insert_file (some (codes "hello")) name_a (some locations ∷ [])).status ≡ inserted
unfolding insert_file chunk_loop location_loop then_run posted upload_loop
uploaded = refl

reading-Serves : Serves name_a reading (codes "hello") (locations ∷ [])
unfolding insert_file chunk_loop location_loop then_run posted upload_loop
reading-Serves = record {
  made = refl;
  chunks = refl;
  locations = refl;
  chosen = λ i n some_replica. some_replica;
  appended = λ i. refl;
  served = (refl, (refl, tt));
}

read_file-insert_file_example : read_file name_a reading ≡ (ltb 0 5, codes "hello")
read_file-insert_file_example =
    read_file-insert_file name_a reading (codes "hello") (locations ∷ []) (omega arith)
      ((λ e. cc), tt) uploaded reading-Serves

abbrev deletes : Bytes → Option ℕ
deletes host = some 500

delete_file-indices_example :
    let (result, asked) = delete_file (some (name_a ∷ name_a ∷ [])) deletes in
    (result ≡ are_ok deletes (indices 0 (name_a ∷ name_a ∷ [])))
    × (asked ≡ take (length asked) (indices 0 (name_a ∷ name_a ∷ [])))
delete_file-indices_example = delete_file-indices (name_a ∷ name_a ∷ []) deletes

kept-IsOrder : IsOrder (λ set. set)
kept-IsOrder set = Permᴰ.refl set

return_server_to_write_chunk-going_round_example :
    let answer = (return_server_to_write_chunk (λ set. set) (pos 2) master).0 in
    ((a : Bytes)
      → contains a answer
        ≡ set_contains
            (some a)
            (going_round 2 (first_index master.index_to_write) master.connections))
    × (answer ≢ [])
return_server_to_write_chunk-going_round_example =
    return_server_to_write_chunk-going_round (λ set. set) kept-IsOrder 1 master (omega arith)
