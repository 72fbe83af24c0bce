-- ===== src/Tests/Master.antt =====
-- The master, with two nodes that told a table, one of them on two connections.
use distributed_file_system.Base.{
  ◌≡◌, refl, ◌≢◌, none, List, [], ◌∷◌, All, arith, Bytes, codes, str_eq,
}
use distributed_file_system.Base.Int.{ℤ, pos}
use distributed_file_system.Proto.{FileMappings}
use distributed_file_system.StorageUnit.{
  ConnectionData, TcpStorage, contains, get_location, get_file_locations,
}
use distributed_file_system.StorageUnit.Rotation.{
  addresses, going_round, first_index, addresses-going_round,
}
use distributed_file_system.StorageUnit.Location.{is_held, AreDistinct, get_location-is_held}
use distributed_file_system.StorageUnit.Reports.{
  has_file, addresses_of, get_file_locations-addresses_of,
}
use distributed_file_system.StorageUnit.{contains_id, get_chunks_for_file, get_file_list}
use distributed_file_system.StorageUnit.ChunkIds.{
  some_has, IsAscending, get_chunks_for_file-some_has,
}
use distributed_file_system.StorageUnit.FileList.{is_known, get_file_list-is_known}
use distributed_file_system.Tests.{name_a}

abbrev mapping_a : FileMappings
mapping_a = record { filename = name_a; chunk_ids = pos 0 ∷ pos 3 ∷ [] }

abbrev connection : Bytes → Bytes → List FileMappings → ConnectionData
connection id ip ms = record { connection_id = id; ip = ip; files_to_chunks = ms }

abbrev pub master : TcpStorage
master = record {
  connections =
      connection (codes "x") (codes "10.0.0.1") (mapping_a ∷ [])
      ∷ connection (codes "y") (codes "10.0.0.2") []
      ∷ connection (codes "z") (codes "10.0.0.1") (mapping_a ∷ [])
      ∷ [];
  index_to_write = pos 1;
  replication_factor = pos 2;
}

addresses-going_round_example :
    (addresses 5 master ≡ going_round 5 (first_index master.index_to_write) master.connections)
    × All (λ a. a ≢ none) (addresses 5 master)
addresses-going_round_example = addresses-going_round 5 master (omega arith)

get_location-is_held_example :
    ((ip : Bytes)
      → contains ip (get_location name_a (pos 3) master)
        ≡ is_held ip name_a (pos 3) master.connections)
    × AreDistinct (get_location name_a (pos 3) master)
get_location-is_held_example = get_location-is_held name_a (pos 3) master

get_file_locations-addresses_of_example :
    get_file_locations name_a master ≡ addresses_of name_a master.connections
get_file_locations-addresses_of_example =
    get_file_locations-addresses_of name_a master
      ((λ e. ground arith), ((λ e. ground arith), ((λ e. ground arith), tt)))

-- The address with two connections is named twice.
named_twice : addresses_of name_a master.connections ≡ codes "10.0.0.1" ∷ codes "10.0.0.1" ∷ []
unfolding addresses_of has_file str_eq
named_twice = refl

get_chunks_for_file-some_has_example :
    ((z : ℤ)
      → contains_id z (get_chunks_for_file name_a master) ≡ some_has name_a z master.connections)
    × IsAscending (get_chunks_for_file name_a master)
get_chunks_for_file-some_has_example = get_chunks_for_file-some_has name_a master

get_file_list-is_known_example :
    ((f : Bytes) → contains f (get_file_list master) ≡ is_known f master.connections)
    × AreDistinct (get_file_list master)
get_file_list-is_known_example = get_file_list-is_known master
