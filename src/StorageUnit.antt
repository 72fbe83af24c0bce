-- ===== src/StorageUnit.antt =====
-- workspace/master/src/state/storage_unit.rs and connection_data_internal.rs: what the master knows
-- of its storage nodes. An address is its text, which is one for each address.
pub mod Rotation
pub mod Location
pub mod Reports
pub mod ChunkIds
pub mod FileList
use distributed_file_system.Base.{
  ℕ, suc, ◌+◌, ◌%◌, Bool, true, false, ◌&&◌, ◌||◌, not, Option, none, some, List, [], ◌∷◌, ◌++◌,
  map, length, get_elem?, Bytes, str_eq, ◌==◌, if◌then◌else◌,
}
use distributed_file_system.Base.Int.{ℤ, pos, negsuc, int_eq, int_ltb}
use distributed_file_system.Proto.{FileMappings}

pub record ConnectionData : Type 0 where
  pub connection_id : Bytes
  pub ip : Bytes
  pub files_to_chunks : List FileMappings

pub record TcpStorage : Type 0 where
  pub connections : List ConnectionData
  pub index_to_write : ℤ
  pub replication_factor : ℤ

unfoldable pub new_storage : ℤ → TcpStorage
new_storage replication_factor = record {
  connections = [];
  index_to_write = negsuc 0;
  replication_factor = replication_factor;
}

unfoldable pub insert : Bytes → Bytes → TcpStorage → TcpStorage
insert connection_id ip s = record s {
  connections =
      s.connections ++ record { connection_id = connection_id; ip = ip; files_to_chunks = [] } ∷ [];
  index_to_write = if int_eq s.index_to_write (negsuc 0) then pos 0 else s.index_to_write;
}

-- `retain`
unfoldable pub retain_others : Bytes → List ConnectionData → List ConnectionData
retain_others connection_id [] = []
retain_others connection_id (c ∷ cs) =
    if not (str_eq c.connection_id connection_id)
    then c ∷ retain_others connection_id cs
    else retain_others connection_id cs

unfoldable pub remove : Bytes → TcpStorage → TcpStorage
remove connection_id s = record s { connections = retain_others connection_id s.connections }

-- `find`, and the change of what is found.
unfoldable pub update_first : Bytes → List FileMappings → List ConnectionData → List ConnectionData
update_first connection_id file_mappings [] = []
update_first connection_id file_mappings (c ∷ cs) =
    if str_eq c.connection_id connection_id
    then record c { files_to_chunks = file_mappings } ∷ cs
    else c ∷ update_first connection_id file_mappings cs

unfoldable pub update_state : Bytes → List FileMappings → TcpStorage → TcpStorage
update_state connection_id file_mappings s = record s {
  connections = update_first connection_id file_mappings s.connections;
}

-- The index after a call. The counts stay below 2 ^ 31.
unfoldable pub next_index : ℤ → (connections : ℕ) → ℤ
next_index (negsuc n) connections = pos 0
next_index (pos n) connections = pos ((n + 1) % connections)

-- `get(index as usize)`; a negative index is out of range.
unfoldable pub address_at : ℤ → List ConnectionData → Option Bytes
address_at (negsuc n) cs = none
address_at (pos n) cs = elim (get_elem? cs n) [ none ↦ none | some c ↦ some c.ip ]

unfoldable pub increment_index_and_return_addr : TcpStorage → Option Bytes × TcpStorage
unfolding next_index address_at
increment_index_and_return_addr s =
    if length s.connections == 0
    then (none, s)
    else let index = next_index s.index_to_write (length s.connections) in
      (address_at index s.connections, record s { index_to_write = index })

-- `contains`
unfoldable pub contains : Bytes → List Bytes → Bool
contains x [] = false
contains x (y ∷ ys) = str_eq y x || contains x ys

unfoldable pub contains_id : ℤ → List ℤ → Bool
contains_id x [] = false
contains_id x (y ∷ ys) = int_eq y x || contains_id x ys

-- The loop over the files of a connection: whether it pushes the address and breaks, `known` saying
-- whether the address is there already.
unfoldable pub holds : (known : Bool) → Bytes → ℤ → List FileMappings → Bool
unfolding contains_id
holds known file_name chunk_id [] = false
holds known file_name chunk_id (m ∷ ms) =
    (str_eq m.filename file_name && (contains_id chunk_id m.chunk_ids && not known))
    || holds known file_name chunk_id ms

-- The loop over the connections.
unfoldable pub locate : Bytes → ℤ → List ConnectionData → (res : List Bytes) → List Bytes
unfolding holds contains
locate file_name chunk_id [] res = res
locate file_name chunk_id (c ∷ cs) res = locate file_name chunk_id cs (
    if holds (contains c.ip res) file_name chunk_id c.files_to_chunks
    then res ++ c.ip ∷ []
    else res)

unfoldable pub get_location : Bytes → ℤ → TcpStorage → List Bytes
unfolding locate
get_location file_name chunk_id s = locate file_name chunk_id s.connections []

unfoldable pub get_multiple_chunks : Bytes → List ℤ → TcpStorage → List (List Bytes)
unfolding get_location
get_multiple_chunks file_name [] s = []
get_multiple_chunks file_name (id ∷ ids) s =
    get_location file_name id s ∷ get_multiple_chunks file_name ids s

-- The loop over the files of a connection in `get_file_locations`, whether it pushes the address:
-- what `res` is asked for is the name of the file.
unfoldable pub has_name : (named : Bool) → Bytes → List FileMappings → Bool
has_name named file_name [] = false
has_name named file_name (m ∷ ms) =
    (str_eq m.filename file_name && not named) || has_name named file_name ms

unfoldable pub locate_file : Bytes → List ConnectionData → (res : List Bytes) → List Bytes
unfolding has_name contains
locate_file file_name [] res = res
locate_file file_name (c ∷ cs) res = locate_file file_name cs (
    if has_name (contains file_name res) file_name c.files_to_chunks then res ++ c.ip ∷ [] else res)

unfoldable pub get_file_locations : Bytes → TcpStorage → List Bytes
unfolding locate_file
get_file_locations file_name s = locate_file file_name s.connections []

-- `res.push(id)` for the ids that `res` does not contain.
unfoldable pub collect_ids : List ℤ → (res : List ℤ) → List ℤ
unfolding contains_id
collect_ids [] res = res
collect_ids (id ∷ ids) res = collect_ids ids (if contains_id id res then res else res ++ id ∷ [])

-- The loop over the files of a connection in `get_chunks_for_file`, up to the first of the name.
unfoldable pub collect_file : Bytes → List FileMappings → (res : List ℤ) → List ℤ
unfolding collect_ids
collect_file file_name [] res = res
collect_file file_name (m ∷ ms) res =
    if str_eq m.filename file_name
    then collect_ids m.chunk_ids res
    else collect_file file_name ms res

unfoldable pub collect_chunks : Bytes → List ConnectionData → (res : List ℤ) → List ℤ
unfolding collect_file
collect_chunks file_name [] res = res
collect_chunks file_name (c ∷ cs) res =
    collect_chunks file_name cs (collect_file file_name c.files_to_chunks res)

-- `sort`
unfoldable pub insert_sorted : ℤ → List ℤ → List ℤ
insert_sorted x [] = x ∷ []
insert_sorted x (y ∷ ys) = if int_ltb y x then y ∷ insert_sorted x ys else x ∷ y ∷ ys

unfoldable pub sort : List ℤ → List ℤ
unfolding insert_sorted
sort [] = []
sort (x ∷ xs) = insert_sorted x (sort xs)

unfoldable pub get_chunks_for_file : Bytes → TcpStorage → List ℤ
unfolding collect_chunks sort
get_chunks_for_file file_name s = sort (collect_chunks file_name s.connections [])

-- The loops of `get_file_list`.
unfoldable pub list_files : List FileMappings → (res : List Bytes) → List Bytes
unfolding contains
list_files [] res = res
list_files (m ∷ ms) res =
    list_files ms (if not (contains m.filename res) then res ++ m.filename ∷ [] else res)

unfoldable pub list_connections : List ConnectionData → (res : List Bytes) → List Bytes
unfolding list_files
list_connections [] res = res
list_connections (c ∷ cs) res = list_connections cs (list_files c.files_to_chunks res)

unfoldable pub get_file_list : TcpStorage → List Bytes
unfolding list_connections
get_file_list s = list_connections s.connections []
