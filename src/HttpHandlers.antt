-- ===== src/HttpHandlers.antt =====
-- workspace/master/src/http_handlers: what the master answers to the client, as the value of the JSON
-- body. Each takes the lock for its calls; all but one leave the state as it is.
pub mod ServerToWrite
use distributed_file_system.Base.{
  ℕ, zero, suc, Bool, true, false, ◌||◌, Option, none, some, List, [], ◌∷◌, ◌++◌, Bytes, str_eq,
  if◌then◌else◌,
}
use distributed_file_system.Base.Int.{ℤ, pos, negsuc}
use distributed_file_system.StorageUnit.{
  TcpStorage, increment_index_and_return_addr, get_location, get_multiple_chunks,
  get_chunks_for_file, get_file_locations, get_file_list,
}

unfoldable pub show_available_files : TcpStorage → List Bytes
show_available_files s = get_file_list s

unfoldable pub get_chunk_location_addr :
    (file_name : Bytes) → (chunk_id : ℤ) → TcpStorage → List Bytes
get_chunk_location_addr file_name chunk_id s = get_location file_name chunk_id s

unfoldable pub get_chunk_location_addr_multiple :
    (file_name : Bytes) → (chunk_ids : List ℤ) → TcpStorage → List (List Bytes)
get_chunk_location_addr_multiple file_name chunk_ids s = get_multiple_chunks file_name chunk_ids s

unfoldable pub get_list_chunks : (file_name : Bytes) → TcpStorage → List ℤ
get_list_chunks file_name s = get_chunks_for_file file_name s

unfoldable pub get_file_location : (file_name : Bytes) → TcpStorage → List Bytes
get_file_location file_name s = get_file_locations file_name s

-- The equality of two `Option<IpAddr>`.
unfoldable pub same_address : Option Bytes → Option Bytes → Bool
same_address none none = true
same_address none (some b) = false
same_address (some a) none = false
same_address (some a) (some b) = str_eq a b

-- A `HashSet` as the list of what it has, each once.
unfoldable pub set_contains : Option Bytes → List (Option Bytes) → Bool
unfolding same_address
set_contains x [] = false
set_contains x (y ∷ ys) = same_address y x || set_contains x ys

unfoldable pub set_insert : Option Bytes → List (Option Bytes) → List (Option Bytes)
unfolding set_contains
set_insert x set = if set_contains x set then set else set ++ x ∷ []

-- `while i < data.replication_count`: the rounds of an i32 from 0 on.
abbrev pub rounds_of : ℤ → ℕ
rounds_of (pos n) = n
rounds_of (negsuc n) = 0

unfoldable pub write_loop :
    (rounds : ℕ)
    → (indexs_to_write : List (Option Bytes)) → TcpStorage
    → List (Option Bytes) × TcpStorage
unfolding set_insert
write_loop zero indexs_to_write s = (indexs_to_write, s)
write_loop (suc rounds) indexs_to_write s =
    let (addr, s') = increment_index_and_return_addr s in
    write_loop rounds (set_insert addr indexs_to_write) s'

-- The loop that leaves out what is none.
unfoldable pub push_some : List (Option Bytes) → List Bytes
push_some [] = []
push_some (none ∷ indices) = push_some indices
push_some (some addr ∷ indices) = addr ∷ push_some indices

-- `order` is the order in which the set gives its elements.
unfoldable pub return_server_to_write_chunk :
    (order : List (Option Bytes) → List (Option Bytes))
    → (replication_count : ℤ) → TcpStorage
    → List Bytes × TcpStorage
unfolding write_loop push_some
return_server_to_write_chunk order replication_count s =
    let (indexs_to_write, s') = write_loop (rounds_of replication_count) [] s in
    (push_some (order indexs_to_write), s')
