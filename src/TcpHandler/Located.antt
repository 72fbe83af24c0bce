-- ===== src/TcpHandler/Located.antt =====
-- From the table of a storage node to the answer that a client gets for a chunk.
use distributed_file_system.Base.{
  ℕ, suc, ◌<◌, ◌≡◌, refl, ap, ◌∙◌, Bool, Bool-cases, inl, inr, true, some, List, [], ◌∷◌, ◌++◌,
  length, arith, Bytes, str_eq, str_eq_refl,
}
use distributed_file_system.Base.Int.{ℤ}
use distributed_file_system.Proto.{FileMappings, join, Protobuf, IsReadable, HasSizes}
use distributed_file_system.GetFileDescriptor.{has_chunk}
use distributed_file_system.StorageUnit.{ConnectionData, contains}
use distributed_file_system.StorageUnit.Location.{is_held, get_location-is_held}
use distributed_file_system.StorageUnit.Reports.{find_connection}
use distributed_file_system.HttpHandlers.{get_chunk_location_addr}
use distributed_file_system.TcpClient.{SendResult, frame_sent, send_frame, Round, receive_messages}
use distributed_file_system.TcpClient.Receive.{AreHealthy}
use distributed_file_system.TcpHandler.Tasks.{Event, accepted, accept_connections}
use distributed_file_system.TcpHandler.Running.{new_master}
use distributed_file_system.TcpHandler.Alone.{turns, AcceptsOther}
use distributed_file_system.TcpHandler.Told.{table_told, known, accept_connections-known}

find_connection-is_held :
    (id f : Bytes) (z : ℤ) (cs : List ConnectionData) (c : ConnectionData)
    → find_connection id cs ≡ some c
    → has_chunk f z c.files_to_chunks ≡ true
    → is_held c.ip f z cs ≡ true
unfolding find_connection is_held
find_connection-is_held id f z [] c found has = absurd cc
find_connection-is_held id f z (k ∷ cs) c found has =
    elim (Bool-cases (str_eq k.connection_id id)) [
      | inl hit ↦ let same : k ≡ c = ground arith in rw (same, str_eq_refl c.ip, has) refl
      | inr miss ↦
          let later : find_connection id cs ≡ some c = ground arith in
          rw (find_connection-is_held id f z cs c later has) (ground arith)
    ]

-- Let the two ends agree on the format of messages whose names are UTF-8. A round is healthy if a
-- message comes that unpacks, every `malloc` succeeds, the table is valid with names in UTF-8, the HTTP
-- thread frees or moves nothing that is still to be packed and adds no file until the mappings are
-- freed, and the kernel takes all of a message shorter than 4 GiB. A node that sends its join message
-- and then only healthy rounds connects to the master at any time after the master's start, among any
-- other connections, all with
-- other ids. Once its task has read a health message whose table has a chunk, by the look-up that the node makes for a download, and until it reads the next one or the end
-- of the connection, the master answers a client that asks for the chunk with the node's address,
-- whatever other connections come, tell and end.
pub accept_connections-get_location :
    (p : Protobuf) (sizes : HasSizes p) (readable : IsReadable p) (replication_factor : ℤ)
    (before after : List Event) (id addr : Bytes) (answers : List SendResult)
    (rounds : List (Bool × Round)) (n : ℕ) (ms : List FileMappings) (f : Bytes) (z : ℤ)
    → (send_frame answers (p.pack join)).status ≡ frame_sent
    → length (p.pack join) < 4294967296
    → AreHealthy p rounds
    → AcceptsOther id before
    → AcceptsOther id after
    → turns (length (accept_connections p before (new_master replication_factor)).tasks) after
      ≡ suc n
    → table_told n rounds [] ≡ some ms
    → has_chunk f z ms ≡ true
    → let wire = (send_frame answers (p.pack join)).wire ++ (receive_messages p rounds).1 in
      let m = accept_connections p before (new_master replication_factor) in
      let m' = accept_connections p (accepted id addr wire ∷ after) m in
      contains addr (get_chunk_location_addr f z m'.tcp_storage) ≡ true
unfolding get_chunk_location_addr known
accept_connections-get_location p sizes readable replication_factor before after id addr answers
      rounds n ms f z joined short healthy olds news turned told has =
    let wire = (send_frame answers (p.pack join)).wire ++ (receive_messages p rounds).1 in
    let m = accept_connections p before (new_master replication_factor) in
    let s = (accept_connections p (accepted id addr wire ∷ after) m).tcp_storage in
    let c : ConnectionData = record { connection_id = id; ip = addr; files_to_chunks = ms } in
    let kept : known (suc n) id addr rounds ≡ some c = rw (known, told) refl in
    let found =
      accept_connections-known p sizes readable replication_factor before after id addr answers
        rounds joined short healthy olds news
      ∙ ap (λ k. known k id addr rounds) turned
      ∙ kept in
    (get_location-is_held f z s).0 addr ∙ find_connection-is_held id f z s.connections c found has
