-- ===== src/Tests/Tasks.antt =====
-- A master with two connections, the second of them that of a node with two health messages.
use distributed_file_system.Base.{
  ◌≤◌, ◌≡◌, refl, true, some, List, [], ◌∷◌, ◌++◌, arith, codes, str_eq, length,
}
use distributed_file_system.Base.Int.{pos}
use distributed_file_system.Proto.{join}
use distributed_file_system.State.{catalogue}
use distributed_file_system.StorageUnit.Reports.{find_connection}
use distributed_file_system.TcpClient.{
  SendResult, send_error, sent, send_loop, send_all, htonl, frame_sent, body_run, send_body,
  send_frame, receive_messages, receive_round,
}
use distributed_file_system.TcpHandler.Tasks.{Event, accepted, turn, accept_connections}
use distributed_file_system.TcpHandler.Running.{HasTasks, new_master, accept_connections-HasTasks}
use distributed_file_system.TcpHandler.Alone.{turns}
use distributed_file_system.TcpHandler.Told.{known, table_told, accept_connections-known}
use distributed_file_system.HealthCheck.{Tick, wrote, encoded_message, health_check_send}
use distributed_file_system.HealthCheck.Heard.{
  recv_pending, understood, health_check_send-receive_round,
}
use distributed_file_system.Base.Int.{int_eq}
use distributed_file_system.State.{mapping_of}
use distributed_file_system.GetFileDescriptor.{has_id, has_chunk}
use distributed_file_system.StorageUnit.{contains}
use distributed_file_system.HttpHandlers.{get_chunk_location_addr}
use distributed_file_system.TcpHandler.Tasks.{happen, new_task}
use distributed_file_system.TcpHandler.Located.{accept_connections-get_location}
use distributed_file_system.Tests.{name_b, table_ab}
use distributed_file_system.Tests.Format.{
  format, format-HasSizes, format-IsReadable, format-IsHeard,
}
use distributed_file_system.Tests.Wire.{
  two_rounds, first_round, first_round-IsHealthy, second_round-IsHealthy,
}

abbrev before : List Event
before = accepted (codes "x") (codes "10.0.0.1") [] ∷ []

-- The first connection ends between two turns of the second.
abbrev after : List Event
after = turn 1 ∷ turn 0 ∷ turn 1 ∷ []

abbrev joining : List SendResult
joining = sent 3 ∷ send_error true ∷ sent 1 ∷ sent 1 ∷ []

accept_connections-HasTasks_example :
    let m = accept_connections format (accepted (codes "y") [] [] ∷ after) (new_master (pos 1)) in
    HasTasks m.tcp_storage.connections m.tasks
accept_connections-HasTasks_example =
    accept_connections-HasTasks format (pos 1) (accepted (codes "y") [] [] ∷ after)

joined : (send_frame joining (format.pack join)).status ≡ frame_sent
unfolding send_frame send_body body_run send_all send_loop htonl
joined = refl

accept_connections-known_example :
    let wire =
      (send_frame joining (format.pack join)).wire ++ (receive_messages format two_rounds).1 in
    let m = accept_connections format before (new_master (pos 1)) in
    let m' = accept_connections format (accepted (codes "y") (codes "10.0.0.2") wire ∷ after) m in
    find_connection (codes "y") m'.tcp_storage.connections
    ≡ known (turns (length m.tasks) after) (codes "y") (codes "10.0.0.2") two_rounds
unfolding str_eq
accept_connections-known_example =
    accept_connections-known format format-HasSizes format-IsReadable (pos 1) before after
      (codes "y") (codes "10.0.0.2") joining two_rounds joined (omega arith)
      (refl, first_round-IsHealthy, (refl, second_round-IsHealthy, tt)) (refl, tt) tt

-- After the join message and a health message.
known_two :
    known 2 (codes "y") (codes "10.0.0.2") two_rounds
    ≡ some (record {
      connection_id = codes "y";
      ip = codes "10.0.0.2";
      files_to_chunks = catalogue table_ab;
    })
unfolding known table_told
known_two = refl

abbrev tick : Tick
tick = record { shared_conn_state = true; written = wrote 2; flushed = true }

health_check_send-receive_round_example :
    receive_round format
      (recv_pending first_round (health_check_send format (codes "y") (tick ∷ tick ∷ [])).1)
    ≡ understood format first_round (codes "y") (tick ∷ [])
unfolding encoded_message health_check_send
health_check_send-receive_round_example =
    health_check_send-receive_round format format-IsHeard (codes "y") tick (tick ∷ []) first_round
      ((refl, refl, refl), ((refl, refl, refl), tt)) short
  where
    short : length (health_check_send format (codes "y") (tick ∷ tick ∷ [])).1 ≤ 1023
    short = omega arith

b_told : has_chunk name_b (pos 1) (catalogue table_ab) ≡ true
unfolding has_chunk has_id str_eq int_eq catalogue mapping_of
b_told = refl

two_turns : turns (length (accept_connections format before (new_master (pos 1))).tasks) after ≡ 2
unfolding turns accept_connections happen new_task
two_turns = refl

first_told : table_told 1 two_rounds [] ≡ some (catalogue table_ab)
unfolding table_told
first_told = refl

accept_connections-get_location_example :
    let wire =
      (send_frame joining (format.pack join)).wire ++ (receive_messages format two_rounds).1 in
    let m = accept_connections format before (new_master (pos 1)) in
    let m' = accept_connections format (accepted (codes "y") (codes "10.0.0.2") wire ∷ after) m in
    contains (codes "10.0.0.2") (get_chunk_location_addr name_b (pos 1) m'.tcp_storage) ≡ true
unfolding str_eq
accept_connections-get_location_example =
    accept_connections-get_location format format-HasSizes format-IsReadable (pos 1) before after
      (codes "y") (codes "10.0.0.2") joining two_rounds 1 (catalogue table_ab) name_b (pos 1) joined
      (omega arith) (refl, first_round-IsHealthy, (refl, second_round-IsHealthy, tt)) (refl, tt) tt
      two_turns first_told b_told
