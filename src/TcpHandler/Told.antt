-- ===== src/TcpHandler/Told.antt =====
-- The wire of a storage node, as the task of its connection handles it: storageLayer/main.c and
-- storageLayer/tcpClient/client.c on one side, tcp_handler.rs on the other.
use distributed_file_system.Base.{
  ℕ, zero, suc, ◌<◌, ◌≡◌, refl, ap, ◌∙◌, Bool, true, false, Option, none, some, List, [], ◌∷◌, ◌++◌,
  get_elem?-last, length, Bytes,
}
use distributed_file_system.Base.Int.{ℤ}
use distributed_file_system.Proto.{FileMappings, join, health, Protobuf, IsReadable, HasSizes}
use distributed_file_system.State.{catalogue}
use distributed_file_system.StorageUnit.{ConnectionData}
use distributed_file_system.StorageUnit.Reports.{find_connection}
use distributed_file_system.TcpClient.{SendResult, frame_sent, send_frame, Round, receive_messages}
use distributed_file_system.TcpClient.Framing.{send_frame-read}
use distributed_file_system.TcpClient.Receive.{health_of, AreHealthy, healthy_rounds}
use distributed_file_system.TcpHandler.{read_u32, read_frame}
use distributed_file_system.TcpHandler.Tasks.{
  Task, new_task, set_flag, next_task, Event, accepted, happen, accept_connections,
}
use distributed_file_system.TcpHandler.Running.{new_master, accept_connections-HasTasks}
use distributed_file_system.TcpHandler.Apart.{own_message}
use distributed_file_system.TcpHandler.Alone.{
  own_turn, own_turns, turns, AcceptsOther, accept_connections-own_turns,
}
use distributed_file_system.TcpHandler.Fresh.{run-AreOther, not_kept, AreApart-last}

-- The table that the master has of a node after a number of health messages, from the one before;
-- none once it has read to the end.
unfoldable pub table_told : ℕ → List (Bool × Round) → List FileMappings → Option (List FileMappings)
table_told zero rounds table = some table
table_told (suc n) [] table = none
table_told (suc n) ((should_work, r) ∷ rest) table = table_told n rest (catalogue r.state)

-- What the master keeps of a node after a number of turns of its task: nothing before the join
-- message, then the table that was told last, and nothing once the connection has ended.
unfoldable pub known : ℕ → (id addr : Bytes) → List (Bool × Round) → Option ConnectionData
unfolding table_told
known zero id addr rounds = none
known (suc n) id addr rounds = elim (table_told n rounds []) [
  | none ↦ none
  | some ms ↦ some (record { connection_id = id; ip = addr; files_to_chunks = ms })
]

-- A task of the id and the address that runs.
abbrev running_task : (id addr stream : Bytes) → Bool → Task
running_task id addr stream flag = record {
  connection_id = id;
  addr = addr;
  stream = stream;
  shared_conn_state = flag;
  running = true;
}

module _ (p : Protobuf) (id addr : Bytes) where
  -- A turn that reads a message.
  read_turn :
      (stream : Bytes) (flag : Bool) (c : Option ConnectionData) (buf stream' : Bytes)
      → read_frame stream ≡ some (buf, stream')
      → own_turn p (running_task id addr stream flag, c) ≡ (
        running_task id addr stream' (set_flag (p.decode buf) flag),
        own_message id addr (p.decode buf) c,
      )
  unfolding own_turn next_task
  read_turn stream flag c buf stream' read = rw (next_task, read) refl

  -- An ended task makes nothing of what was removed.
  ended_turns : (n : ℕ) (t : Task) → (own_turns p n (record t { running = false }, none)).1 ≡ none
  unfolding own_turns own_turn
  ended_turns zero t = refl
  ended_turns (suc n) t = ended_turns n t

  last_turns :
      (n : ℕ) (flag : Bool) (c : Option ConnectionData)
      → (own_turns p (suc n) (running_task id addr [] flag, c)).1 ≡ none
  unfolding own_turns own_turn next_task read_frame read_u32
  last_turns n flag c =
      ended_turns n (record (running_task id addr [] flag) { shared_conn_state = false })

  module _ (sizes : HasSizes p) (readable : IsReadable p) where
    abbrev kept : List FileMappings → ConnectionData
    kept ms = record { connection_id = id; ip = addr; files_to_chunks = ms }

    abbrev kept_if : Option (List FileMappings) → Option ConnectionData
    kept_if none = none
    kept_if (some ms) = some (kept ms)

    own_turns-table_told :
        (n : ℕ) (rounds : List (Bool × Round)) (flag : Bool) (table : List FileMappings)
        → AreHealthy p rounds
        → (own_turns p n
            (running_task id addr (receive_messages p rounds).1 flag, some (kept table))).1
          ≡ kept_if (table_told n rounds table)
    unfolding own_turns own_message table_told set_flag
    own_turns-table_told zero rounds flag table h = refl
    own_turns-table_told (suc n) [] flag table h =
        unfold receive_messages in last_turns n flag (some (kept table))
    own_turns-table_told (suc n) ((should_work, r) ∷ rest) flag table (works, hr, h) =
        let wire = (receive_messages p rest).1 in
        let read = send_frame-read r.answers (health_of p r) wire hr.short hr.sent in
        rw (works, healthy_rounds p sizes r rest hr)
          (ap (λ x. (own_turns p n x).1)
              (read_turn _ flag (some (kept table)) (health_of p r) wire read
                ∙ ap
                    (λ m. (
                      running_task id addr wire (set_flag m flag),
                      own_message id addr m (some (kept table)),
                    ))
                    (readable (health (catalogue r.state)) hr.text))
            ∙ own_turns-table_told n rest flag (catalogue r.state) h)

    -- The turns of a task whose stream begins with the join message.
    own_turns-known :
        (n : ℕ) (stream : Bytes) (rounds : List (Bool × Round))
        → AreHealthy p rounds
        → read_frame stream ≡ some (p.pack join, (receive_messages p rounds).1)
        → (own_turns p n (new_task id addr stream, none)).1 ≡ known n id addr rounds
    unfolding own_turns own_message known new_task
    own_turns-known zero stream rounds h joined = refl
    own_turns-known (suc n) stream rounds h joined =
        ap (λ x. (own_turns p n x).1)
          (read_turn stream true none (p.pack join) (receive_messages p rounds).1 joined
            ∙ ap
                (λ m. (
                  running_task id addr (receive_messages p rounds).1 (set_flag m true),
                  own_message id addr m none,
                ))
                (readable join tt))
        ∙ own_turns-table_told n rounds (set_flag (some join) true) [] h
        ∙ same (table_told n rounds [])
      where
        same :
            (o : Option (List FileMappings))
            → kept_if o ≡ elim o [ none ↦ none | some ms ↦ some (kept ms) ]
        same none = refl
        same (some ms) = refl

-- Let the two ends agree on the format of messages whose names are UTF-8. A round is healthy if a
-- message comes that unpacks, every `malloc` succeeds, the table is valid with names in UTF-8, the HTTP
-- thread frees or moves nothing that is still to be packed and adds no file until the mappings are
-- freed, and the kernel takes all of a message shorter than 4 GiB. A node that sends its join message
-- and then only healthy rounds connects to the master at any time after the master's start, among any
-- other connections, all with
-- other ids. After any turns of the tasks, the master keeps of the node what as many turns as its own
-- task has had tell: nothing before the first, then the table of the last health message read, and
-- nothing once the connection has ended and the task has seen it.
pub accept_connections-known :
    (p : Protobuf) (sizes : HasSizes p) (readable : IsReadable p) (replication_factor : ℤ)
    (before after : List Event) (id addr : Bytes) (answers : List SendResult)
    (rounds : List (Bool × Round))
    → (send_frame answers (p.pack join)).status ≡ frame_sent
    → length (p.pack join) < 4294967296
    → AreHealthy p rounds
    → AcceptsOther id before
    → AcceptsOther id after
    → let wire = (send_frame answers (p.pack join)).wire ++ (receive_messages p rounds).1 in
      let m = accept_connections p before (new_master replication_factor) in
      let m' = accept_connections p (accepted id addr wire ∷ after) m in
      find_connection id m'.tcp_storage.connections
      ≡ known (turns (length m.tasks) after) id addr rounds
unfolding happen
accept_connections-known p sizes readable replication_factor before after id addr answers rounds
      joined short healthy olds news =
    let wire = (send_frame answers (p.pack join)).wire ++ (receive_messages p rounds).1 in
    let m = accept_connections p before (new_master replication_factor) in
    let others = run-AreOther p id before (new_master replication_factor) tt olds in
    let fresh =
      not_kept id m.tcp_storage.connections m.tasks others
        (accept_connections-HasTasks p replication_factor before) in
    let left =
      accept_connections-own_turns p id (length m.tasks) after (happen p (accepted id addr wire) m)
        (new_task id addr wire) (get_elem?-last m.tasks (new_task id addr wire))
        (unfold new_task in refl) (AreApart-last id m.tasks (new_task id addr wire) others) news in
    unfold accept_connections in
    left.1
    ∙ ap (λ c. (own_turns p (turns (length m.tasks) after) (new_task id addr wire, c)).1) fresh
    ∙ own_turns-known p id addr sizes readable (turns (length m.tasks) after) wire rounds healthy
        (send_frame-read answers (p.pack join) (receive_messages p rounds).1 short joined)
