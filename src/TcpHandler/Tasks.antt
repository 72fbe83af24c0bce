-- ===== src/TcpHandler/Tasks.antt =====
-- workspace/master/src/tcp_connection_to_storage/tcp_handler.rs: `accept_connections`, the tasks of
-- the connections over the one state of the master. A task takes the lock for one call at a time, so
-- that the tasks interleave between messages. The stream of a task is all that will come on its
-- connection; a message that is read is handled in the same turn. An `accept` that fails ends the
-- outer loop: no connection is accepted behind it, and the tasks go on.
use distributed_file_system.Base.{
  ℕ, Bool, true, false, Option, none, some, List, [], ◌∷◌, ◌++◌, get_elem?, set, Bytes,
  if◌then◌else◌,
}
use distributed_file_system.Proto.{MessageFromStorageToMaster, not_set, join, health, Protobuf}
use distributed_file_system.StorageUnit.{TcpStorage, insert, remove, update_state}
use distributed_file_system.TcpHandler.{read_frame}

-- A task: the id that it made, the address of the connection, what is left to read, the flag that
-- `health_check_send` looks at, and whether the loop still runs.
pub record Task : Type 0 where
  pub connection_id : Bytes
  pub addr : Bytes
  pub stream : Bytes
  pub shared_conn_state : Bool
  pub running : Bool

-- The task of a connection that was accepted.
unfoldable pub new_task : (connection_id addr stream : Bytes) → Task
new_task connection_id addr stream = record {
  connection_id = connection_id;
  addr = addr;
  stream = stream;
  shared_conn_state = true;
  running = true;
}

-- What a message changes of the state of the master: one that does not decode or has no type is
-- passed over.
unfoldable pub handle_message :
    (connection_id addr : Bytes) → Option MessageFromStorageToMaster → TcpStorage → TcpStorage
handle_message connection_id addr none s = s
handle_message connection_id addr (some not_set) s = s
handle_message connection_id addr (some join) s = insert connection_id addr s
handle_message connection_id addr (some (health file_state)) s =
    update_state connection_id file_state s

-- The flag after a message.
unfoldable pub set_flag : Option MessageFromStorageToMaster → Bool → Bool
set_flag (some join) flag = true
set_flag _ flag = flag

module _ (p : Protobuf) where
  -- A round of the loop, what it makes of the task and of the state: a read that fails ends the loop,
  -- the flag falls and the connection is removed.
  unfoldable pub next_task : Task → Task
  unfolding set_flag
  next_task t = elim (read_frame t.stream) [
    | none ↦ record t { shared_conn_state = false; running = false }
    | some (buf, stream') ↦ record t {
      stream = stream';
      shared_conn_state = set_flag (p.decode buf) t.shared_conn_state;
    }
  ]

  unfoldable pub task_effect : Task → TcpStorage → TcpStorage
  unfolding handle_message
  task_effect t s = elim (read_frame t.stream) [
    | none ↦ remove t.connection_id s
    | some (buf, stream') ↦ handle_message t.connection_id t.addr (p.decode buf) s
  ]

-- The state under the lock, and the tasks in the order of their connections.
pub record Master : Type 0 where
  pub tcp_storage : TcpStorage
  pub tasks : List Task

-- What the runtime does next: a connection is accepted, or the task of an index has its turn.
pub data Event : Type 0 where
  accepted : (connection_id addr stream : Bytes) → Event
  turn : (k : ℕ) → Event

module _ (p : Protobuf) where
  unfoldable pub take_turn : ℕ → Task → Master → Master
  unfolding next_task task_effect
  take_turn k t m =
      if t.running
      then record {
        tcp_storage = task_effect p t m.tcp_storage;
        tasks = set m.tasks k (next_task p t);
      }
      else m

  unfoldable pub happen : Event → Master → Master
  unfolding new_task take_turn
  happen (accepted connection_id addr stream) m = record m {
    tasks = m.tasks ++ new_task connection_id addr stream ∷ [];
  }
  happen (turn k) m = elim (get_elem? m.tasks k) [ none ↦ m | some t ↦ take_turn k t m ]

  unfoldable pub accept_connections : List Event → Master → Master
  unfolding happen
  accept_connections [] m = m
  accept_connections (e ∷ es) m = accept_connections es (happen e m)
