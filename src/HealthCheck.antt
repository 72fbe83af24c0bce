-- ===== src/HealthCheck.antt =====
-- workspace/master/src/tcp_connection_to_storage/loop_health_check_sender.rs: the task that asks a
-- storage node for its table, a message every ten seconds.
pub mod Heard
use distributed_file_system.Base.{
  ℕ, ◌≤◌, Bool, true, false, List, [], ◌∷◌, ◌++◌, take, length, Bytes, if◌then◌else◌,
}
use distributed_file_system.Proto.{Protobuf}

-- What `write` returns: an error, or how many of the bytes it took; `unwrap` panics on an error.
pub data WriteResult : Type 0 where
  write_failed : WriteResult
  wrote : ℕ → WriteResult

-- A tick of the interval: the flag as the task of the connection left it, what `write` returns, and
-- whether `flush` succeeds.
pub record Tick : Type 0 where
  pub shared_conn_state : Bool
  pub written : WriteResult
  pub flushed : Bool

-- How the task stands: it has returned, it has panicked, or it waits for the next tick.
pub data TaskEnding : Type 0 where
  task_returned task_panicked task_waiting : TaskEnding

module _ (p : Protobuf) where
  -- The encoded id, and a line feed behind it.
  unfoldable pub encoded_message : (connection_id : Bytes) → Bytes
  encoded_message connection_id = p.encode (record { id = connection_id }) ++ 10 ∷ []

  -- The write of a tick, and the bytes that go out.
  unfoldable pub write_message : Bytes → Tick → TaskEnding × Bytes
  write_message encoded tick = elim tick.written [
    | write_failed ↦ (task_panicked, [])
    | wrote n ↦ (if tick.flushed then task_waiting else task_panicked, take n encoded)
  ]

  unfoldable pub tick_loop : Bytes → List Tick → TaskEnding × Bytes
  unfolding write_message
  tick_loop encoded [] = (task_waiting, [])
  tick_loop encoded (tick ∷ ticks) =
      let (ending, wire) = write_message encoded tick in
      let (ending', wire') = tick_loop encoded ticks in
      if tick.shared_conn_state
      then elim ending [ task_waiting ↦ (ending', wire ++ wire') | other ↦ (other, wire) ]
      else (task_returned, [])

  unfoldable pub health_check_send : (connection_id : Bytes) → List Tick → TaskEnding × Bytes
  unfolding encoded_message tick_loop
  health_check_send connection_id ticks = tick_loop (encoded_message connection_id) ticks
