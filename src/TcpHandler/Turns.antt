-- ===== src/TcpHandler/Turns.antt =====
-- What a turn of a task of `accept_connections` is.
use distributed_file_system.Base.{
  ℕ, ◌≡◌, ap, true, false, none, some, get_elem?, set, if◌then◌else◌,
}
use distributed_file_system.Proto.{Protobuf}
use distributed_file_system.TcpHandler.Tasks.{
  Task, next_task, task_effect, Master, turn, take_turn, happen,
}

module _ (p : Protobuf) where
  pub happen-turn :
      (k : ℕ) (t : Task) (m : Master)
      → get_elem? m.tasks k ≡ some t
      → happen p (turn k) m ≡ take_turn p k t m
  unfolding happen
  happen-turn k t m e = ap (λ o. elim o [ none ↦ m | some t ↦ take_turn p k t m ]) e

  pub take_turn-running :
      (k : ℕ) (t : Task) (m : Master)
      → t.running ≡ true
      → take_turn p k t m ≡ record {
        tcp_storage = task_effect p t m.tcp_storage;
        tasks = set m.tasks k (next_task p t);
      }
  unfolding take_turn
  take_turn-running k t m e =
      ap
        (λ b.
          if b
          then record {
            tcp_storage = task_effect p t m.tcp_storage;
            tasks = set m.tasks k (next_task p t);
          }
          else m)
        e

  pub take_turn-ended : (k : ℕ) (t : Task) (m : Master) → t.running ≡ false → take_turn p k t m ≡ m
  unfolding take_turn
  take_turn-ended k t m e =
      ap
        (λ b.
          if b
          then record {
            tcp_storage = task_effect p t m.tcp_storage;
            tasks = set m.tasks k (next_task p t);
          }
          else m)
        e
