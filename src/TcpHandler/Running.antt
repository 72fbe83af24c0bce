-- ===== src/TcpHandler/Running.antt =====
-- No connection of the state outlives its task.
use distributed_file_system.Base.{
  ℕ, zero, suc, ◌≡◌, refl, ◌∙◌, inl, inr, Bool, Bool-cases, true, false, Option, Option-cases, none,
  some, List, [], ◌∷◌, ◌++◌, get_elem?, set, ◌||◌, ◌&&◌, All, All-append, arith, Bytes, str_eq,
  str_eq_comm, str_eq_refl,
}
use distributed_file_system.Base.Int.{ℤ}
use distributed_file_system.Proto.{
  FileMappings, MessageFromStorageToMaster, not_set, join, health, Protobuf,
}
use distributed_file_system.StorageUnit.{
  ConnectionData, TcpStorage, new_storage, insert, retain_others, remove, update_first,
  update_state,
}
use distributed_file_system.TcpHandler.{read_frame}
use distributed_file_system.TcpHandler.Tasks.{
  Task, new_task, handle_message, next_task, task_effect, Master, Event, accepted, turn, take_turn,
  happen, accept_connections,
}
use distributed_file_system.TcpHandler.Turns.{happen-turn, take_turn-running, take_turn-ended}

-- Whether a task of the id runs.
unfoldable pub is_running : Bytes → List Task → Bool
is_running id [] = false
is_running id (t ∷ ts) = (str_eq t.connection_id id && t.running) || is_running id ts

-- Every connection of the state has a task that runs.
abbrev pub HasTasks : List ConnectionData → List Task → Type 0
HasTasks cs ts = All (λ c. is_running c.connection_id ts ≡ true) cs

is_running-append :
    (id : Bytes) (ts : List Task) (t : Task)
    → is_running id ts ≡ true
    → is_running id (ts ++ t ∷ []) ≡ true
unfolding is_running
is_running-append id [] t h = absurd cc
is_running-append id (u ∷ ts) t h = ground (arith, is_running-append id ts t)

-- A task that runs is found, and one that takes its place keeps the others' ids running.
is_running-get_elem? :
    (ts : List Task) (k : ℕ) (t : Task)
    → get_elem? ts k ≡ some t
    → t.running ≡ true
    → is_running t.connection_id ts ≡ true
unfolding is_running
is_running-get_elem? [] k t e r = absurd cc
is_running-get_elem? (u ∷ ts) zero t e r =
    let same : u ≡ t = cc in rw (same, str_eq_refl t.connection_id, r) refl
is_running-get_elem? (u ∷ ts) (suc k) t e r = rw (is_running-get_elem? ts k t e r) (ground arith)

is_running-set :
    (id : Bytes) (ts : List Task) (k : ℕ) (t u : Task)
    → get_elem? ts k ≡ some t
    → (str_eq t.connection_id id && t.running) ≡ (str_eq u.connection_id id && u.running)
    → is_running id (set ts k u) ≡ is_running id ts
unfolding is_running
is_running-set id [] k t u e same = refl
is_running-set id (x ∷ ts) zero t u e same = let here : x ≡ t = cc in rw (here, same) refl
is_running-set id (x ∷ ts) (suc k) t u e same = rw (is_running-set id ts k t u e same) refl

-- A task that ends leaves the connections that are not its own.
retain_others-HasTasks :
    (id : Bytes) (cs : List ConnectionData) (ts ts' : List Task)
    → ((other : Bytes) → str_eq id other ≡ false → is_running other ts' ≡ is_running other ts)
    → HasTasks cs ts
    → HasTasks (retain_others id cs) ts'
unfolding retain_others
retain_others-HasTasks id [] ts ts' same h = tt
retain_others-HasTasks id (c ∷ cs) ts ts' same (hc, h) =
    elim (Bool-cases (str_eq c.connection_id id)) [
      | inl hit ↦ rw hit (retain_others-HasTasks id cs ts ts' same h)
      | inr miss ↦ rw miss (
        same c.connection_id (str_eq_comm id c.connection_id ∙ miss) ∙ hc,
        retain_others-HasTasks id cs ts ts' same h,
      )
    ]

update_first-HasTasks :
    (id : Bytes) (ms : List FileMappings) (cs : List ConnectionData) (ts : List Task)
    → HasTasks cs ts
    → HasTasks (update_first id ms cs) ts
unfolding update_first
update_first-HasTasks id ms [] ts h = tt
update_first-HasTasks id ms (c ∷ cs) ts (hc, h) = elim (Bool-cases (str_eq c.connection_id id)) [
  | inl hit ↦ rw hit (hc, h)
  | inr miss ↦ rw miss (hc, update_first-HasTasks id ms cs ts h)
]

handle_message-HasTasks :
    (id addr : Bytes) (msg : Option MessageFromStorageToMaster) (s : TcpStorage) (ts : List Task)
    → is_running id ts ≡ true
    → HasTasks s.connections ts
    → HasTasks (handle_message id addr msg s).connections ts
unfolding handle_message insert update_state
handle_message-HasTasks id addr none s ts r h = h
handle_message-HasTasks id addr (some not_set) s ts r h = h
handle_message-HasTasks id addr (some join) s ts r h =
    All-append (λ c. is_running c.connection_id ts ≡ true) s.connections _ h (r, tt)
handle_message-HasTasks id addr (some (health ms)) s ts r h =
    update_first-HasTasks id ms s.connections ts h

HasTasks-same :
    (cs : List ConnectionData) (ts ts' : List Task)
    → ((id : Bytes) → is_running id ts' ≡ is_running id ts)
    → HasTasks cs ts
    → HasTasks cs ts'
HasTasks-same [] ts ts' same h = tt
HasTasks-same (c ∷ cs) ts ts' same (hc, h) =
    (same c.connection_id ∙ hc, HasTasks-same cs ts ts' same h)

ended_apart : (a r : Bool) → a ≡ false → (a && r) ≡ (a && false)
ended_apart a r e = rw e refl

module _ (p : Protobuf) where
  task_effect-HasTasks :
      (s : TcpStorage) (ts : List Task) (k : ℕ) (t : Task)
      → get_elem? ts k ≡ some t
      → t.running ≡ true
      → HasTasks s.connections ts
      → HasTasks (task_effect p t s).connections (set ts k (next_task p t))
  unfolding task_effect next_task remove
  task_effect-HasTasks s ts k t e r h = elim (Option-cases (read_frame t.stream)) [
    | inl failed ↦
        rw (task_effect, next_task, failed)
          (retain_others-HasTasks t.connection_id s.connections ts _
            (λ other apart.
              is_running-set other ts k t _ e
                (ended_apart (str_eq t.connection_id other) t.running apart))
            h)
    | inr ((buf, stream'), read) ↦
        rw (task_effect, next_task, read)
          (HasTasks-same (handle_message t.connection_id t.addr (p.decode buf) s).connections ts _
            (λ id. is_running-set id ts k t _ e refl)
            (handle_message-HasTasks t.connection_id t.addr (p.decode buf) s ts
              (is_running-get_elem? ts k t e r) h))
  ]

  happen-HasTasks :
      (e : Event) (m : Master)
      → HasTasks m.tcp_storage.connections m.tasks
      → let m' = happen p e m in HasTasks m'.tcp_storage.connections m'.tasks
  unfolding happen take_turn new_task
  happen-HasTasks (accepted id addr stream) m h = accepted_lem m.tcp_storage.connections h
    where
      accepted_lem :
          (cs : List ConnectionData)
          → HasTasks cs m.tasks
          → HasTasks cs (m.tasks ++ new_task id addr stream ∷ [])
      accepted_lem [] k = tt
      accepted_lem (c ∷ cs) (kc, k) =
          (is_running-append c.connection_id m.tasks _ kc, accepted_lem cs k)
  happen-HasTasks (turn k) m h = elim (Option-cases (get_elem? m.tasks k)) [
    | inl missing ↦ rw (happen, missing) h
    | inr (t, found) ↦ elim (Bool-cases t.running) [
      | inl runs ↦
          rw (happen-turn p k t m found, take_turn-running p k t m runs)
            (task_effect-HasTasks m.tcp_storage m.tasks k t found runs h)
      | inr ended ↦ rw (happen-turn p k t m found, take_turn-ended p k t m ended) h
    ]
  ]

  run-HasTasks :
      (es : List Event) (m : Master)
      → HasTasks m.tcp_storage.connections m.tasks
      → let m' = accept_connections p es m in HasTasks m'.tcp_storage.connections m'.tasks
  unfolding accept_connections
  run-HasTasks [] m h = h
  run-HasTasks (e ∷ es) m h = run-HasTasks es (happen p e m) (happen-HasTasks e m h)

-- The master as it starts.
abbrev pub new_master : ℤ → Master
new_master replication_factor = record { tcp_storage = new_storage replication_factor; tasks = [] }

-- Whatever connections are accepted, whatever comes on them and however their tasks take turns, from
-- the start of the master on every connection that it keeps is one whose task still runs: it names no
-- node whose connection has ended.
pub accept_connections-HasTasks :
    (p : Protobuf) (replication_factor : ℤ) (es : List Event)
    → let m = accept_connections p es (new_master replication_factor) in
      HasTasks m.tcp_storage.connections m.tasks
unfolding new_storage
accept_connections-HasTasks p replication_factor es =
    run-HasTasks p es (new_master replication_factor) tt
