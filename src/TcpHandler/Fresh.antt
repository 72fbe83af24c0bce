-- ===== src/TcpHandler/Fresh.antt =====
-- An id of `accept_connections` that no connection has yet.
use distributed_file_system.Base.{
  ◌≡◌, refl, ap, ◌∙◌, inl, inr, Bool-cases, false, Option-cases, none, some, List, [], ◌∷◌, ◌++◌,
  get_elem?, length, All-append, arith, Bytes, str_eq, str_eq_iff, ◌⊎◌,
}
use distributed_file_system.Proto.{Protobuf}
use distributed_file_system.StorageUnit.{ConnectionData}
use distributed_file_system.StorageUnit.Reports.{find_connection}
use distributed_file_system.TcpHandler.Tasks.{
  Task, new_task, next_task, Master, Event, accepted, turn, happen, accept_connections,
}
use distributed_file_system.TcpHandler.Turns.{happen-turn, take_turn-running, take_turn-ended}
use distributed_file_system.TcpHandler.Running.{is_running, HasTasks}
use distributed_file_system.TcpHandler.Others.{AreOther, AreApart, AreOther-get_elem?, AreOther-set}
use distributed_file_system.TcpHandler.Alone.{AcceptsOther, next_task-connection_id}

-- An id that no connection got is that of no task.
pub run-AreOther :
    (p : Protobuf) (id : Bytes) (es : List Event) (m : Master)
    → AreOther id m.tasks
    → AcceptsOther id es
    → AreOther id (accept_connections p es m).tasks
unfolding accept_connections happen new_task
run-AreOther p id [] m h news = h
run-AreOther p id (accepted other addr stream ∷ es) m h (new, news) =
    run-AreOther p id es (happen p (accepted other addr stream) m)
      (All-append (λ t. str_eq t.connection_id id ≡ false) m.tasks _ h (new, tt)) news
run-AreOther p id (turn j ∷ es) m h news =
    run-AreOther p id es (happen p (turn j) m) (kept_apart (Option-cases (get_elem? m.tasks j)))
      news
  where
    kept_apart :
        (get_elem? m.tasks j ≡ none) ⊎ ((t : Task) × (get_elem? m.tasks j ≡ some t))
        → AreOther id (happen p (turn j) m).tasks
    kept_apart (inl missing) = rw (happen, missing) h
    kept_apart (inr (t, found)) = elim (Bool-cases t.running) [
      | inl runs ↦
          rw (happen-turn p j t m found, take_turn-running p j t m runs)
            (AreOther-set id m.tasks j (next_task p t) h (
              ap (λ i. str_eq i id) (next_task-connection_id p t)
              ∙ AreOther-get_elem? id m.tasks j t h found))
      | inr ended ↦ rw (happen-turn p j t m found, take_turn-ended p j t m ended) h
    ]

not_running : (id : Bytes) (ts : List Task) → AreOther id ts → is_running id ts ≡ false
unfolding is_running
not_running id [] h = refl
not_running id (t ∷ ts) (ht, h) = rw (ht, not_running id ts h) refl

pub not_kept :
    (id : Bytes) (cs : List ConnectionData) (ts : List Task)
    → AreOther id ts
    → HasTasks cs ts
    → find_connection id cs ≡ none
unfolding find_connection
not_kept id [] ts h has = refl
not_kept id (c ∷ cs) ts h (hc, has) = elim (Bool-cases (str_eq c.connection_id id)) [
  | inl hit ↦
      let same : c.connection_id ≡ id = ground (arith, str_eq_iff c.connection_id id) in
      absurd (ground (arith, not_running id ts h, ap (λ i. is_running i ts) same))
  | inr miss ↦ rw miss (not_kept id cs ts h has)
]

pub AreApart-last :
    (id : Bytes) (ts : List Task) (t : Task)
    → AreOther id ts
    → AreApart id (length ts) (ts ++ t ∷ [])
AreApart-last id [] t h = tt
AreApart-last id (x ∷ ts) t (hx, h) = (hx, AreApart-last id ts t h)
