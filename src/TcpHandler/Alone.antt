-- ===== src/TcpHandler/Alone.antt =====
-- The turns of one task, and the same task among the others.
use distributed_file_system.Base.{
  ℕ, zero, suc, ◌≡◌, refl, ap, subst, ◌∙◌, inl, inr, Bool-cases, true, false, Option, Option-cases,
  none, some, List, [], ◌∷◌, get_elem?, arith, Bytes, str_eq, if◌then◌else◌, ◌==◌,
}
use distributed_file_system.Proto.{Protobuf}
use distributed_file_system.StorageUnit.{ConnectionData, TcpStorage, remove}
use distributed_file_system.StorageUnit.Reports.{find_connection}
use distributed_file_system.TcpHandler.{read_frame}
use distributed_file_system.TcpHandler.Tasks.{
  Task, new_task, next_task, task_effect, Master, Event, accepted, turn, happen, accept_connections,
}
use distributed_file_system.TcpHandler.Apart.{
  own_message, handle_message-other, handle_message-own, find_connection-retain_self,
  find_connection-retain_others,
}
use distributed_file_system.TcpHandler.Others.{
  AreApart, get_elem?-append_left, get_elem?-set_here, get_elem?-set_there, AreApart-get_elem?,
  AreApart-set_here, AreApart-set_there, AreApart-append,
}
use distributed_file_system.TcpHandler.Turns.{happen-turn, take_turn-running, take_turn-ended}

module _ (p : Protobuf) where
  -- A turn of the task, on what the master keeps of its connection.
  unfoldable pub own_turn : Task × Option ConnectionData → Task × Option ConnectionData
  unfolding own_message
  own_turn (t, c) =
      if t.running
      then (
        next_task p t,
        elim (read_frame t.stream) [
          | none ↦ none
          | some (buf, stream') ↦ own_message t.connection_id t.addr (p.decode buf) c
        ],
      )
      else (t, c)

  unfoldable pub own_turns : (n : ℕ) → Task × Option ConnectionData → Task × Option ConnectionData
  unfolding own_turn
  own_turns zero x = x
  own_turns (suc n) x = own_turns n (own_turn x)

-- How many of the turns are of the task of an index.
unfoldable pub turns : ℕ → List Event → ℕ
turns k [] = 0
turns k (accepted id addr stream ∷ es) = turns k es
turns k (turn j ∷ es) = if j == k then suc (turns k es) else turns k es

-- No connection that is accepted gets the id.
abbrev pub AcceptsOther : Bytes → List Event → Type 0
AcceptsOther id [] = Unit {0}
AcceptsOther id (accepted other addr stream ∷ es) = (str_eq other id ≡ false) × AcceptsOther id es
AcceptsOther id (turn k ∷ es) = AcceptsOther id es

module _ (p : Protobuf) where
  pub next_task-connection_id : (t : Task) → (next_task p t).connection_id ≡ t.connection_id
  unfolding next_task
  next_task-connection_id t = elim (Option-cases (read_frame t.stream)) [
    | inl failed ↦ rw (next_task, failed) refl
    | inr (x, read) ↦ rw (next_task, read) refl
  ]

  task_effect-other :
      (t : Task) (id : Bytes) (s : TcpStorage)
      → str_eq t.connection_id id ≡ false
      → find_connection id (task_effect p t s).connections ≡ find_connection id s.connections
  unfolding task_effect remove
  task_effect-other t id s apart = elim (Option-cases (read_frame t.stream)) [
    | inl failed ↦
        rw (task_effect, failed)
          (find_connection-retain_others t.connection_id id s.connections apart)
    | inr ((buf, stream'), read) ↦
        rw (task_effect, read)
          (handle_message-other t.connection_id t.addr id (p.decode buf) s apart)
  ]

  task_effect-own :
      (t : Task) (s : TcpStorage)
      → t.running ≡ true
      → own_turn p (t, find_connection t.connection_id s.connections)
        ≡ (next_task p t, find_connection t.connection_id (task_effect p t s).connections)
  unfolding task_effect remove own_turn
  task_effect-own t s runs = elim (Option-cases (read_frame t.stream)) [
    | inl failed ↦
        rw (task_effect, failed, find_connection-retain_self t.connection_id s.connections)
          (ground arith)
    | inr ((buf, stream'), read) ↦
        rw (task_effect, read, handle_message-own t.connection_id t.addr (p.decode buf) s)
          (ground arith)
  ]

  module _ (id : Bytes) (k : ℕ) where
    -- What a run leaves of the task and of the connection.
    abbrev Leaves : Master → Task × Option ConnectionData → Type 0
    Leaves m x =
        (get_elem? m.tasks k ≡ some x.0) × (find_connection id m.tcp_storage.connections ≡ x.1)

    own_turn-ended :
        (t : Task) (c : Option ConnectionData) → t.running ≡ false → own_turn p (t, c) ≡ (t, c)
    unfolding own_turn
    own_turn-ended t c ended =
        ap
          (λ b.
            if b
            then (
              next_task p t,
              elim (read_frame t.stream) [
                | none ↦ none
                | some (buf, stream') ↦ own_message t.connection_id t.addr (p.decode buf) c
              ],
            )
            else (t, c))
          ended

    turn_own :
        (m : Master) (t : Task)
        → get_elem? m.tasks k ≡ some t
        → t.connection_id ≡ id
        → AreApart id k m.tasks
        → let m' = happen p (turn k) m in
          Leaves m' (own_turn p (t, find_connection id m.tcp_storage.connections))
          × AreApart id k m'.tasks
    turn_own m t found same apart = elim (Bool-cases t.running) [
      | inl runs ↦
          let own = task_effect-own t m.tcp_storage runs in
          let own' =
            subst
              (λ i.
                own_turn p (t, find_connection i m.tcp_storage.connections)
                ≡ (next_task p t, find_connection i (task_effect p t m.tcp_storage).connections))
              same own in
          rw (happen-turn p k t m found, take_turn-running p k t m runs, own')
            (
              (get_elem?-set_here m.tasks k t (next_task p t) found, refl),
              AreApart-set_here id k m.tasks (next_task p t) apart,
            )
      | inr ended ↦
          rw
            (
              happen-turn p k t m found,
              take_turn-ended p k t m ended,
              own_turn-ended t (find_connection id m.tcp_storage.connections) ended,
            )
            ((found, refl), apart)
    ]

    turn_other :
        (m : Master) (t : Task) (j : ℕ)
        → get_elem? m.tasks k ≡ some t
        → AreApart id k m.tasks
        → (j == k) ≡ false
        → let m' = happen p (turn j) m in
          Leaves m' (t, find_connection id m.tcp_storage.connections) × AreApart id k m'.tasks
    unfolding happen
    turn_other m t j found apart other = elim (Option-cases (get_elem? m.tasks j)) [
      | inl missing ↦ rw (happen, missing) ((found, refl), apart)
      | inr (u, there) ↦ elim (Bool-cases u.running) [
        | inr ended ↦
            rw (happen-turn p j u m there, take_turn-ended p j u m ended) ((found, refl), apart)
        | inl runs ↦
            let differs = AreApart-get_elem? id k m.tasks j u apart other there in
            rw (happen-turn p j u m there, take_turn-running p j u m runs)
              (
                (
                  get_elem?-set_there m.tasks j k (next_task p u) other ∙ found,
                  task_effect-other u id m.tcp_storage differs,
                ),
                AreApart-set_there id k m.tasks j (next_task p u) apart other
                    (ap (λ i. str_eq i id) (next_task-connection_id u) ∙ differs),
              )
      ]
    ]

    own_turn-connection_id :
        (t : Task) (c : Option ConnectionData)
        → (own_turn p (t, c)).0.connection_id ≡ t.connection_id
    unfolding own_turn
    own_turn-connection_id t c = elim (Bool-cases t.running) [
      | inl runs ↦ simp (runs, next_task-connection_id t)
      | inr ended ↦ ap (λ x. x.0.connection_id) (own_turn-ended t c ended)
    ]

    -- However the tasks take turns, the task of the index and what the master keeps under its id are
    -- what its own turns make of them, if no other task has the id and no later connection gets it.
    pub accept_connections-own_turns :
        (es : List Event) (m : Master) (t : Task)
        → get_elem? m.tasks k ≡ some t
        → t.connection_id ≡ id
        → AreApart id k m.tasks
        → AcceptsOther id es
        → Leaves
            (accept_connections p es m)
            (own_turns p (turns k es) (t, find_connection id m.tcp_storage.connections))
    unfolding accept_connections own_turns turns
    accept_connections-own_turns [] m t found same apart news = (found, refl)
    accept_connections-own_turns (accepted other addr stream ∷ es) m t found same apart
          (new, news) =
        unfold happen new_task in
        accept_connections-own_turns es (happen p (accepted other addr stream) m) t
          (get_elem?-append_left m.tasks _ k t found) same
          (AreApart-append id k m.tasks t _ found apart new) news
    accept_connections-own_turns (turn j ∷ es) m t found same apart news =
        elim (Bool-cases (j == k)) [
          | inl own ↦
              let here : j ≡ k = ground arith in
              let c = find_connection id m.tcp_storage.connections in
              let ((found', left), apart') = turn_own m t found same apart in
              let x = own_turn p (t, c) in
              let m' = happen p (turn k) m in
              rw (own, here)
                (subst
                  (λ c'. Leaves (accept_connections p es m') (own_turns p (turns k es) (x.0, c')))
                  left
                  (accept_connections-own_turns es m' x.0 found' (own_turn-connection_id t c ∙ same)
                    apart' news))
          | inr other ↦
              let ((found', left), apart') = turn_other m t j found apart other in
              let m' = happen p (turn j) m in
              rw other (
                subst (λ c'. Leaves (accept_connections p es m') (own_turns p (turns k es) (t, c')))
                  left (accept_connections-own_turns es m' t found' same apart' news))
        ]
