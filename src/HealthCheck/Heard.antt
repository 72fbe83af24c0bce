-- ===== src/HealthCheck/Heard.antt =====
-- What a storage node makes of the messages of `health_check_send`, in `receive_messages` of
-- storageLayer/tcpClient/client.c.
use distributed_file_system.Base.{
  ℕ, zero, suc, ◌-◌, ◌≤◌, ◌≡◌, refl, ap, sym, subst, ◌∙◌, true, none, some, List, [], ◌∷◌, ◌++◌,
  append-nil, append_assoc, take, length, length-append, take-all, take-append_left, arith, Bytes,
  if◌then◌else◌, All,
}
use distributed_file_system.Proto.{Protobuf, IsHeard}
use distributed_file_system.TcpClient.{
  received, Round, Ending, stopped, answer_round, receive_round,
}
use distributed_file_system.HealthCheck.{
  wrote, Tick, task_waiting, task_returned, encoded_message, write_message, tick_loop,
  health_check_send,
}

-- A tick of a connection that stands, where `write` takes the whole message.
abbrev pub IsWhole : Bytes → Tick → Type 0
IsWhole encoded tick =
    (tick.shared_conn_state ≡ true)
    × (tick.written ≡ wrote (length encoded))
    × (tick.flushed ≡ true)

-- The message and as many more, a line feed between each two.
abbrev pub separated : (more : ℕ) → Bytes → Bytes
separated zero encoded = encoded
separated (suc more) encoded = encoded ++ 10 ∷ separated more encoded

module _ (p : Protobuf) where
  write_message-whole :
      (encoded : Bytes) (tick : Tick)
      → IsWhole encoded tick
      → write_message p encoded tick ≡ (task_waiting, encoded)
  unfolding write_message
  write_message-whole encoded tick (standing, all, flushed) =
      rw (write_message, all, flushed)
        (ap (λ b. (task_waiting, b)) (take-all (length encoded) encoded (omega arith)))

  tick_loop-step :
      (encoded : Bytes) (tick : Tick) (ticks : List Tick)
      → IsWhole encoded tick
      → tick_loop p encoded (tick ∷ ticks)
        ≡ ((tick_loop p encoded ticks).0, encoded ++ (tick_loop p encoded ticks).1)
  unfolding tick_loop
  tick_loop-step encoded tick ticks h =
      let (ending', wire') = tick_loop p encoded ticks in
      ap
        (λ b.
          if b
          then elim (write_message p encoded tick).0 [
            | task_waiting ↦ (ending', (write_message p encoded tick).1 ++ wire')
            | other ↦ (other, (write_message p encoded tick).1)
          ]
          else (task_returned, []))
        h.0
      ∙ ap (λ w. elim w.0 [ task_waiting ↦ (ending', w.1 ++ wire') | other ↦ (other, w.1) ])
          (write_message-whole encoded tick h)

  tick_loop-separated :
      (message : Bytes) (tick : Tick) (ticks : List Tick)
      → All (IsWhole (message ++ 10 ∷ [])) (tick ∷ ticks)
      → tick_loop p (message ++ 10 ∷ []) (tick ∷ ticks)
        ≡ (task_waiting, separated (length ticks) message ++ 10 ∷ [])
  unfolding tick_loop
  tick_loop-separated message tick [] (h, rest) =
      tick_loop-step (message ++ 10 ∷ []) tick [] h
      ∙ ap (λ b. (task_waiting, b)) (append-nil (message ++ 10 ∷ []))
  tick_loop-separated message tick (tick' ∷ ticks) (h, rest) =
      tick_loop-step (message ++ 10 ∷ []) tick (tick' ∷ ticks) h
      ∙ rw (tick_loop-separated message tick' ticks rest) (
          ap (λ b. (task_waiting, b))
            (append_assoc message (10 ∷ []) (separated (length ticks) message ++ 10 ∷ [])
              ∙ sym (append_assoc message (10 ∷ separated (length ticks) message) (10 ∷ []))))

-- `recv(socket_fd, buffer, BUFFER_SIZE - 1, 0)` where some bytes are there.
abbrev pub recv_pending : Round → Bytes → Round
recv_pending r pending = record r { recv = received (take 1023 pending) }

without_last :
    (message : Bytes) → take (length (message ++ 10 ∷ []) - 1) (message ++ 10 ∷ []) ≡ message
without_last message =
    let e : length (message ++ 10 ∷ []) - 1 ≡ length message =
      omega (arith, length-append message (10 ∷ [])) in
    ap (λ n. take n (message ++ 10 ∷ [])) e
    ∙ take-append_left (length message) message (10 ∷ []) (omega arith)
    ∙ take-all (length message) message (omega arith)

-- A round in which the message came, and as many more.
abbrev pub understood : (p : Protobuf) → Round → Bytes → List Tick → Ending × Bytes
understood p r message [] = answer_round p r
understood p r message (tick ∷ ticks) = elim (p.unpack (separated (suc (length ticks)) message)) [
  | none ↦ (stopped, [])
  | some msg ↦ answer_round p r
]

receive_round-received :
    (p : Protobuf) (r : Round) (message : Bytes)
    → length (message ++ 10 ∷ []) ≤ 1023
    → receive_round p (recv_pending r (message ++ 10 ∷ []))
      ≡ elim (p.unpack message) [ none ↦ (stopped, []) | some msg ↦ answer_round p r ]
unfolding receive_round answer_round
receive_round-received p r message short =
    rw (take-all 1023 (message ++ 10 ∷ []) short, without_last message) refl

-- The task writes a message at every tick, and what it has written when the node calls `recv` comes
-- in one piece if it is at most 1023 bytes. One message is understood, and the node answers with its
-- table. Several are unpacked as if they were one, with a line feed between each two: the node stops
-- if that does not unpack, and else answers once for all of them.
pub health_check_send-receive_round :
    (p : Protobuf) (heard : IsHeard p) (id : Bytes) (tick : Tick) (ticks : List Tick) (r : Round)
    → All (IsWhole (encoded_message p id)) (tick ∷ ticks)
    → length (health_check_send p id (tick ∷ ticks)).1 ≤ 1023
    → receive_round p (recv_pending r (health_check_send p id (tick ∷ ticks)).1)
      ≡ understood p r (p.encode (record { id = id })) ticks
unfolding health_check_send encoded_message
health_check_send-receive_round p heard id tick ticks r whole short =
    let message = p.encode (record { id = id }) in
    let wire = ap (λ x. x.1) (tick_loop-separated p message tick ticks whole) in
    ap (λ b. receive_round p (recv_pending r b)) wire
    ∙ receive_round-received p r (separated (length ticks) message)
        (subst (λ b. length b ≤ 1023) wire short)
    ∙ answered ticks
  where
    answered :
        (ts : List Tick)
        → elim (p.unpack (separated (length ts) (p.encode (record { id = id })))) [
          | none ↦ (stopped, [])
          | some msg ↦ answer_round p r
        ]
          ≡ understood p r (p.encode (record { id = id })) ts
    answered [] =
        ap (λ o. elim o [ none ↦ (stopped, []) | some msg ↦ answer_round p r ])
          (heard (record { id = id }))
    answered (t ∷ ts) = refl
