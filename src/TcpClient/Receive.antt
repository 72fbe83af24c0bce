-- ===== src/TcpClient/Receive.antt =====
-- The health messages of `receive_messages`, as the master reads them.
use distributed_file_system.Base.{
  ℕ, zero, suc, ◌-◌, ◌≤◌, ◌<◌, ◌≡◌, refl, ap, ◌∙◌, Bool, true, Option, none, some, List, [], ◌∷◌,
  ◌++◌, take, drop, length, arith, Bytes,
}
use distributed_file_system.Proto.{
  MessageFromMasterToStorage, MessageFromStorageToMaster, health, Protobuf, IsText, IsReadable,
  HasSizes,
}
use distributed_file_system.State.{IsValid, catalogue}
use distributed_file_system.State.Encode.{return_current_state_encoded_in_protobufs, encode-kept}
use distributed_file_system.TcpHandler.{read_u32, read_frame, read_messages}
use distributed_file_system.TcpClient.{
  frame_sent, send_frame, received, recv_error, closed, Round, stopped, faulted, going_on,
  after_frame, answer_round, receive_round, receive_messages,
}
use distributed_file_system.TcpClient.Framing.{send_frame-read}

module _ (p : Protobuf) where
  abbrev pub health_of : Round → Bytes
  health_of r = p.pack (health (catalogue r.state))

  -- A round of a working thread with a working connection: a message came that unpacks, the calls of
  -- `malloc` succeed, the table is valid with names in UTF-8, the other thread frees or moves nothing
  -- that is still to be packed and adds no file until the mappings are freed, and the kernel takes all
  -- of a message of less than 4 GiB.
  pub record IsHealthy (r : Round) : Type 0 where
    pub buffer : Bytes
    pub message : MessageFromMasterToStorage
    pub came : r.recv ≡ received buffer
    pub unpacked : p.unpack (take (length buffer - 1) buffer) ≡ some message
    pub allocated : r.allocated ≡ true
    pub valid : IsValid r.state
    pub intact : r.intact ≡ true
    pub kept : (i : ℕ) → r.counts i ≤ r.state.num_file_count
    pub text : IsText (health (catalogue r.state))
    pub short : length (health_of r) < 4294967296
    pub sent : (send_frame r.answers (health_of r)).status ≡ frame_sent

  abbrev pub AreHealthy : List (Bool × Round) → Type 0
  AreHealthy [] = Unit {0}
  AreHealthy ((should_work, r) ∷ rest) = (should_work ≡ true) × IsHealthy r × AreHealthy rest

  abbrev pub told : List (Bool × Round) → List (Option MessageFromStorageToMaster)
  told [] = []
  told ((should_work, r) ∷ rest) = some (health (catalogue r.state)) ∷ told rest

  read_step :
      (fuel : ℕ) (stream buf rest : Bytes)
      → read_frame stream ≡ some (buf, rest)
      → read_messages p (suc fuel) stream ≡ p.decode buf ∷ read_messages p fuel rest
  unfolding read_messages
  read_step fuel stream buf rest e =
      ap
        (λ o. elim o [
          | none ↦ []
          | some (buf, stream') ↦ p.decode buf ∷ read_messages p fuel stream'
        ])
        e

  module _ (sizes : HasSizes p) where
    encoded :
        (r : Round)
        → IsHealthy r
        → (k : ℕ) × (return_current_state_encoded_in_protobufs p r.allocated r.intact r.state
              r.counts
            ≡ some (health_of r, drop k (catalogue r.state)))
    encoded r h =
        let (k, e) = encode-kept p sizes r.state h.valid r.counts h.kept in
        (k, rw (h.allocated, h.intact) e)

    healthy_answer :
        (r : Round)
        → IsHealthy r
        → answer_round p r ≡ (going_on, (send_frame r.answers (health_of r)).wire)
    unfolding answer_round after_frame
    healthy_answer r h =
        ap
          (λ o. elim o [
            | none ↦ (faulted, [])
            | some (buf, leaked) ↦
                let run = send_frame r.answers buf in (after_frame run.status, run.wire)
          ])
          (encoded r h).1
        ∙ ap (λ s. (after_frame s, (send_frame r.answers (health_of r)).wire)) h.sent

    healthy_round :
        (r : Round)
        → IsHealthy r
        → receive_round p r ≡ (going_on, (send_frame r.answers (health_of r)).wire)
    unfolding receive_round
    healthy_round r h =
        ap
          (λ v. elim v [
            | recv_error ↦ (stopped, [])
            | closed ↦ (stopped, [])
            | received buffer ↦ elim (p.unpack (take (length buffer - 1) buffer)) [
              | none ↦ (stopped, [])
              | some msg ↦ answer_round p r
            ]
          ])
          h.came
        ∙ ap (λ o. elim o [ none ↦ (stopped, []) | some msg ↦ answer_round p r ]) h.unpacked
        ∙ healthy_answer r h

    pub healthy_rounds :
        (r : Round) (rest : List (Bool × Round))
        → IsHealthy r
        → receive_messages p ((true, r) ∷ rest) ≡ (
          (receive_messages p rest).0,
          (send_frame r.answers (health_of r)).wire ++ (receive_messages p rest).1,
        )
    unfolding receive_messages
    healthy_rounds r rest h =
        let (ending', wire') = receive_messages p rest in
        ap (λ q. elim q.0 [ going_on ↦ (ending', q.1 ++ wire') | other ↦ (other, q.1) ])
          (healthy_round r h)

    -- Let the two ends agree on the format of messages whose names are UTF-8, and let in every round
    -- the flag be set, a message come that unpacks, every `malloc` succeed, the table be valid with
    -- names in UTF-8, the HTTP thread free or move nothing that is still to be packed and add no file
    -- until the mappings are freed, and the kernel take all of a message shorter than 4 GiB. Then the
    -- thread goes on, and the master reads from what it sent the table of every round, in order, each
    -- as it stood when the round's message was made.
    pub receive_messages-read_messages :
        IsReadable p
        → (rounds : List (Bool × Round)) (fuel : ℕ) → AreHealthy rounds
        → length rounds ≤ fuel
        → ((receive_messages p rounds).0 ≡ going_on)
          × (read_messages p fuel (receive_messages p rounds).1 ≡ told rounds)
    unfolding read_messages
    receive_messages-read_messages readable [] zero h enough =
        unfold receive_messages in (refl, refl)
    receive_messages-read_messages readable [] (suc fuel) h enough =
        unfold receive_messages read_frame read_u32 in (refl, refl)
    receive_messages-read_messages readable ((should_work, r) ∷ rest) zero h enough =
        absurd (omega arith)
    receive_messages-read_messages readable ((should_work, r) ∷ rest) (suc fuel) (works, hr, h)
          enough =
        let (ended, told_rest) =
          receive_messages-read_messages readable rest fuel h (omega arith) in
        rw (works, healthy_rounds r rest hr)
          (
            ended,
            read_step fuel _ (health_of r) (receive_messages p rest).1 (
                  send_frame-read r.answers (health_of r) (receive_messages p rest).1 hr.short
                    hr.sent)
                ∙ rw (readable (health (catalogue r.state)) hr.text)
                    (ap (◌∷◌ (some (health (catalogue r.state)))) told_rest),
          )
