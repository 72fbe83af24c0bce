-- ===== src/TcpClient/Patience.antt =====
-- When a message and its size are sent whole.
use distributed_file_system.Base.{
  ℕ, zero, suc, ◌+◌, ◌-◌, ◌≤◌, ◌≡◌, refl, sym, subst, inl, inr, Bool-cases, true, false, List, [],
  ◌∷◌, ◌++◌, take, drop, length, min, arith, Bytes, ltb, ltb→lt,
}
use distributed_file_system.TcpClient.{
  SendResult, send_error, sent, returned, SendRun, send_loop, send_all, htonl, frame_sent, body_run,
  send_body, send_frame,
}
use distributed_file_system.TcpClient.Send.{
  step_done, step_eintr, step_sent, IsPatient, later, capacity, send_all-returned,
}

-- The answers that take something.
abbrev pub takes : List SendResult → ℕ
takes [] = 0
takes (send_error eintr ∷ rest) = takes rest
takes (sent n ∷ rest) = suc (takes rest)

takes-capacity : (answers : List SendResult) → IsPatient answers → takes answers ≤ capacity answers
takes-capacity [] h = omega arith
takes-capacity (send_error eintr ∷ rest) (_, h) = takes-capacity rest h
takes-capacity (sent n ∷ rest) (positive, h) = omega (arith, takes-capacity rest h)

-- What a run leaves of the answers: at most one for each byte is gone.
abbrev Leaves : List SendResult → ℕ → SendRun → Type 0
Leaves answers bytes r = IsPatient r.answers × (takes answers ≤ bytes + takes r.answers)

send_more-Leaves :
    (answer : SendResult) (rest : List SendResult) (buf : Bytes) (total : ℕ) (wire : Bytes)
    → IsPatient (answer ∷ rest)
    → ltb total (length buf) ≡ true
    → ((t : ℕ) (w : Bytes) → Leaves rest (length buf - t) (send_loop rest buf t w))
    → Leaves (answer ∷ rest) (length buf - total) (send_loop (answer ∷ rest) buf total wire)
send_more-Leaves (send_error true) rest buf total wire patient more ih =
    subst (Leaves (send_error true ∷ rest) (length buf - total))
      (sym (step_eintr rest buf total wire more)) (ih total wire)
send_more-Leaves (send_error false) rest buf total wire (eintr, _) more ih = absurd cc
send_more-Leaves (sent zero) rest buf total wire (positive, _) more ih = absurd (omega arith)
send_more-Leaves (sent (suc k)) rest buf total wire patient more ih =
    let next = min (length buf) (total + suc k) in
    let (h, few) = ih next (wire ++ take (suc k) (drop total buf)) in
    subst (Leaves (sent (suc k) ∷ rest) (length buf - total))
      (sym (step_sent rest buf total wire more k))
      (h, omega (arith, few, ltb→lt total (length buf) more))

send_loop-Leaves :
    (answers : List SendResult) (buf : Bytes) (total : ℕ) (wire : Bytes)
    → IsPatient answers
    → Leaves answers (length buf - total) (send_loop answers buf total wire)
unfolding send_loop
send_loop-Leaves [] buf total wire patient = (tt, omega arith)
send_loop-Leaves (answer ∷ rest) buf total wire patient =
    elim (Bool-cases (ltb total (length buf))) [
      | inl more ↦
          send_more-Leaves answer rest buf total wire patient more
            (λ t w. send_loop-Leaves rest buf t w (later answer rest patient))
      | inr done ↦
          subst (Leaves (answer ∷ rest) (length buf - total))
            (sym (step_done rest buf total wire answer done)) (patient, omega arith)
    ]

body_sent :
    (r : SendRun) (buf : Bytes)
    → r.status ≡ returned true
    → (send_all r.answers buf).status ≡ returned true
    → (send_body r buf).status ≡ frame_sent
unfolding send_body body_run
body_sent r buf ok ok' = rw (ok, ok') refl

-- A kernel that only interrupts, or takes at least a byte, and that takes so as many times as the
-- size and the message have bytes, takes all of both.
pub send_frame-sent :
    (answers : List SendResult) (buf : Bytes)
    → IsPatient answers
    → 4 + length buf ≤ takes answers
    → (send_frame answers buf).status ≡ frame_sent
unfolding send_frame
send_frame-sent answers buf patient enough =
    let r = send_all answers (htonl (length buf)) in
    let (h, few) = size_left in
    body_sent r buf
      (send_all-returned answers (htonl (length buf)) patient
        (omega (arith, takes-capacity answers patient, four)))
      (send_all-returned r.answers buf h (omega (arith, takes-capacity r.answers h, few)))
  where
    four : length (htonl (length buf)) ≡ 4
    four = unfold htonl in refl

    size_left : Leaves answers 4 (send_all answers (htonl (length buf)))
    size_left =
        unfold send_all in
        subst (λ n. Leaves answers n (send_loop answers (htonl (length buf)) 0 []))
          (omega (arith, four)) (send_loop-Leaves answers (htonl (length buf)) 0 [] patient)
