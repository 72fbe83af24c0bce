-- ===== src/TcpClient/Send.antt =====
-- What `send_all` puts on the wire, and when it ends.
use distributed_file_system.Base.{
  ℕ, zero, suc, ◌+◌, ◌≤◌, ◌<◌, ◌≡◌, ◌≢◌, refl, ap, sym, ◌∙◌, ◌⊎◌, inl, inr, Bool-cases, true, false,
  List, [], ◌∷◌, ◌++◌, take, drop, length, min, arith, Bytes, ltb, ltb→lt, take-take-drop, subst,
}
use distributed_file_system.TcpClient.{
  SendResult, send_error, sent, returned, SendRun, send_loop, send_all,
}

-- A run put out the first bytes of the buffer: all of them exactly if it returned true.
abbrev pub SendsPrefix : Bytes → SendRun → Type 0
SendsPrefix buf r =
    (n : ℕ) × (r.wire ≡ take n buf)
    × (((n ≡ length buf) × (r.status ≡ returned true))
        ⊎ ((n < length buf) × (r.status ≢ returned true)))

module _ (rest : List SendResult) (buf : Bytes) (total : ℕ) (wire : Bytes) where
  pub step_done :
      (answer : SendResult)
      → ltb total (length buf) ≡ false
      → send_loop (answer ∷ rest) buf total wire
        ≡ record { status = returned true; wire = wire; answers = answer ∷ rest }
  unfolding send_loop
  step_done answer done = rw (done, send_loop) refl

  module _ (more : ltb total (length buf) ≡ true) where
    pub step_error :
        send_loop (send_error false ∷ rest) buf total wire
        ≡ record { status = returned false; wire = wire; answers = rest }
    unfolding send_loop
    step_error = rw (more, send_loop) refl

    pub step_eintr :
        send_loop (send_error true ∷ rest) buf total wire ≡ send_loop rest buf total wire
    unfolding send_loop
    step_eintr = ground arith

    step_closed :
        send_loop (sent 0 ∷ rest) buf total wire
        ≡ record { status = returned false; wire = wire; answers = rest }
    unfolding send_loop
    step_closed = rw (more, send_loop) refl

    pub step_sent :
        (k : ℕ)
        → send_loop (sent (suc k) ∷ rest) buf total wire
          ≡ send_loop rest buf
              (min (length buf) (total + suc k))
              (wire ++ take (suc k) (drop total buf))
    unfolding send_loop
    step_sent k = ground arith

send_more-SendsPrefix :
    (answer : SendResult) (rest : List SendResult) (buf : Bytes) (total : ℕ)
    → total ≤ length buf
    → ltb total (length buf) ≡ true
    → ((t : ℕ) → t ≤ length buf → SendsPrefix buf (send_loop rest buf t (take t buf)))
    → SendsPrefix buf (send_loop (answer ∷ rest) buf total (take total buf))
send_more-SendsPrefix (send_error true) rest buf total h more ih =
    subst (SendsPrefix buf) (sym (step_eintr rest buf total (take total buf) more)) (ih total h)
send_more-SendsPrefix (send_error false) rest buf total h more ih =
    subst (SendsPrefix buf) (sym (step_error rest buf total (take total buf) more))
      (total, refl, inr (ltb→lt _ _ more, λ e. cc))
send_more-SendsPrefix (sent zero) rest buf total h more ih =
    subst (SendsPrefix buf) (sym (step_closed rest buf total (take total buf) more))
      (total, refl, inr (ltb→lt _ _ more, λ e. cc))
send_more-SendsPrefix (sent (suc k)) rest buf total h more ih =
    let next : ℕ = min (length buf) (total + suc k) in
    subst (SendsPrefix buf)
      (sym (
        step_sent rest buf total (take total buf) more k
        ∙ ap (send_loop rest buf next) (take-take-drop total (suc k) buf)))
      (ih next (omega arith))

send_loop-SendsPrefix :
    (answers : List SendResult) (buf : Bytes) (total : ℕ)
    → total ≤ length buf
    → SendsPrefix buf (send_loop answers buf total (take total buf))
unfolding send_loop
send_loop-SendsPrefix [] buf total h = elim (Bool-cases (ltb total (length buf))) [
  | inl more ↦ (total, refl, inr (ltb→lt _ _ more, ground arith))
  | inr done ↦ (total, refl, inl (ground arith, ground arith))
]
send_loop-SendsPrefix (answer ∷ rest) buf total h = elim (Bool-cases (ltb total (length buf))) [
  | inl more ↦
      send_more-SendsPrefix answer rest buf total h more
        (λ t below. send_loop-SendsPrefix rest buf t below)
  | inr done ↦
      subst (SendsPrefix buf) (sym (step_done rest buf total (take total buf) answer done))
        (total, refl, inl (ground arith, refl))
]

-- Whatever the kernel answers, the bytes on the wire are a first part of the buffer. `send_all`
-- returns true exactly when it is all of the buffer.
pub send_all-SendsPrefix :
    (answers : List SendResult) (buf : Bytes) → SendsPrefix buf (send_all answers buf)
unfolding send_all
send_all-SendsPrefix answers buf = send_loop-SendsPrefix answers buf 0 (omega arith)

-- The bytes that a kernel without failures takes; the interrupts take none.
abbrev pub capacity : List SendResult → ℕ
capacity [] = 0
capacity (send_error eintr ∷ rest) = capacity rest
capacity (sent n ∷ rest) = n + capacity rest

abbrev pub IsPatient : List SendResult → Type 0
IsPatient [] = Unit {0}
IsPatient (send_error eintr ∷ rest) = (eintr ≡ true) × IsPatient rest
IsPatient (sent n ∷ rest) = (0 < n) × IsPatient rest

pub later :
    (answer : SendResult) (rest : List SendResult) → IsPatient (answer ∷ rest) → IsPatient rest
later (send_error eintr) rest (_, patient) = patient
later (sent n) rest (_, patient) = patient

send_more-returned :
    (answer : SendResult) (rest : List SendResult) (buf : Bytes) (total : ℕ) (wire : Bytes)
    → IsPatient (answer ∷ rest)
    → length buf ≤ total + capacity (answer ∷ rest)
    → ltb total (length buf) ≡ true
    → ((t : ℕ) (w : Bytes)
        → length buf ≤ t + capacity rest
        → (send_loop rest buf t w).status ≡ returned true)
    → (send_loop (answer ∷ rest) buf total wire).status ≡ returned true
send_more-returned (send_error true) rest buf total wire patient enough more ih =
    ap (λ r. r.status) (step_eintr rest buf total wire more) ∙ ih total wire enough
send_more-returned (send_error false) rest buf total wire (eintr, _) enough more ih = absurd cc
send_more-returned (sent zero) rest buf total wire (positive, _) enough more ih =
    absurd (omega arith)
send_more-returned (sent (suc k)) rest buf total wire patient enough more ih =
    ap (λ r. r.status) (step_sent rest buf total wire more k)
    ∙ ih (min (length buf) (total + suc k)) (wire ++ take (suc k) (drop total buf)) (omega arith)

send_loop-returned :
    (answers : List SendResult) (buf : Bytes) (total : ℕ) (wire : Bytes)
    → IsPatient answers
    → length buf ≤ total + capacity answers
    → (send_loop answers buf total wire).status ≡ returned true
unfolding send_loop
send_loop-returned [] buf total wire patient enough = ground arith
send_loop-returned (answer ∷ rest) buf total wire patient enough =
    elim (Bool-cases (ltb total (length buf))) [
      | inl more ↦
          send_more-returned answer rest buf total wire patient enough more
            (λ t w h. send_loop-returned rest buf t w (later answer rest patient) h)
      | inr done ↦ ap (λ r. r.status) (step_done rest buf total wire answer done)
    ]

-- A kernel that only interrupts, or takes at least a byte, and that offers room for the whole
-- buffer brings `send_all` to return true.
pub send_all-returned :
    (answers : List SendResult) (buf : Bytes)
    → IsPatient answers
    → length buf ≤ capacity answers
    → (send_all answers buf).status ≡ returned true
unfolding send_all
send_all-returned answers buf patient enough =
    send_loop-returned answers buf 0 [] patient (omega arith)
