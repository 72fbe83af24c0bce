-- ===== src/TcpClient/Framing.antt =====
-- The frame that `send_initial_message` and `receive_messages` send, against the reader of
-- workspace/master/src/tcp_connection_to_storage/tcp_handler.rs.
use distributed_file_system.Base.{
  ℕ, ◌+◌, ◌*◌, ◌/◌, ◌%◌, ◌<◌, ◌≡◌, refl, ap, ◌∙◌, inl, inr, true, false, some, List, [], ◌∷◌, ◌++◌,
  append_assoc, take, drop, length, length-append, take-all, take-append_left, arith, Bytes, le→leb,
}
use distributed_file_system.TcpHandler.{read_u32, read_exact, read_frame}
use distributed_file_system.TcpClient.{
  SendResult, SendStatus, returned, waiting, send_all, htonl, frame_sent, body_run, send_body,
  send_frame,
}
use distributed_file_system.TcpClient.Send.{send_all-SendsPrefix}

-- What `send_all` put out if it returned true.
sent-wire :
    (answers : List SendResult) (buf : Bytes)
    → (send_all answers buf).status ≡ returned true
    → (send_all answers buf).wire ≡ buf
sent-wire answers buf e =
    let (n, wire, cases) = send_all-SendsPrefix answers buf in
    elim cases [
      | inl (all, _) ↦ wire ∙ take-all n buf (omega arith)
      | inr (_, other) ↦ absurd (other e)
    ]

body_run-sent :
    (wire : Bytes) (status : SendStatus) (w : Bytes) (rest : List SendResult)
    → (body_run wire (record { status = status; wire = w; answers = rest })).status ≡ frame_sent
    → status ≡ returned true
unfolding body_run
body_run-sent wire (returned true) w rest e = refl
body_run-sent wire (returned false) w rest e = absurd cc
body_run-sent wire waiting w rest e = absurd cc

send_body-sent :
    (status : SendStatus) (w : Bytes) (rest : List SendResult) (buf : Bytes)
    → let r = send_body (record { status = status; wire = w; answers = rest }) buf in
      r.status ≡ frame_sent → (status ≡ returned true) × (r.wire ≡ w ++ buf)
unfolding send_body body_run
send_body-sent waiting w rest buf e = absurd cc
send_body-sent (returned false) w rest buf e = absurd cc
send_body-sent (returned true) w rest buf e =
    let r = send_all rest buf in
    (refl, ap (◌++◌ w) (sent-wire rest buf (body_run-sent w r.status r.wire r.answers e)))

pub send_frame-wire :
    (answers : List SendResult) (buf : Bytes)
    → (send_frame answers buf).status ≡ frame_sent
    → (send_frame answers buf).wire ≡ htonl (length buf) ++ buf
unfolding send_frame
send_frame-wire answers buf e =
    let r = send_all answers (htonl (length buf)) in
    let (ok, wire) = send_body-sent r.status r.wire r.answers buf e in
    wire ∙ ap (λ w. w ++ buf) (sent-wire answers (htonl (length buf)) ok)

read_u32-htonl :
    (n : ℕ) (stream : Bytes) → n < 4294967296 → read_u32 (htonl n ++ stream) ≡ some (n, stream)
unfolding read_u32 htonl
read_u32-htonl n stream h =
    let whole : n % 4294967296 / 16777216 * 16777216
          + n % 4294967296 / 65536 % 256 * 65536
          + n % 4294967296 / 256 % 256 * 256
          + n % 4294967296 % 256
        ≡ n =
      omega arith in
    ap (λ k. some (k, stream)) whole

drop-length-append : (buf rest : Bytes) → drop (length buf) (buf ++ rest) ≡ rest
drop-length-append [] rest = refl
drop-length-append (c ∷ buf) rest = drop-length-append buf rest

take-length-append : (buf rest : Bytes) → take (length buf) (buf ++ rest) ≡ buf
take-length-append buf rest =
    take-append_left (length buf) buf rest (omega arith) ∙ take-all (length buf) buf (omega arith)

read_exact-append : (buf rest : Bytes) → read_exact (length buf) (buf ++ rest) ≡ some (buf, rest)
unfolding read_exact
read_exact-append buf rest =
    rw
      (
        le→leb (length buf) (length (buf ++ rest)) (omega (arith, length-append buf rest)),
        take-length-append buf rest,
        drop-length-append buf rest,
      )
      refl

-- A message shorter than 4 GiB that was sent whole is what the master reads, whatever pieces the
-- kernel took it in, and what follows it on the connection is left for the next read.
pub send_frame-read :
    (answers : List SendResult) (buf rest : Bytes)
    → length buf < 4294967296
    → (send_frame answers buf).status ≡ frame_sent
    → read_frame ((send_frame answers buf).wire ++ rest) ≡ some (buf, rest)
unfolding read_frame
send_frame-read answers buf rest h e =
    rw
      (
        send_frame-wire answers buf e,
        append_assoc (htonl (length buf)) buf rest,
        read_u32-htonl (length buf) (buf ++ rest) h,
      )
      (read_exact-append buf rest)
