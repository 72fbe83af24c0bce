-- ===== src/Tests/Wire.antt =====
-- Messages to the master, on concrete answers of the kernel.
use distributed_file_system.Base.{
  ◌<◌, ◌≡◌, refl, Bool, true, false, some, List, [], ◌∷◌, ◌++◌, arith, codes,
}
use distributed_file_system.Proto.{health}
use distributed_file_system.State.{catalogue, mapping_of}
use distributed_file_system.TcpHandler.{read_frame, read_messages}
use distributed_file_system.TcpClient.{
  SendResult, send_error, sent, returned, send_loop, send_all, htonl, frame_sent, body_run,
  send_body, send_frame, received, Round, going_on, receive_messages,
}
use distributed_file_system.TcpClient.Send.{IsPatient, SendsPrefix, send_all-SendsPrefix}
use distributed_file_system.TcpClient.Framing.{send_frame-read}
use distributed_file_system.TcpClient.Patience.{send_frame-sent}
use distributed_file_system.Proto.{continuation, is_utf8_from}
use distributed_file_system.TcpClient.Receive.{IsHealthy, receive_messages-read_messages}
use distributed_file_system.Tests.{table_a, table_ab, table_a-IsValid, table_ab-IsValid}
use distributed_file_system.Tests.Format.{format, format-HasSizes, format-IsReadable}

-- A kernel that fails after a first piece.
abbrev failing : List SendResult
failing = sent 3 ∷ send_error false ∷ []

send_all-SendsPrefix_example : SendsPrefix (codes "hello") (send_all failing (codes "hello"))
send_all-SendsPrefix_example = send_all-SendsPrefix failing (codes "hello")

failing_run :
    send_all failing (codes "hello")
    ≡ record { status = returned false; wire = codes "hel"; answers = [] }
unfolding send_all send_loop
failing_run = refl

-- The size goes out in one piece, the message in two.
abbrev in_pieces : List SendResult
in_pieces = sent 4 ∷ sent 3 ∷ send_error true ∷ sent 2 ∷ []

sent_hello : (send_frame in_pieces (codes "hello")).status ≡ frame_sent
unfolding send_frame send_body body_run send_all send_loop htonl
sent_hello = refl

send_frame-read_example :
    read_frame ((send_frame in_pieces (codes "hello")).wire ++ codes "rest")
    ≡ some (codes "hello", codes "rest")
send_frame-read_example =
    send_frame-read in_pieces (codes "hello") (codes "rest") (omega arith) sent_hello

-- Two rounds: the table of `a` and `b`, then the one that is left when `b` is removed.
abbrev pub first_round : Round
first_round = record {
  recv = received (9 ∷ 0 ∷ []);
  allocated = true;
  state = table_ab;
  intact = true;
  counts = λ i. 2;
  answers = sent 4 ∷ send_error true ∷ sent 5 ∷ sent 7 ∷ [];
}

abbrev pub second_round : Round
second_round = record {
  recv = received (9 ∷ 0 ∷ []);
  allocated = true;
  state = table_a;
  intact = true;
  counts = λ i. 1;
  answers = sent 3 ∷ sent 1 ∷ sent 7 ∷ [];
}

pub first_round-IsHealthy : IsHealthy format first_round
unfolding send_frame send_body body_run send_all send_loop htonl catalogue mapping_of continuation
    is_utf8_from
first_round-IsHealthy = record {
  buffer = 9 ∷ 0 ∷ [];
  message = record { id = 9 ∷ [] };
  came = refl;
  unpacked = refl;
  allocated = refl;
  valid = table_ab-IsValid;
  intact = refl;
  kept = λ i. omega arith;
  text = ((refl, (omega arith, tt)), ((refl, (omega arith, tt)), tt));
  short = omega arith;
  sent = refl;
}

pub second_round-IsHealthy : IsHealthy format second_round
unfolding send_frame send_body body_run send_all send_loop htonl catalogue mapping_of continuation
    is_utf8_from
second_round-IsHealthy = record {
  buffer = 9 ∷ 0 ∷ [];
  message = record { id = 9 ∷ [] };
  came = refl;
  unpacked = refl;
  allocated = refl;
  valid = table_a-IsValid;
  intact = refl;
  kept = λ i. omega arith;
  text = ((refl, (omega arith, tt)), tt);
  short = omega arith;
  sent = refl;
}

abbrev pub two_rounds : List (Bool × Round)
two_rounds = (true, first_round) ∷ (true, second_round) ∷ []

receive_messages-read_messages_example :
    ((receive_messages format two_rounds).0 ≡ going_on)
    × (read_messages format 2 (receive_messages format two_rounds).1
        ≡ some (health (catalogue table_ab)) ∷ some (health (catalogue table_a)) ∷ [])
receive_messages-read_messages_example =
    receive_messages-read_messages format format-HasSizes format-IsReadable two_rounds 2
      (refl, first_round-IsHealthy, (refl, second_round-IsHealthy, tt)) (omega arith)

-- Nine answers of a byte, and an interrupt.
abbrev slow : List SendResult
slow =
    sent 1
    ∷ sent 1
    ∷ sent 1
    ∷ sent 1
    ∷ send_error true
    ∷ sent 1
    ∷ sent 1
    ∷ sent 1
    ∷ sent 1
    ∷ sent 1
    ∷ []

slow-IsPatient : IsPatient slow
slow-IsPatient = (one, (one, (one, (one, (refl, (one, (one, (one, (one, (one, tt))))))))))
  where
    one : 0 < 1
    one = omega arith

send_frame-sent_example : (send_frame slow (codes "hello")).status ≡ frame_sent
send_frame-sent_example = send_frame-sent slow (codes "hello") slow-IsPatient (omega arith)
