-- ===== src/TcpClient.antt =====
-- storageLayer/tcpClient/client.c and storageLayer/tcpClient/protoHandler/serialize.c: the
-- connection of a storage node to the master. The answers of the kernel to `send` and `recv` are
-- lists; a call that finds none left is still waiting.
pub mod Send
pub mod Framing
pub mod Patience
pub mod Receive
pub mod Connect
use distributed_file_system.Base.{
  ℕ, zero, suc, ◌+◌, ◌-◌, ◌*◌, ◌/◌, ◌%◌, Bool, true, false, Option, none, some, List, [], ◌∷◌, ◌++◌,
  take, drop, length, min, Bytes, ltb, ◌>>=◌, if◌then◌else◌,
}
use distributed_file_system.Proto.{MessageFromStorageToMaster, join, Protobuf}
use distributed_file_system.State.{StorageStateOuter}
use distributed_file_system.State.Encode.{pack_message, return_current_state_encoded_in_protobufs}

-- What `send` returns: -1, with `errno` EINTR or not, or how many of the offered bytes it took.
pub data SendResult : Type 0 where
  send_error : (eintr : Bool) → SendResult
  sent : ℕ → SendResult

-- A call of `send_all`: what it returned, or that it still waits.
pub data SendStatus : Type 0 where
  returned : Bool → SendStatus
  waiting : SendStatus

-- The bytes that went out, and the answers of the kernel that are left.
pub record SendRun : Type 0 where
  pub status : SendStatus
  pub wire : Bytes
  pub answers : List SendResult

-- The loop: an interrupted call is made again, any other error and a closed socket end it. `send`
-- takes at most the bytes that it is offered.
unfoldable pub send_loop : List SendResult → (buf : Bytes) → (total_sent : ℕ) → Bytes → SendRun
send_loop [] buf total_sent wire = record {
  status = if ltb total_sent (length buf) then waiting else returned true;
  wire = wire;
  answers = [];
}
send_loop (answer ∷ rest) buf total_sent wire = elim (ltb total_sent (length buf)) [
  | false ↦ record { status = returned true; wire = wire; answers = answer ∷ rest }
  | true ↦ elim answer [
    | send_error eintr ↦ elim eintr [
      | true ↦ send_loop rest buf total_sent wire
      | false ↦ record { status = returned false; wire = wire; answers = rest }
    ]
    | sent n ↦ elim n [
      | zero ↦ record { status = returned false; wire = wire; answers = rest }
      | suc k ↦
          send_loop rest buf (min (length buf) (total_sent + suc k))
            (wire ++ take (suc k) (drop total_sent buf))
    ]
  ]
]

-- `send_all(fd, buf, len)`
unfoldable pub send_all : List SendResult → Bytes → SendRun
send_all answers buf = send_loop answers buf 0 []

-- The bytes of `htonl((uint32_t)len)`.
unfoldable pub htonl : ℕ → Bytes
htonl len =
    let n = len % 4294967296 in
    (n / 16777216) ∷ (n / 65536 % 256) ∷ (n / 256 % 256) ∷ (n % 256) ∷ []

-- How a message was sent: all of it, the size not, the size but not the message, or not yet.
pub data FrameStatus : Type 0 where
  frame_sent size_failed body_failed frame_waiting : FrameStatus

pub record FrameRun : Type 0 where
  pub status : FrameStatus
  pub wire : Bytes
  pub answers : List SendResult

-- What the second `send_all` adds.
unfoldable pub body_run : (wire : Bytes) → SendRun → FrameRun
body_run wire r = record {
  status = elim r.status [
    | waiting ↦ frame_waiting
    | returned ok ↦ if ok then frame_sent else body_failed
  ];
  wire = wire ++ r.wire;
  answers = r.answers;
}

-- The message, behind its size.
unfoldable pub send_body : SendRun → Bytes → FrameRun
send_body r buf = elim r.status [
  | waiting ↦ record { status = frame_waiting; wire = r.wire; answers = r.answers }
  | returned ok ↦ elim ok [
    | false ↦ record { status = size_failed; wire = r.wire; answers = r.answers }
    | true ↦ body_run r.wire (send_all r.answers buf)
  ]
]

-- `send_all` of the size, then `send_all` of the message.
unfoldable pub send_frame : List SendResult → Bytes → FrameRun
unfolding send_body body_run
send_frame answers buf = send_body (send_all answers (htonl (length buf))) buf

-- What a call of `recv` returns: -1, 0, or some bytes, at most 1023.
pub data RecvResult : Type 0 where
  recv_error closed : RecvResult
  received : Bytes → RecvResult

-- A round of `receive_messages` as its surroundings make it: what `recv` returns, whether the
-- calls of `malloc` succeed, the table when the message is made, whether what the mappings point to
-- stays allocated and in place until it is packed, the `num_file_count` that each read after the
-- lock finds, and the answers to `send`.
pub record Round : Type 0 where
  pub recv : RecvResult
  pub allocated : Bool
  pub state : StorageStateOuter
  pub intact : Bool
  pub counts : ℕ → ℕ
  pub answers : List SendResult

-- How the thread stands: it has set `*shouldWork` to false and returned, the process has exited,
-- it has faulted, it waits in `send`, or it goes on.
pub data Ending : Type 0 where
  stopped exited faulted blocked going_on : Ending

-- After the frame of a round.
unfoldable pub after_frame : FrameStatus → Ending
after_frame frame_sent = going_on
after_frame size_failed = exited
after_frame body_failed = stopped
after_frame frame_waiting = blocked

module _ (p : Protobuf) where
  -- `join_message`
  unfoldable pub join_message : (allocated : Bool) → Option Bytes
  join_message allocated = pack_message p allocated join

  -- `send_initial_message`: what was sent, `none` for a fault. Where it fails the process exits.
  unfoldable pub send_initial_message : (allocated : Bool) → List SendResult → Option FrameRun
  send_initial_message allocated answers = do
    buf ← join_message allocated
    some (send_frame answers buf)

  unfoldable pub answer_round : Round → Ending × Bytes
  answer_round r =
      elim (return_current_state_encoded_in_protobufs p r.allocated r.intact r.state r.counts) [
        | none ↦ (faulted, [])
        | some (buf, leaked) ↦
            let run = send_frame r.answers buf in (after_frame run.status, run.wire)
      ]

  -- One round of the loop: how it ends, and the bytes that it sends. The last byte that came is
  -- left out of the message to unpack.
  unfoldable pub receive_round : Round → Ending × Bytes
  receive_round r = elim r.recv [
    | recv_error ↦ (stopped, [])
    | closed ↦ (stopped, [])
    | received buffer ↦ elim (p.unpack (take (length buffer - 1) buffer)) [
      | none ↦ (stopped, [])
      | some msg ↦ answer_round r
    ]
  ]

  -- The loop. The first flag of a pair is `*shouldWork` as the round begins.
  unfoldable pub receive_messages : List (Bool × Round) → Ending × Bytes
  receive_messages [] = (going_on, [])
  receive_messages ((should_work, r) ∷ rest) =
      let (ending, wire) = receive_round r in
      let (ending', wire') = receive_messages rest in
      if should_work
      then elim ending [ going_on ↦ (ending', wire ++ wire') | other ↦ (other, wire) ]
      else (stopped, [])
