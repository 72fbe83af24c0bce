-- ===== src/TcpHandler.antt =====
-- workspace/master/src/tcp_connection_to_storage/tcp_handler.rs: how the master takes the messages
-- of a storage node out of the bytes of its connection. `read_u32` and `read_exact` are the
-- functions of tokio, on a stream that has ended behind the bytes.
pub mod Tasks
pub mod Turns
pub mod Running
pub mod Apart
pub mod Others
pub mod Alone
pub mod Fresh
pub mod Told
pub mod Located
use distributed_file_system.Base.{
  ℕ, zero, suc, ◌+◌, ◌*◌, Option, none, some, List, [], ◌∷◌, take, drop, length, Bytes, leb, ◌>>=◌,
  if◌then◌else◌,
}
use distributed_file_system.Proto.{MessageFromStorageToMaster, Protobuf}

-- The number of four bytes, the highest first.
unfoldable pub read_u32 : Bytes → Option (ℕ × Bytes)
read_u32 (a ∷ b ∷ c ∷ d ∷ stream) = some (a * 16777216 + b * 65536 + c * 256 + d, stream)
read_u32 _ = none

unfoldable pub read_exact : (size : ℕ) → Bytes → Option (Bytes × Bytes)
read_exact size stream =
    if leb size (length stream) then some (take size stream, drop size stream) else none

-- The size, then as many bytes.
unfoldable pub read_frame : Bytes → Option (Bytes × Bytes)
read_frame stream = do (size, stream) ← read_u32 stream; read_exact size stream

module _ (p : Protobuf) where
  -- The loop: the messages that it hands on, `none` for one that does not decode, until a read
  -- fails. A round takes at least four bytes.
  unfoldable pub read_messages : (fuel : ℕ) → Bytes → List (Option MessageFromStorageToMaster)
  read_messages zero stream = []
  read_messages (suc fuel) stream = elim (read_frame stream) [
    | none ↦ []
    | some (buf, stream') ↦ p.decode buf ∷ read_messages fuel stream'
  ]
