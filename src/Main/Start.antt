-- ===== src/Main/Start.antt =====
-- storageLayer/main.c: from the start of `main` to its two threads.
use distributed_file_system.Base.{Bool, true, false, Option, none, some, List, Bytes}
use distributed_file_system.Base.Int.{ℤ}
use distributed_file_system.Disk.{Disk}
use distributed_file_system.Proto.{Protobuf}
use distributed_file_system.TcpClient.{
  SendResult, frame_sent, size_failed, body_failed, frame_waiting, FrameRun, send_initial_message,
}
use distributed_file_system.TcpClient.Connect.{
  SockaddrIn, Network, create_socket, connect_to_server,
}
use distributed_file_system.Main.{System, started}

-- How far `main` came: to a result, to an `exit`, to a fault, or it still waits in `send`.
pub data Begun {ℓ} (A : Type ℓ) : Type ℓ where
  began : A → Begun A
  exited faulted sending : Begun A

infixl 5 ◌>>=◌
abbrev pub ◌>>=◌ {ℓ κ} : {A : Type ℓ} {B : Type κ} → Begun A → (A → Begun B) → Begun B
began a >>= f = f a
exited >>= f = exited
faulted >>= f = faulted
sending >>= f = sending

-- What `main` meets: whether the two calls of `malloc` and that of `join_message` succeed, the
-- network, the answers to `send`, and whether the threads are made.
pub record Startup : Type 0 where
  pub state_allocated : Bool
  pub network : Network
  pub join_allocated : Bool
  pub answers : List SendResult
  pub args_allocated : Bool
  pub thread1_created : Bool
  pub thread2_created : Bool

-- A NULL that is written through, and a thread that is joined though it was never made.
abbrev pub fault_unless : Bool → Begun (Unit {0})
fault_unless true = began tt
fault_unless false = faulted

abbrev pub exit_unless {ℓ} : {A : Type ℓ} → Option A → Begun A
exit_unless none = exited
exit_unless (some a) = began a

-- After `send_initial_message`.
unfoldable pub after_join : Option FrameRun → Begun Bytes
after_join none = faulted
after_join (some run) = elim run.status [
  | frame_sent ↦ began run.wire
  | size_failed ↦ exited
  | body_failed ↦ exited
  | frame_waiting ↦ sending
]

module _ (d : Disk) where
  -- The system with both threads, the socket, whom it is connected to, what was printed and what was
  -- sent.
  pub record Start : Type 0 where
    pub system : System d
    pub socket_fd : ℤ
    pub server_addr : SockaddrIn
    pub printed : Bytes
    pub wire : Bytes

  unfoldable pub main_start : Protobuf → Startup → d.State → Begun Start
  unfolding after_join
  main_start p e disk = do
    _ ← fault_unless e.state_allocated
    socket_fd ← exit_unless (create_socket e.network)
    (server_addr, printed) ← exit_unless (connect_to_server e.network socket_fd)
    wire ← after_join (send_initial_message p e.join_allocated e.answers)
    _ ← fault_unless e.args_allocated
    _ ← fault_unless e.thread1_created
    _ ← fault_unless e.thread2_created
    began (record {
      system = started d disk;
      socket_fd = socket_fd;
      server_addr = server_addr;
      printed = printed;
      wire = wire;
    })
