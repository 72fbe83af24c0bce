-- ===== src/TcpClient/Connect.antt =====
-- storageLayer/tcpClient/client.c: `create_socket`, `connect_to_server` and `cleanup`, with the
-- constants of storageLayer/headers/tcpClient.h. The calls of the kernel are a parameter.
use distributed_file_system.Base.{
  ℕ, ◌≡◌, ap, sym, ◌∙◌, inl, inr, true, false, arith, Bool-cases, Option-cases, ◌/◌, ◌%◌, Bool,
  Option, none, some, List, [], ◌∷◌, ◌++◌, Bytes, codes, ◌>>=◌, if◌then◌else◌,
}
use distributed_file_system.Base.Int.{ℤ, pos, int_eq, int_ltb}
use distributed_file_system.Decimal.{show_nat}

abbrev pub buffer_size : ℕ
buffer_size = 1024

abbrev pub server_ip : Bytes
server_ip = codes "127.0.0.1"

abbrev pub server_port : ℕ
server_port = 8001

-- A `struct sockaddr_in` of the family AF_INET, the port in the order of the network.
pub record SockaddrIn : Type 0 where
  pub sin_port : Bytes
  pub sin_addr : Bytes

-- What the kernel and the C library answer: the descriptor of a new socket or a negative number, the
-- address that a text stands for, if it is one, and whether a connection is made.
pub record Network : Type 0 where
  pub socket : ℤ
  pub inet_pton : Bytes → Option Bytes
  pub connect : ℤ → SockaddrIn → Bool

-- The bytes of `htons(port)`.
unfoldable pub htons : ℕ → Bytes
htons port = (port / 256 % 256) ∷ (port % 256) ∷ []

-- The descriptor, `none` where the process exits.
unfoldable pub create_socket : Network → Option ℤ
create_socket n = if int_ltb n.socket (pos 0) then none else some n.socket

-- What is printed once the connection stands.
abbrev pub connected_text : Bytes
connected_text =
    codes "Connected to server at " ++ server_ip ++ codes ":" ++ show_nat server_port ++ 10 ∷ []

unfoldable pub connect_at : Network → (socket_fd : ℤ) → SockaddrIn → Option (SockaddrIn × Bytes)
connect_at n socket_fd server_addr =
    if n.connect socket_fd server_addr then some (server_addr, connected_text) else none

abbrev pub address : Bytes → SockaddrIn
address sin_addr = record { sin_port = htons server_port; sin_addr = sin_addr }

-- The address that was connected to, and what is printed; `none` where the process exits.
unfoldable pub connect_to_server : Network → (socket_fd : ℤ) → Option (SockaddrIn × Bytes)
unfolding connect_at
connect_to_server n socket_fd = do
  sin_addr ← n.inet_pton server_ip
  connect_at n socket_fd (address sin_addr)

-- The descriptors that are open after `cleanup`, and what it prints.
unfoldable pub close : ℤ → List ℤ → List ℤ
close fd [] = []
close fd (x ∷ xs) = if int_eq x fd then xs else x ∷ close fd xs

unfoldable pub cleanup : (socket_fd : ℤ) → (open_fds : List ℤ) → List ℤ × Bytes
unfolding close
cleanup socket_fd open_fds = (close socket_fd open_fds, codes "Disconnected\n")

abbrev connected : SockaddrIn → SockaddrIn × Bytes
connected a = (a, connected_text)

pub create_socket-some :
    (n : Network) (fd : ℤ)
    → create_socket n ≡ some fd
    → (fd ≡ n.socket) × (int_ltb fd (pos 0) ≡ false)
unfolding create_socket
create_socket-some n fd h = elim (Bool-cases (int_ltb n.socket (pos 0))) [
  | inl negative ↦ absurd (ground arith)
  | inr valid ↦
      let same : n.socket ≡ fd = ground arith in
      (sym same, ap (λ z. int_ltb z (pos 0)) (sym same) ∙ valid)
]

connect_at-some :
    (n : Network) (fd : ℤ) (a b : SockaddrIn) (text : Bytes)
    → connect_at n fd a ≡ some (b, text)
    → (b ≡ a) × (n.connect fd b ≡ true) × (text ≡ connected_text)
unfolding connect_at
connect_at-some n fd a b text h = elim (Bool-cases (n.connect fd a)) [
  | inr refused ↦ absurd (ground arith)
  | inl made ↦
      let made_same : connected a ≡ (b, text) = ground arith in
      (
        sym (ap (λ x. x.0) made_same),
        ap (λ x. n.connect fd x.0) (sym made_same) ∙ made,
        sym (ap (λ x. x.1) made_same),
      )
]

pub connect_to_server-some :
    (n : Network) (fd : ℤ) (b : SockaddrIn) (text : Bytes)
    → connect_to_server n fd ≡ some (b, text)
    → (a : Bytes) × (n.inet_pton server_ip ≡ some a)
      × (b ≡ address a)
      × (n.connect fd b ≡ true)
      × (text ≡ connected_text)
unfolding connect_to_server
connect_to_server-some n fd b text h =
    let next = λ (o : Option Bytes). o >>= λ a. connect_at n fd (address a) in
    elim (Option-cases (n.inet_pton server_ip)) [
      | inl bad ↦ absurd (none-some (sym (ap next bad) ∙ h))
      | inr (a, is_address) ↦
          let (to, made, said) =
            connect_at-some n fd (address a) b text (sym (ap next is_address) ∙ h) in
          (a, is_address, to, made, said)
    ]
  where
    none-some : {x : SockaddrIn × Bytes} → none ≡ some x → ⊥
    none-some e = cc
