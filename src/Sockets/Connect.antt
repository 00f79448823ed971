-- ===== src/Sockets/Connect.antt =====
-- The other calls in socketfunc.c that wait or retry. An exit of the process is a result of its own.
use http2rtsp.Prelude.{ℕ, Bool, Option, none, some, List, [], ◌∷◌, if◌then◌else◌}
use http2rtsp.Prelude.Int.{ℤ, pos, negsuc}
use http2rtsp.Sockets.{Address, open_socket}

-- `connect` or `select`: done, interrupted by a signal, or an error.
pub data CallResult {ℓ} (A : Type ℓ) : Type ℓ where
  done : A → CallResult A
  signalled : CallResult A
  refused : CallResult A

pub data Ended {ℓ} (A : Type ℓ) : Type ℓ where
  value : A → Ended A
  exit_process : Ended A

-- The loop of `udp_connected`: `none` if it has used all the results.
unfoldable pub connect_loop : List (CallResult (Unit {0})) → ℕ → Option (Ended ℕ)
connect_loop [] sockfd = none
connect_loop (done _ ∷ results) sockfd = some (value sockfd)
connect_loop (signalled ∷ results) sockfd = connect_loop results sockfd
connect_loop (refused ∷ results) sockfd = some exit_process

-- `socket` is what the first call gives.
unfoldable pub udp_connected : Option ℕ → List (CallResult (Unit {0})) → Option (Ended ℕ)
unfolding connect_loop
udp_connected none results = some exit_process
udp_connected (some sockfd) results = connect_loop results sockfd

-- `Select` gives -1 for a signal and exits for any other error.
unfoldable pub select_ready : CallResult ℕ → Ended ℤ
select_ready (done n) = value (pos n)
select_ready signalled = value (negsuc 0)
select_ready refused = exit_process

abbrev pub portinuse : ℤ
portinuse = negsuc 1

abbrev pub opened : Option ℕ → ℤ
opened none = negsuc 0
opened (some fd) = pos fd

-- -1 if no address can be connected to.
unfoldable pub client_socket : List Address → ℤ × List ℕ
unfolding open_socket
client_socket addresses = let r = open_socket addresses in (opened r.0, r.1)

-- The socket that listens, or that the port is in use. `nonblocking` and `listening` say whether
-- `fcntl` and `listen` work.
unfoldable pub server_socket : List Address → (in_use nonblocking listening : Bool) → Ended ℤ
unfolding open_socket
server_socket addresses in_use nonblocking listening = elim (open_socket addresses).0 [
  | none ↦ if in_use then value portinuse else exit_process
  | some fd ↦
      if nonblocking then (if listening then value (pos fd) else exit_process) else exit_process
]
