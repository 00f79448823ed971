-- ===== src/Sockets.antt =====
-- The loops of socketfunc.c and fileio.c around the calls of the system that may do less than they
-- are asked. What the calls give is a list of results, one for each call in turn; a loop that has
-- used them all without returning is `none`.
pub mod Delivery
pub mod Stuck
pub mod Connect
pub mod Exits
use http2rtsp.Prelude.{
  ℕ, zero, suc, ◌+◌, Bool, false, Option, none, some, List, [], ◌∷◌, ◌++◌, ltb, ◌==◌, if◌then◌else◌,
  length, take, drop,
}
use http2rtsp.Prelude.Int.{ℤ, pos, negsuc}
use http2rtsp.Text.{Bytes}

-- `send` and `sendto`: a number of bytes, or -1.
pub data SendResult : Type 0 where
  accepted : ℕ → SendResult
  failed : SendResult

-- The value returned, and the bytes that the system took.
pub record Outcome : Type 0 where
  pub value : ℤ
  pub taken : Bytes

abbrev pub taking : Bytes → Option Outcome → Option Outcome
taking bytes none = none
taking bytes (some o) = some (record o { taken = bytes ++ o.taken })

-- The bytes from `sent` on of which a call takes `n`.
abbrev pub portion : Bytes → ℕ → ℕ → Bytes
portion buf sent n = take n (drop sent buf)

-- `n == -1` after the loop, for a loop that ended without a `break`: `stale` says that `n` is -1.
abbrev pub send_all_end : Bool → ℕ → Option Outcome
send_all_end stale sent = some (record { value = if stale then negsuc 0 else pos sent; taken = [] })

unfoldable pub send_all_loop : List SendResult → Bytes → Bool → ℕ → Option Outcome
send_all_loop [] buf stale sent = if ltb sent (length buf) then none else send_all_end stale sent
send_all_loop (failed ∷ results) buf stale sent =
    if ltb sent (length buf)
    then some (record { value = negsuc 0; taken = [] })
    else send_all_end stale sent
send_all_loop (accepted n ∷ results) buf stale sent =
    let rest = send_all_loop results buf false (sent + n) in
    if ltb sent (length buf) then taking (portion buf sent n) rest else send_all_end stale sent

-- `stale` says that the variable `n`, which is not initialised, happens to hold -1.
unfoldable pub send_all : List SendResult → Bool → Bytes → Option Outcome
unfolding send_all_loop
send_all results stale buf = send_all_loop results buf stale 0

-- `Sendto_all` exits if a call fails: the process has a value only if the loop ends.
pub data Exit : Type 0 where
  returned : Outcome → Exit
  exited : Bytes → Exit

abbrev pub exit_taking : Bytes → Option Exit → Option Exit
exit_taking bytes none = none
exit_taking bytes (some (returned o)) = some (returned (record o { taken = bytes ++ o.taken }))
exit_taking bytes (some (exited b)) = some (exited (bytes ++ b))

unfoldable pub sendto_all_loop : List SendResult → Bytes → ℕ → Option Exit
sendto_all_loop [] buf sent =
    if ltb sent (length buf)
    then none
    else some (returned (record { value = pos sent; taken = [] }))
sendto_all_loop (failed ∷ results) buf sent =
    if ltb sent (length buf)
    then some (exited [])
    else some (returned (record { value = pos sent; taken = [] }))
sendto_all_loop (accepted n ∷ results) buf sent =
    let rest = sendto_all_loop results buf (sent + n) in
    if ltb sent (length buf)
    then exit_taking (portion buf sent n) rest
    else some (returned (record { value = pos sent; taken = [] }))

unfoldable pub sendto_all : List SendResult → Bytes → Option Exit
unfolding sendto_all_loop
sendto_all results buf = sendto_all_loop results buf 0

-- `write`: a number of bytes that is positive, or a result that is not, with or without EINTR.
pub data WriteResult : Type 0 where
  wrote : ℕ → WriteResult
  interrupted : WriteResult
  broken : WriteResult

-- `ptr` is what is left to write, `nleft` its length.
unfoldable pub writestr_loop : List WriteResult → (size : ℕ) → Bytes → Option Outcome
writestr_loop [] size ptr =
    if length ptr == 0 then some (record { value = pos size; taken = [] }) else none
writestr_loop (interrupted ∷ results) size ptr =
    let rest = writestr_loop results size ptr in
    if length ptr == 0 then some (record { value = pos size; taken = [] }) else rest
writestr_loop (broken ∷ results) size ptr =
    if length ptr == 0
    then some (record { value = pos size; taken = [] })
    else some (record { value = negsuc 0; taken = [] })
writestr_loop (wrote n ∷ results) size ptr =
    let rest = writestr_loop results size (drop n ptr) in
    if length ptr == 0
    then some (record { value = pos size; taken = [] })
    else taking (take n ptr) rest

unfoldable pub writestr : List WriteResult → Bytes → Option Outcome
unfolding writestr_loop
writestr results str = writestr_loop results (length str) str

-- An address of `getaddrinfo`, with what the calls on it give: the socket or -1, and whether `bind`
-- (and for a client `connect`) works.
pub record Address : Type 0 where
  pub socket : Option ℕ
  pub ready : Bool

-- The loop of `udp_server`: `none` if the fuel runs out, then the socket, or null if no address is
-- left. `sockets` is what the calls of `socket` give, one after the other.
unfoldable pub udp_server_loop : ℕ → (ℕ → Option ℕ) → ℕ → List Address → Option (Option ℕ)
udp_server_loop zero sockets call addresses = none
udp_server_loop (suc fuel) sockets call [] = some none
udp_server_loop (suc fuel) sockets call (a ∷ addresses) = elim (sockets call) [
  | none ↦ udp_server_loop fuel sockets (suc call) (a ∷ addresses)
  | some fd ↦
      (let further = udp_server_loop fuel sockets (suc call) addresses in
        if a.ready then some (some fd) else further)
]

-- The loops of `client_socket` and `server_socket`, which go to the next address: the socket of the
-- first address on which all calls work, and the sockets that were closed.
unfoldable pub open_socket : List Address → Option ℕ × List ℕ
open_socket [] = (none, [])
open_socket (a ∷ addresses) = elim a.socket [
  | none ↦ open_socket addresses
  | some fd ↦
      (let further = open_socket addresses in
        if a.ready then (some fd, []) else (further.0, fd ∷ further.1))
]
