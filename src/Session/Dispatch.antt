-- ===== src/Session/Dispatch.antt =====
-- How the main loops of server.c and mt_server.c choose their branches: the set of descriptors that
-- `select` waits for, and the loop over those that are ready.
pub mod Watched
pub mod Branches
pub mod Order
pub mod Turns
pub mod Describe
use http2rtsp.Prelude.{
  ℕ, zero, suc, Bool, true, false, ◌||◌, Option, none, some, ◌>>=◌, List, [], ◌∷◌, ◌++◌, ltb, ◌==◌,
  if◌then◌else◌, length,
}
use http2rtsp.Prelude.Int.{ℤ, pos, negsuc, ◌-ℤ◌, leb_ℤ}
use http2rtsp.Text.{Bytes}
use http2rtsp.Util.{max}
use http2rtsp.Rtsp.{
  RtspType, options, describe, setup, play, teardown, ClientState, noclient, cliconnected, sdpsent,
  setupcomplete, streaming,
}
use http2rtsp.Sip.{SipClient}
use http2rtsp.Session.{
  Program, server, mt_server, MediaState, idle, getsent, recvtcp, stream, Action, State, Outside,
}
use http2rtsp.Session.Requests.{on_receive, maybe_teardown, on_request}
use http2rtsp.Session.Theatre.{Theatre, theatre_connection, theatre_media, theatre_sip}

-- `FD_SETSIZE` of the system.
abbrev pub fd_setsize : ℕ
fd_setsize = 1024

-- `maxfd` and `masterfds`
pub record Watch : Type 0 where
  pub maxfd : ℤ
  pub masterfds : ℕ → Bool

-- `FD_SET`; `none` is a write outside of the set.
unfoldable pub fd_set : ℤ → (ℕ → Bool) → Option (ℕ → Bool)
fd_set (pos n) fds = if ltb n fd_setsize then some (λ m. if m == n then true else fds m) else none
fd_set (negsuc n) fds = none

-- `FD_CLR`
abbrev pub fd_clr : ℕ → Watch → Watch
fd_clr n w = record w { masterfds = λ m. if m == n then false else w.masterfds m }

-- `maxfd = max(2, ...)` with `FD_SET`
unfoldable pub watch_fd : List ℤ → ℤ → Watch → Option Watch
watch_fd numbers fd w =
    fd_set fd w.masterfds >>= λ fds. some (record { maxfd = max numbers; masterfds = fds })

-- The variables of the loop with its descriptors.
pub record Loop : Type 0 where
  pub theatre : Theatre
  pub watch : Watch

-- What the calls outside give for one ready descriptor: what `accept` returns, what a branch of the
-- session needs, and the SIP message with its sender, the socket for it and the memory of a client.
pub record Given : Type 0 where
  pub accepted : ℤ
  pub outside : Outside
  pub sip_text : Bytes
  pub cliaddr : ℕ
  pub rtpfd : ℕ
  pub fresh : SipClient

-- A connection is watched if there is no client yet.
abbrev pub connection_watch : ClientState → ℤ → Watch → Option Watch
connection_watch noclient fd w = watch_fd (fd ∷ w.maxfd ∷ []) fd w
connection_watch cliconnected fd w = some w
connection_watch sdpsent fd w = some w
connection_watch setupcomplete fd w = some w
connection_watch streaming fd w = some w

unfoldable pub connection_branch : Given → Loop → Option (Loop × List Action)
connection_branch g l = connection_watch l.theatre.session.client.state g.accepted l.watch >>= λ w.
    (let r = theatre_connection g.accepted l.theatre in
      some (record { theatre = r.0; watch = w }, r.1))

-- The media source is cleared where its connection is closed, and where the download is complete.
abbrev pub media_ends : MediaState → Outside → State → Bool
media_ends idle o s = false
media_ends getsent o s = false
media_ends recvtcp o s =
    (length o.received == 0) || leb_ℤ (s.videoleft -ℤ pos (length o.received)) (pos 0)
media_ends stream o s = false

abbrev pub media_watch : Bool → ℕ → Watch → Watch
media_watch ends i w = if ends then fd_clr i w else w

unfoldable pub media_fd_branch : Given → ℕ → Loop → Option (Loop × List Action)
media_fd_branch g i l = theatre_media g.outside l.theatre >>= λ (t, actions).
    (let s = l.theatre.session in
      let w = media_watch (media_ends s.mediastate g.outside s) i l.watch in
      some (record { theatre = t; watch = w }, actions))

-- The client is cleared where it closes its connection, and with a TEARDOWN.
abbrev pub received_watch : Bytes → ℕ → Watch → Watch
received_watch [] i w = fd_clr i w
received_watch (c ∷ text) i w = w

abbrev pub torn_watch : RtspType → ℕ → Watch → Watch
torn_watch teardown i w = fd_clr i w
torn_watch options i w = w
torn_watch describe i w = w
torn_watch setup i w = w
torn_watch play i w = w
torn_watch RtspType.ok i w = w

-- The connection to the media source is watched when the media is asked for.
abbrev pub request_watch : ClientState → RtspType → Outside → State → Watch → Option Watch
request_watch cliconnected describe o s w =
    if s.media_downloaded then some w else watch_fd (w.maxfd ∷ o.media_socket ∷ []) o.media_socket w
request_watch state type o s w = some w

unfoldable pub client_fd_branch : Program → Given → ℕ → Loop → Option (Loop × List Action)
client_fd_branch program g i l =
    let o = g.outside in
    on_receive o (pos i) l.theatre.session >>= λ (s, received).
    (let type = s.rtspmsg.type in
      let cleared = torn_watch type i (received_watch o.received i l.watch) in
      maybe_teardown type o (pos i) s >>= λ (s, torn).
      request_watch s.client.state s.rtspmsg.type o s cleared >>= λ w.
      on_request program o s.client.state s.rtspmsg.type s >>= λ (s, replied). some (
        record { theatre = record l.theatre { session = s }; watch = w },
        received ++ (torn ++ replied),
      ))

unfoldable pub sip_branch : Given → Loop → Option (Loop × List Action)
sip_branch g l = theatre_sip g.sip_text g.cliaddr g.rtpfd g.fresh l.theatre >>= λ (t, actions).
    some (record l { theatre = t }, actions)

abbrev pub is_fd : ℕ → ℤ → Bool
is_fd i (pos n) = i == n
is_fd i (negsuc n) = false

-- server.c has no SIP socket.
abbrev pub is_sip_fd : Program → ℕ → ℕ → Bool
is_sip_fd server siplistenfd i = false
is_sip_fd mt_server siplistenfd i = i == siplistenfd

module _ (program : Program) (listenfd siplistenfd : ℕ) where
  -- The variables before the loop.
  unfoldable pub first_watch : Watch
  first_watch = record {
    maxfd = pos listenfd;
    masterfds = λ i. (i == listenfd) || is_sip_fd program siplistenfd i;
  }

  -- The branches for the descriptor `i`.
  unfoldable pub serve : Given → ℕ → Loop → Option (Loop × List Action)
  serve g i l =
      if i == listenfd
      then connection_branch g l
      else if is_sip_fd program siplistenfd i
      then sip_branch g l
      else if is_fd i l.theatre.session.mediafd
      then media_fd_branch g i l
      else client_fd_branch program g i l

  -- `if (FD_ISSET(i, &readfds))`, with what is left of `nready`.
  abbrev pub serve_set : Bool → Given → ℕ → ℤ → Loop → Option (ℤ × Loop × List Action)
  serve_set true g i nready l = serve g i l >>= λ (l, actions). some (nready -ℤ pos 1, l, actions)
  serve_set false g i nready l = some (nready, l, [])

  -- The loop from the descriptor `i` on; `readfds` is as `select` left it.
  unfoldable pub for_loop :
      (ℕ → Bool) → (ℕ → Given) → ℕ → ℕ → ℤ → Loop → Option (Loop × List Action)
  for_loop readfds given zero i nready l = none
  for_loop readfds given (suc fuel) i nready l =
      if leb_ℤ (pos i) l.watch.maxfd
      then (serve_set (readfds i) (given i) i nready l >>= λ (nready, l, actions).
          if leb_ℤ nready (pos 0)
          then some (l, actions)
          else (for_loop readfds given fuel (suc i) nready l >>= λ (l, more).
              some (l, actions ++ more)))
      else some (l, [])
