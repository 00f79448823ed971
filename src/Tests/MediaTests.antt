-- ===== src/Tests/MediaTests.antt =====
-- A download in two pieces, and a timeout of the server.
use http2rtsp.Prelude.{ℕ, ◌≡◌, refl, true, false, some, [], ◌∷◌, arith}
use http2rtsp.Prelude.Int.{pos, ◌-ℤ◌}
use http2rtsp.Text.{Bytes}
use http2rtsp.Sockets.{wrote, writestr}
use http2rtsp.Queue.{check_media_state, update}
use http2rtsp.Queue.Grow.{IsSound}
use http2rtsp.Rtsp.{zero_msg}
use http2rtsp.Session.{State, Outside, recvtcp, first_state}
use http2rtsp.Session.Events.{next_timeout}
use http2rtsp.Session.Memory.{IsFresh}
use http2rtsp.Time.{Timeval}
use http2rtsp.Time.Laws.{micros, IsNormal}
use http2rtsp.Session.Memory.Next.{next_timeout-Until}
use http2rtsp.Session.Download.{download, IsPiece}
use http2rtsp.Session.Download.Complete.{Downloads, download-Downloads}
use http2rtsp.Session.System.Safety.{start_empty}
use http2rtsp.Tests.SystemTests.{noon, empty_store}

abbrev begun : State
begun = record (first_state zero_msg (pos 3) (pos 3) 3 4 empty_store) { mediastate = recvtcp }

abbrev piece : Bytes → Outside
piece bytes = record {
  received = bytes;
  peeked = [];
  writes = wrote 2 ∷ [];
  random = 42;
  date = [];
  now = noon;
  media_socket = pos 9;
  socket_rtp = pos 5;
  socket_rtcp = pos 6;
  event1 = 1;
  event2 = 2;
  sps = 103 ∷ [];
  pps = 104 ∷ [];
  beyond = [];
  url = [];
}

is_piece : (a b : ℕ) → IsPiece (piece (a ∷ b ∷ []))
unfolding writestr
is_piece a b = (omega arith, pos 2, refl)

piece-IsFresh : (o : Outside) → o.event1 ≡ 1 → o.event2 ≡ 2 → IsFresh o empty_store
piece-IsFresh o e1 e2 = record {
  unused1 = refl;
  unused2 = refl;
  given1 = ground (arith, e1);
  given2 = ground (arith, e2);
  two = ground (arith, e1, e2);
}

download-Downloads_example :
    Downloads begun
      (5 ∷ 6 ∷ 7 ∷ 8 ∷ [])
      (download (piece (5 ∷ 6 ∷ []) ∷ piece (7 ∷ 8 ∷ []) ∷ []) begun)
unfolding first_state
download-Downloads_example =
    download-Downloads (piece (5 ∷ 6 ∷ []) ∷ []) (piece (7 ∷ 8 ∷ [])) begun 3 refl refl
      (is_piece 5 6, tt) (omega arith) (is_piece 7 8) (omega arith) (omega arith, omega arith)
      (omega arith, omega arith) ([], start_empty empty_store)
      (piece-IsFresh (piece (7 ∷ 8 ∷ [])) refl refl)

-- A state with a check of the media in its queue, and none of the media there yet.
abbrev checked : State
checked = record begun {
  queue = record { first = 5; last = 5; size = pos 1 };
  store = record empty_store { live = update (λ p. false) 5 true; type = λ p. check_media_state };
}

checked-IsSound : IsSound checked.store checked.queue (5 ∷ [])
checked-IsSound = record {
  queue = record {
    forward = (refl, refl);
    backward = (refl, refl);
    distinct = λ a. ground arith;
    live = λ a i. ground (arith, i);
    size_is = refl;
  };
  owns = record { once = λ a. omega arith; there = λ a i. absurd (omega (arith, i)) };
}

next_timeout-Until_example :
    (d : Timeval) × (next_timeout noon checked.queue checked.store ≡ some (some d))
    × IsNormal d
    × (micros d ≡ pos 0)
unfolding first_state ◌-ℤ◌
next_timeout-Until_example =
    next_timeout-Until noon checked.store checked.queue (5 ∷ []) checked-IsSound
      (omega arith, omega arith) (λ a i. (omega arith, omega arith))
