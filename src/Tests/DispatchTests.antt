-- ===== src/Tests/DispatchTests.antt =====
-- A round of the loop over the descriptors, and a second DESCRIBE while the media is being fetched.
use http2rtsp.Prelude.{
  ◌≡◌, refl, Bool, true, false, Every, Option, none, some, List, [], ◌∷◌, ◌==◌, ◌||◌, if◌then◌else◌,
  ℕ, arith, drop,
}
use http2rtsp.Prelude.Int.{ℤ, pos, ◌+ℤ◌, ◌-ℤ◌}
use http2rtsp.Text.{
  Bytes, codes, strstr, starts_with, scan_int, skip_space, digits_value, take_while,
}
use http2rtsp.Text.Message.{parse_message, parse_lines}
use http2rtsp.Time.{to_int}
use http2rtsp.Rtsp.{
  RtspMsg, zero_msg, describe, noclient, cliconnected, sdpsent, parse_rtsp, parse_type,
  parse_header, finish_rtsp,
}
use http2rtsp.Rtsp.Url.{http_get, parse_url, after_slashes, starts_with_case, strchr}
use http2rtsp.Sip
use http2rtsp.Util.{max, max_loop}
use http2rtsp.Session.Events.{next_timeout}
use http2rtsp.Session.Theatre.{theatre_connection}
use http2rtsp.Session.{server, on_connection, Action, closed, first_state, init_client, getsent}
use http2rtsp.Session.Dispatch.{
  Loop, Given, first_watch, serve, for_loop, fd_setsize, connection_branch, watch_fd, fd_set,
}
use http2rtsp.Session.Dispatch.Watched.{IsWatch, Kept}
use http2rtsp.Session.Dispatch.Branches.{listening, for_loop-Kept, first_reached}
use http2rtsp.Session.Dispatch.Order.{serve_each, for_loop-each}
use http2rtsp.Session.Dispatch.Turns.{world}
use http2rtsp.Session.Dispatch.Describe.{serve-abandoned}
use http2rtsp.Session.Memory.{IsFresh}
use http2rtsp.Session.System.{no_clients, new_filler}
use http2rtsp.Session.System.Safety.{IsWorld}
use http2rtsp.Session.Rounds.{Round, one_round, reported}
use http2rtsp.Session.Rounds.Runs.{IsReport, IsFreshFor, begin, round, thread, thread_begins}
use http2rtsp.Session.Rounds.Sound.{Runs-IsSound}
use http2rtsp.Tests.SessionTests.{outside, empty_store, streaming_state, midnight}

abbrev given : Given
given = record {
  accepted = pos 4;
  outside = outside;
  sip_text = [];
  cliaddr = 0;
  rtpfd = 0;
  fresh = record { callid = []; sockfd = 0; ackrecvd = false; from = []; to = []; cliaddr = 0 };
}

abbrev begun : Loop
begun = record {
  theatre = record {
    session = first_state zero_msg (pos 0) (pos 0) 3 4 empty_store;
    sip = no_clients;
    sipmsg = Sip.zero_msg;
  };
  watch = first_watch server 3 0;
}

abbrev begun_watch : IsWatch begun.watch
begun_watch = record {
  last = 3;
  last_is = unfold first_watch in refl;
  room = omega arith;
  reached = unfold first_watch in λ n set. first_reached server 3 0 n (omega arith) set;
}

abbrev one_ready : ℕ → Bool
one_ready i = i == 3

for_loop-each_example :
    for_loop server 3 0 one_ready (λ i. given) fd_setsize 0 (pos 1) begun
    ≡ serve_each server 3 0 one_ready (λ i. given) (3 ∷ []) begun
for_loop-each_example =
    for_loop-each server 3 0 one_ready (λ i. given) begun begun_watch (omega arith)

for_loop-Kept_example :
    Every
      (λ r. Kept (listening server 3 0) begun.watch r.0.watch)
      (for_loop server 3 0 one_ready (λ i. given) fd_setsize 0 (pos 1) begun)
for_loop-Kept_example =
    for_loop-Kept server 3 0 one_ready (λ i. given) fd_setsize 0 (pos 1) begun begun_watch

abbrev add_ticks : ℤ → ℕ → ℤ
add_ticks usec ticks = usec +ℤ pos ticks

outside-IsFresh : IsFresh outside empty_store
outside-IsFresh = record {
  unused1 = refl;
  unused2 = refl;
  given1 = ground arith;
  given2 = ground arith;
  two = ground arith;
}

whatever {ℓ} : {A : Type ℓ} (m : Option A) → Every (λ a. Unit {0}) m
whatever none = tt
whatever (some a) = tt

-- A client that asks for the media again, while 9 is the connection to its source.
abbrev again : Bytes
again = codes "DESCRIBE rtsp://h/v RTSP/1.0\r\nCSeq: 2\r\n\r\n"

abbrev again_given : Given
again_given = record given {
  outside = record outside { received = again; media_socket = pos 10; url = codes "http://h/v" };
}

abbrev again_msg : RtspMsg
again_msg = record zero_msg { fields = 3; type = describe; cseq = pos 2 }

again_parsed : parse_rtsp again ≡ some (pos 1, again_msg)
unfolding parse_rtsp parse_message parse_lines parse_type parse_header finish_rtsp starts_with
    strstr scan_int skip_space digits_value to_int
again_parsed = refl

again_get :
    http_get (codes "http://h/v")
    ≡ some (codes "GET /v HTTP/1.1\r\nUser-Agent: http2rtsp\r\nHost: h\r\nAccept: */*\r\n\r\n")
unfolding http_get parse_url after_slashes starts_with_case strchr
again_get = refl

abbrev fetching : Loop
fetching = record {
  theatre = record {
    session = record streaming_state {
      client = record init_client { state = cliconnected; rtspfd = pos 4 };
      mediastate = getsent;
      media_downloaded = false;
    };
    sip = no_clients;
    sipmsg = Sip.zero_msg;
  };
  watch = record { maxfd = pos 9; masterfds = λ i. (i == 3) || ((i == 4) || (i == 9)) };
}

serve-abandoned_example :
    (l1 l2 : Loop) × (actions : List Action) × (serve server 3 0 again_given 4 fetching
      ≡ some (l1, actions))
    × (l1.watch.masterfds 9 ≡ true)
    × (l1.theatre.session.client.state ≡ sdpsent)
    × (serve server 3 0 given 9 l1 ≡ some (l2, closed (pos 9) ∷ []))
    × (l2.theatre.session.client.state ≡ noclient)
    × (l2.watch.masterfds 4 ≡ true)
unfolding take_while
serve-abandoned_example =
    serve-abandoned server 3 0 again_given given 4 9 10 68 (drop 1 again) _ (pos 1) again_msg
      fetching refl again_parsed refl refl refl refl again_get refl (omega arith)
      (λ e. omega (arith, e)) (λ e. omega (arith, e)) refl refl refl refl refl

-- A client connects in the first round, and the thread starts again.
abbrev connected : Round
connected = record {
  loop = record {
    theatre = record {
      session = record (first_state zero_msg (pos 0) (pos 0) 3 4 empty_store) {
        client = record init_client { rtspfd = pos 4; state = cliconnected };
      };
      sip = no_clients;
      sipmsg = Sip.zero_msg;
    };
    watch = record { maxfd = pos 4; masterfds = λ m. if m == 4 then true else m == 3 || false };
  };
  timeind = none;
  actions = [];
}

connected_lem :
    one_round server 3 0 (reported one_ready 1) outside (λ i. given) midnight begun ≡ some connected
unfolding one_round for_loop serve connection_branch theatre_connection on_connection watch_fd
    fd_set max max_loop next_timeout first_state first_watch init_client ◌-ℤ◌
connected_lem = refl

begun-IsFreshFor : IsFreshFor server 3 0 (reported one_ready 1) outside (λ i. given) begun
unfolding first_watch first_state
begun-IsFreshFor = (outside-IsFresh, whatever _)

begun-IsReport : IsReport (reported one_ready 1) begun.watch
unfolding first_watch
begun-IsReport = (refl, omega arith)

Runs-IsSound_example : IsWorld (world new_filler connected.loop) × IsWatch connected.loop.watch
Runs-IsSound_example =
    Runs-IsSound server 3 0 add_ticks (pos 0) (world new_filler connected.loop) connected.loop.watch
      (omega arith) (omega arith)
      (thread
        (round (reported one_ready 1) outside (λ i. given) midnight {r = connected}
          (begin zero_msg Sip.zero_msg (pos 0) (pos 0) 3 4 empty_store) begun-IsReport
          begun-IsFreshFor connected_lem)
        thread_begins)
