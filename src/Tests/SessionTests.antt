-- ===== src/Tests/SessionTests.antt =====
-- A client that says goodbye, and the one after it.
use http2rtsp.Prelude.{Option, List, some, Every, ◌≡◌, true, false, none, [], ◌∷◌, refl}
use http2rtsp.Prelude.Int.{pos, negsuc}
use http2rtsp.Time.{Timeval}
use http2rtsp.Queue.{Store, frame_event, empty_queue, free_events}
use http2rtsp.Rtsp.{sdpsent, setup, rtsp_setup, cliconnected, teardown, setupcomplete, zero_msg}
use http2rtsp.Session.{
  Action, server, stream, info_live, State, Outside, init_client, on_connection, info_freed,
}
use http2rtsp.Session.Memory.Hangup.{closed_fds, on_teardown-closes}
use http2rtsp.Session.Requests.{on_setup, on_teardown, on_client, reset_state}
use http2rtsp.Text.{codes, print_int}
use http2rtsp.Queue.Grow.{IsSound}
use http2rtsp.Session.States.{on_client-stale}
use http2rtsp.Session.Moves.{MovesTo, on_client-MovesTo}
use http2rtsp.Session.System.Safety.{start_empty}

abbrev pub midnight : Timeval
midnight = record { tv_sec = pos 0; tv_usec = pos 0 }

abbrev pub empty_store : Store
empty_store = record {
  live = λ p. false;
  next = λ p. 0;
  prev = λ p. 0;
  time = λ p. midnight;
  type = λ p. frame_event;
  frame = λ p. 0;
  frames = λ p. none;
}

abbrev pub streaming_state : State
streaming_state = record {
  client = record init_client { state = setupcomplete };
  rtspmsg = record zero_msg { type = teardown };
  mediastate = stream;
  media_downloaded = true;
  tinfo = info_live;
  mediafd = pos 9;
  videosize = pos 0;
  videoleft = pos 0;
  video_file = [];
  rtpseqno_video = 7;
  rtpseqno_audio = 16;
  queue = record { first = 0; last = 0; size = pos 0 };
  store = empty_store;
}

abbrev pub outside : Outside
outside = record {
  received = [];
  peeked = [];
  writes = [];
  random = 42;
  date = [];
  now = midnight;
  media_socket = pos 9;
  socket_rtp = pos 5;
  socket_rtcp = pos 6;
  event1 = 1;
  event2 = 2;
  sps = [];
  pps = [];
  beyond = [];
  url = [];
}

abbrev torn : State
torn =
    reset_state outside info_freed (record { first = 0; last = 0; size = pos 0 }) empty_store
      streaming_state

on_client-stale_example : on_client server outside (pos 4) (on_connection (pos 4) torn).0 ≡ none
unfolding on_teardown empty_queue free_events
on_client-stale_example =
    on_client-stale server outside outside (pos 3) (pos 4) streaming_state torn _ refl refl refl

-- A client that is connected asks for the options.
abbrev asking : Outside
asking = record outside { received = codes "OPTIONS rtsp://h/v RTSP/1.0\r\nCSeq: 1\r\n\r\n" }

on_client-MovesTo_example : Every (MovesTo cliconnected) (
    on_client server asking
      (pos 4)
      (record streaming_state { client = record init_client { state = cliconnected } }))
on_client-MovesTo_example =
    on_client-MovesTo server asking (pos 4)
      (record streaming_state { client = record init_client { state = cliconnected } })

-- Two SETUPs of a client, with the sockets 5 and 6, and 7 and 8.
abbrev before_setup : State
before_setup = record streaming_state {
  client = record init_client { state = sdpsent };
  rtspmsg = record zero_msg { type = setup; transport = codes "RTP/AVP" };
}

abbrev video_sockets : Outside
video_sockets = record outside { socket_rtp = pos 7; socket_rtcp = pos 8 }

abbrev state_of : Option (State × List Action) → State
state_of none = before_setup
state_of (some (s, actions)) = s

abbrev actions_of : Option (State × List Action) → List Action
actions_of none = []
actions_of (some (s, actions)) = actions

abbrev audio_set : State
audio_set = state_of (on_setup server outside before_setup)

abbrev video_set : State
video_set = state_of (on_setup server video_sockets audio_set)

-- The socket 6 is not closed.
on_teardown-closes_example :
    (s' : State) × (actions : List Action) × (on_teardown outside (pos 4) video_set
      ≡ some (s', actions))
    × (closed_fds actions ≡ pos 4 ∷ pos 7 ∷ negsuc 0 ∷ pos 5 ∷ pos 8 ∷ [])
    × IsSound s'.store s'.queue []
    × (s'.tinfo ≡ info_freed)
unfolding on_setup rtsp_setup print_int init_client
on_teardown-closes_example =
    on_teardown-closes server outside video_sockets outside (pos 4) before_setup audio_set audio_set
      video_set video_set (actions_of (on_setup server outside before_setup))
      (actions_of (on_setup server video_sockets audio_set)) [] refl refl refl refl refl refl
      (start_empty empty_store) refl
