-- ===== src/Session.antt =====
-- The main loops of the two servers, server.c and mt_server.c: their variables, and a new connection.
-- `none` is a fault: an overflow, a null or freed pointer.
pub mod Requests
pub mod Media
pub mod Download
pub mod Moves
pub mod Events
pub mod Filler
pub mod Theatre
pub mod Memory
pub mod Dispatch
pub mod Drain
pub mod Rounds
pub mod System
pub mod States
use http2rtsp.Prelude.{ℕ, Bool, false, List, [], ◌∷◌}
use http2rtsp.Prelude.Int.{ℤ, pos, negsuc}
use http2rtsp.Time.{Timeval}
use http2rtsp.Queue.{Ptr, null, Queue, Store}
use http2rtsp.Text.{Bytes}
use http2rtsp.Sockets.{WriteResult}
use http2rtsp.Rtp.{u16}
use http2rtsp.Rtsp.{
  RtspMsg, ClientState, noclient, cliconnected, sdpsent, setupcomplete, streaming, Client,
}

-- The two programs differ in one assignment.
pub data Program : Type 0 where
  server mt_server : Program

pub data MediaState : Type 0 where
  idle getsent recvtcp stream : MediaState

-- `tinfo`: NULL, allocated with its context, or freed.
pub data ThreadInfo : Type 0 where
  no_info info_live info_freed : ThreadInfo

-- What the loop does to the world outside, in order.
pub data Action : Type 0 where
  answered : Bytes → Action
  closed : ℤ → Action
  requested : Bytes → Action
  rtp_sent : ℤ → List Bytes → Action
  sip_sent : ℕ → Bytes → Action
  thread_cancelled thread_started context_closed file_closed : Action

-- The variables of the main loop. `video_file` is what was written to the file `videofd`.
pub record State : Type 0 where
  pub client : Client
  pub rtspmsg : RtspMsg
  pub mediastate : MediaState
  pub media_downloaded : Bool
  pub tinfo : ThreadInfo
  pub mediafd : ℤ
  pub videosize : ℤ
  pub videoleft : ℤ
  pub video_file : Bytes
  pub rtpseqno_video : ℕ
  pub rtpseqno_audio : ℕ
  pub queue : Queue
  pub store : Store

-- What the calls outside give in one round: the bytes that `recv` reads, and with MSG_PEEK, the
-- results of `write`, `rand() % 1000000`, the
-- time, the sockets that are opened, the addresses of `malloc`, the parameter sets of the video, and
-- the bytes that can be read behind the buffer of a frame.
pub record Outside : Type 0 where
  pub received : Bytes
  pub peeked : Bytes
  pub writes : List WriteResult
  pub random : ℕ
  pub date : Bytes
  pub now : Timeval
  pub media_socket : ℤ
  pub socket_rtp : ℤ
  pub socket_rtcp : ℤ
  pub event1 : Ptr
  pub event2 : Ptr
  pub sps : Bytes
  pub pps : Bytes
  pub beyond : Bytes
  pub url : Bytes

-- `init_client`
unfoldable pub init_client : Client
init_client = record {
  state = noclient;
  rtspfd = negsuc 0;
  session = pos 0;
  cseq = pos 0;
  server_rtp_video_port = 50508;
  server_rtcp_video_port = 50509;
  server_rtp_audio_port = 50510;
  server_rtcp_audio_port = 50511;
  setupsreceived = 0;
  videofd_rtp = negsuc 0;
  videofd_rtcp = negsuc 0;
  audiofd_rtp = negsuc 0;
  audiofd_rtcp = negsuc 0;
}

-- A connection is taken if there is no client, and else closed.
abbrev pub accepted_state : ClientState → ℤ → State → State × List Action
accepted_state noclient fd s =
    (record s { client = record s.client { rtspfd = fd; state = cliconnected } }, [])
accepted_state cliconnected fd s = (s, closed fd ∷ [])
accepted_state sdpsent fd s = (s, closed fd ∷ [])
accepted_state setupcomplete fd s = (s, closed fd ∷ [])
accepted_state streaming fd s = (s, closed fd ∷ [])

unfoldable pub on_connection : ℤ → State → State × List Action
on_connection fd s = accepted_state s.client.state fd s

-- The variables before the loop. `msg`, `size` and `left` are not initialised.
unfoldable pub first_state : RtspMsg → ℤ → ℤ → ℕ → ℕ → Store → State
first_state msg size left random_video random_audio h = record {
  client = init_client;
  rtspmsg = msg;
  mediastate = idle;
  media_downloaded = false;
  tinfo = no_info;
  mediafd = negsuc 0;
  videosize = size;
  videoleft = left;
  video_file = [];
  rtpseqno_video = u16 random_video;
  rtpseqno_audio = u16 random_audio;
  queue = record { first = null; last = null; size = pos 0 };
  store = h;
}
