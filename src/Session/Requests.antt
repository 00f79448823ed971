-- ===== src/Session/Requests.antt =====
-- The branch of the RTSP client's socket in the main loops: a request, and what is done for it.
use http2rtsp.Prelude.{
  ℕ, suc, ◌+◌, Option, none, some, ◌>>=◌, List, [], ◌∷◌, ◌++◌, ltb, if◌then◌else◌, replicate,
}
use http2rtsp.Prelude.Int.{ℤ, pos}
use http2rtsp.Frame.{Frame, video_frame}
use http2rtsp.Queue.{Ptr, Queue, Store, check_media_state, push_timeout, empty_queue}
use http2rtsp.Text.{Bytes, c_string}
use http2rtsp.Rtp.{checked_video_frame, u16}
use http2rtsp.Rtsp.{
  RtspType, options, describe, setup, play, teardown, ClientState, noclient, cliconnected, sdpsent,
  setupcomplete, Client, parse_rtsp, rtsp_options, rtsp_describe, rtsp_setup, rtsp_play,
  rtsp_teardown,
}
use http2rtsp.Rtsp.Url.{http_get}
use http2rtsp.Session.{
  Program, server, mt_server, MediaState, getsent, stream, ThreadInfo, no_info, info_live,
  info_freed, Action, answered, closed, requested, rtp_sent, thread_cancelled, thread_started,
  context_closed, State, Outside, init_client,
}

-- `recv_all` and `parse_rtsp`, which reads up to the first zero byte; a connection that was closed
-- leaves `rtspmsg` as it was.
abbrev pub on_bytes : Bytes → ℤ → State → Option (State × List Action)
on_bytes [] i s = some (record s { client = record s.client { state = noclient } }, closed i ∷ [])
on_bytes (c ∷ text) i s =
    parse_rtsp (c_string (c ∷ text)) >>= λ (code, msg). some (record s { rtspmsg = msg }, [])

unfoldable pub on_receive : Outside → ℤ → State → Option (State × List Action)
on_receive o i s = on_bytes o.received i s

-- `close_context(tinfo->ctx); free(tinfo)`
abbrev pub free_info : ThreadInfo → Option ThreadInfo
free_info no_info = none
free_info info_live = some info_freed
free_info info_freed = none

abbrev pub reset_state : Outside → ThreadInfo → Queue → Store → State → State
reset_state o tinfo q h s = record s {
  client = record init_client { state = noclient };
  tinfo = tinfo;
  rtpseqno_video = u16 (o.random + 7);
  rtpseqno_audio = u16 (u16 (o.random + 7) + 9);
  queue = q;
  store = h;
}

-- The answer, and the five sockets and the context that are closed.
abbrev pub teardown_actions : ℤ → State → List Action
teardown_actions i s =
    thread_cancelled
    ∷ answered (rtsp_teardown s.rtspmsg)
    ∷ closed i
    ∷ closed s.client.videofd_rtp
    ∷ closed s.client.videofd_rtcp
    ∷ closed s.client.audiofd_rtp
    ∷ closed s.client.audiofd_rtcp
    ∷ context_closed
    ∷ []

unfoldable pub on_teardown : Outside → ℤ → State → Option (State × List Action)
on_teardown o i s = empty_queue s.queue s.store >>= λ (q, h).
    free_info s.tinfo >>= λ tinfo. some (reset_state o tinfo q h s, teardown_actions i s)

abbrev pub maybe_teardown : RtspType → Outside → ℤ → State → Option (State × List Action)
maybe_teardown teardown o i s = on_teardown o i s
maybe_teardown options o i s = some (s, [])
maybe_teardown describe o i s = some (s, [])
maybe_teardown setup o i s = some (s, [])
maybe_teardown play o i s = some (s, [])
maybe_teardown RtspType.ok o i s = some (s, [])

-- The client asks what the server can do.
abbrev pub on_options : State → State × List Action
on_options s =
    let r = rtsp_options s.rtspmsg s.client in (record s { client = r.0 }, answered r.1 ∷ [])

-- The media is fetched if it is not there yet, and described.
abbrev pub described : Outside → MediaState → List Action → State → State × List Action
described o mediastate actions s =
    let r = rtsp_describe o.date (record s.client { state = sdpsent }) in
    (record s { client = r.0; mediastate = mediastate }, actions ++ (answered r.1 ∷ []))

unfoldable pub on_describe : Outside → State → Option (State × List Action)
on_describe o s =
    if s.media_downloaded
    then some (described o stream [] s)
    else (http_get o.url >>= λ get.
        some (described o getsent (requested get ∷ []) (record s { mediafd = o.media_socket })))

-- Where the second socket of the second SETUP is stored.
abbrev pub store_rtcp : Program → ℤ → Client → Client
store_rtcp server fd c = record c { audiofd_rtcp = fd }
store_rtcp mt_server fd c = record c { videofd_rtcp = fd }

abbrev pub answer_setup : Outside → ℕ → ℕ → State → Client → Option (Client × Bytes)
answer_setup o rtp rtcp s c = rtsp_setup (pos o.random) s.rtspmsg c rtp rtcp

unfoldable pub on_setup : Program → Outside → State → Option (State × List Action)
on_setup program o s =
    let c = record s.client { setupsreceived = suc s.client.setupsreceived } in
    let audio =
      (answer_setup o c.server_rtp_audio_port c.server_rtcp_audio_port s
          (record c { audiofd_rtp = o.socket_rtp; audiofd_rtcp = o.socket_rtcp })
        >>= λ (c, text). some (record s { client = c }, answered text ∷ [])) in
    let video =
      (answer_setup o c.server_rtp_video_port c.server_rtcp_video_port s
          (store_rtcp program o.socket_rtcp (record c { videofd_rtp = o.socket_rtp }))
        >>= λ (c, text).
            some (record s { client = record c { state = setupcomplete } }, answered text ∷ [])) in
    if ltb c.setupsreceived 2 then audio else video

-- `create_sprop_frame` leaves the first four bytes of the buffer as they are.
unfoldable pub create_sprop_frame : Bytes → ℕ → Frame
create_sprop_frame ps ts = record {
  bytes = replicate 4 0 ++ ps;
  frametype = video_frame;
  timestamp = ts;
}

abbrev pub send_sprop : Outside → Bytes → State → Option (State × List Action)
send_sprop o ps s =
    checked_video_frame o.beyond (create_sprop_frame ps 0) s.rtpseqno_video >>= λ sent. some (
      record s { rtpseqno_video = u16 (s.rtpseqno_video + 1) },
      rtp_sent s.client.videofd_rtp sent.packets ∷ [],
    )

abbrev pub push_check : Ptr → Outside → ℕ → State → Option State
push_check event o time_ms s =
    push_timeout event o.now time_ms check_media_state s.queue s.store >>= λ (q, h).
    some (record s { queue = q; store = h })

-- With the media there, the queue thread starts and the parameter sets go out first.
unfoldable pub start_stream : Outside → State → Option (State × List Action)
start_stream o s = send_sprop o o.sps (record s { tinfo = info_live }) >>= λ (s, first).
    send_sprop o o.pps s >>= λ (s, second). push_check o.event1 o 100 s >>= λ s.
    push_check o.event2 o 2000 s >>= λ s. some (s, thread_started ∷ (first ++ second))

unfoldable pub on_play : Outside → State → Option (State × List Action)
on_play o s =
    let text = rtsp_play o.date s.rtspmsg in
    let waiting = (push_check o.event1 o 100 s >>= λ s. some (s, answered text ∷ [])) in
    let started = (start_stream o s >>= λ (s, actions). some (s, answered text ∷ actions)) in
    if s.media_downloaded then started else waiting

-- The switch on the state of the client, and its tests of the message.
unfoldable pub on_request :
    Program → Outside → ClientState → RtspType → State → Option (State × List Action)
on_request program o cliconnected options s = some (on_options s)
on_request program o cliconnected describe s = on_describe o s
on_request program o sdpsent setup s = on_setup program o s
on_request program o setupcomplete play s = on_play o s
on_request program o state type s = some (s, [])

-- All of the branch of the client's socket `i`.
unfoldable pub on_client : Program → Outside → ℤ → State → Option (State × List Action)
on_client program o i s = on_receive o i s >>= λ (s, received).
    maybe_teardown s.rtspmsg.type o i s >>= λ (s, torn).
    on_request program o s.client.state s.rtspmsg.type s >>= λ (s, replied).
    some (s, received ++ (torn ++ replied))
