-- ===== src/Session/Theatre.antt =====
-- The main loop of mt_server.c, the movie theatre: that of server.c with a list of SIP clients, which
-- get the audio.
use http2rtsp.Prelude.{ℕ, Option, some, ◌>>=◌, List, ◌++◌, map}
use http2rtsp.Prelude.Int.{ℤ, pos}
use http2rtsp.Frame.{Frame, FrameType, video_frame, audio_frame}
use http2rtsp.Queue.{Ptr, TimeoutType, frame_event, check_media_state, end_of_stream}
use http2rtsp.Text.{Bytes, c_string}
use http2rtsp.Sip.{SipMsg, SipClient, parsesipmsg}
use http2rtsp.Sip.Clients.{Slots, SipServer, Reply, on_message, send_audio, send_byes}
use http2rtsp.Session.{mt_server, Action, closed, rtp_sent, sip_sent, State, Outside, on_connection}
use http2rtsp.Session.Requests.{on_client}
use http2rtsp.Session.Media.{on_media}
use http2rtsp.Session.Events.{Fired, send_video, on_frame, on_check, on_timeout}

-- The variables of the loop. `sipmsg` is what the last message left; the BYEs at the end of the stream
-- use it as a buffer, and set all that is read of it.
pub record Theatre : Type 0 where
  pub session : State
  pub sip : SipServer
  pub sipmsg : SipMsg

abbrev pub audio_action : ℕ × List Bytes → Action
audio_action (fd, packets) = rtp_sent (pos fd) packets

abbrev pub bye_action : ℕ × Bytes → Action
bye_action (address, text) = sip_sent address text

unfoldable pub send_theatre_audio : Slots → Frame → State → Option (State × List Action)
send_theatre_audio slots frame s = send_audio frame slots s.rtpseqno_audio >>= λ (sent, after).
    some (record s { rtpseqno_audio = after }, map audio_action sent)

abbrev pub theatre_send : Slots → FrameType → Outside → Frame → State → Option (State × List Action)
theatre_send slots video_frame o frame s = send_video o frame s
theatre_send slots audio_frame o frame s = send_theatre_audio slots frame s

-- The switch on the type of the event: at the end of the stream the SIP clients get a BYE.
unfoldable pub theatre_event :
    Slots → SipMsg → Outside → TimeoutType → Ptr → State → Option (State × List Action)
theatre_event slots old o frame_event event s =
    on_frame (λ frame s. theatre_send slots frame.frametype o frame s) event s
theatre_event slots old o check_media_state event s = on_check o s
theatre_event slots old o end_of_stream event s =
    send_byes old slots >>= λ byes. some (s, map bye_action byes)

unfoldable pub theatre_timeout : Outside → Theatre → Option Fired
theatre_timeout o t = on_timeout (theatre_event t.sip.clientlist t.sipmsg o) t.session

abbrev pub with_session : Theatre → State × List Action → Theatre × List Action
with_session t (s, actions) = (record t { session = s }, actions)

unfoldable pub theatre_connection : ℤ → Theatre → Theatre × List Action
theatre_connection fd t = with_session t (on_connection fd t.session)

unfoldable pub theatre_media : Outside → Theatre → Option (Theatre × List Action)
theatre_media o t = on_media o t.session >>= λ r. some (with_session t r)

unfoldable pub theatre_client : Outside → ℤ → Theatre → Option (Theatre × List Action)
theatre_client o i t = on_client mt_server o i t.session >>= λ r. some (with_session t r)

abbrev pub reply_actions : Reply → List Action
reply_actions r = map bye_action r.sent ++ map (λ fd. closed (pos fd)) r.closed

unfoldable pub theatre_sip : Bytes → ℕ → ℕ → SipClient → Theatre → Option (Theatre × List Action)
theatre_sip text cliaddr rtpfd fresh t = parsesipmsg (c_string text) >>= λ (code, msg).
    on_message msg.type msg cliaddr rtpfd fresh t.sip >>= λ (sip, reply).
    some (record t { sip = sip; sipmsg = msg }, reply_actions reply)
