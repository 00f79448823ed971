-- ===== src/Session/Events.antt =====
-- The branch of the timeouts in the main loop of server.c, and the timeout of the next `select`.
use http2rtsp.Prelude.{
  ◌+◌, ◌/◌, Bool, true, false, Option, none, some, ◌>>=◌, List, [], ◌∷◌, ◌==◌, if◌then◌else◌,
}
use http2rtsp.Prelude.Int.{pos, ltb_ℤ}
use http2rtsp.Frame.{Frame, FrameType, video_frame, audio_frame}
use http2rtsp.Time.{Timeval, calculate_delta}
use http2rtsp.Queue.{
  Ptr, null, Store, Queue, TimeoutType, frame_event, check_media_state, end_of_stream, queuesize,
  get_time, pull_event, free_event, free_frame,
}
use http2rtsp.Rtp.{checked_video_frame, send_audio_frame, send_dummy_rtp, u16}
use http2rtsp.Session.{MediaState, idle, getsent, recvtcp, stream, Action, rtp_sent, State, Outside}
use http2rtsp.Session.Requests.{push_check}

-- The timeout for the next `select`, NULL if there is none, and whether the queue thread is signalled.
pub record Fired : Type 0 where
  pub state : State
  pub actions : List Action
  pub delay : Option Timeval
  pub signalled : Bool

unfoldable pub send_video : Outside → Frame → State → Option (State × List Action)
send_video o frame s = checked_video_frame o.beyond frame s.rtpseqno_video >>= λ sent. some (
  record s { rtpseqno_video = u16 (s.rtpseqno_video + sent.numpkts) },
  rtp_sent s.client.videofd_rtp sent.packets ∷ [],
)

unfoldable pub send_client_audio : Frame → State → Option (State × List Action)
send_client_audio frame s = send_audio_frame frame s.rtpseqno_audio >>= λ sent. some (
  record s { rtpseqno_audio = u16 (s.rtpseqno_audio + sent.numpkts) },
  rtp_sent s.client.audiofd_rtp sent.packets ∷ [],
)

abbrev pub send_by_type : FrameType → Outside → Frame → State → Option (State × List Action)
send_by_type video_frame o frame s = send_video o frame s
send_by_type audio_frame o frame s = send_client_audio frame s

-- The frame of the event is sent by `send` and freed.
unfoldable pub on_frame :
    (Frame → State → Option (State × List Action)) → Ptr → State → Option (State × List Action)
on_frame send event s = s.store.frames (s.store.frame event) >>= λ frame.
    send frame s >>= λ (s, actions).
    free_frame s.store (s.store.frame event) >>= λ h. some (record s { store = h }, actions)

-- While there is no media, a dummy packet goes out every second.
abbrev pub is_stream : MediaState → Bool
is_stream stream = true
is_stream idle = false
is_stream getsent = false
is_stream recvtcp = false

unfoldable pub on_check : Outside → State → Option (State × List Action)
on_check o s =
    let dummy = send_dummy_rtp s.rtpseqno_video in
    let waiting =
      (push_check o.event1 o 1000 (record s { rtpseqno_video = dummy.1 }) >>= λ s.
      some (s, rtp_sent s.client.videofd_rtp (dummy.0 ∷ []) ∷ [])) in
    if is_stream s.mediastate then some (s, []) else waiting

-- The switch on the type of the event.
unfoldable pub on_event : Outside → TimeoutType → Ptr → State → Option (State × List Action)
on_event o frame_event event s =
    on_frame (λ frame s. send_by_type frame.frametype o frame s) event s
on_event o check_media_state event s = on_check o s
on_event o end_of_stream event s = some (s, [])

-- The time from an event to the first of the queue.
unfoldable pub delay_after : Timeval → Queue → Store → Option (Option Timeval)
delay_after time q h =
    if ltb_ℤ (pos 0) q.size
    then (get_time h q.first >>= λ first. some (some (calculate_delta time first)))
    else some none

-- Behind the switch: the timeout of the next `select`, and `free(event)`.
unfoldable pub after_event : Ptr → State × List Action → Option Fired
unfolding delay_after
after_event event (s, actions) = get_time s.store event >>= λ time.
    delay_after time s.queue s.store >>= λ delay. free_event s.store event >>= λ h. some (record {
      state = record s { store = h };
      actions = actions;
      delay = delay;
      signalled = ltb_ℤ s.queue.size (pos (queuesize / 2));
    })

-- An event is taken out of the queue, handled by the switch `handle`, and freed.
unfoldable pub on_timeout :
    (TimeoutType → Ptr → State → Option (State × List Action)) → State → Option Fired
on_timeout handle s = pull_event s.queue s.store >>= λ (event, q, h).
    (let pulled = record s { queue = q; store = h } in
      let handled = (handle (h.type event) event pulled >>= after_event event) in
      if event == null
      then some (record { state = pulled; actions = []; delay = none; signalled = false })
      else handled)

-- The same before the next `select` of any other round: the time from now to the first event, or none
-- if that is past.
abbrev pub not_negative : Timeval → Timeval
not_negative delta =
    if ltb_ℤ delta.tv_sec (pos 0) then record { tv_sec = pos 0; tv_usec = pos 0 } else delta

unfoldable pub next_timeout : Timeval → Queue → Store → Option (Option Timeval)
next_timeout now q h =
    if ltb_ℤ (pos 0) q.size
    then (get_time h q.first >>= λ first. some (some (not_negative (calculate_delta now first))))
    else some none
