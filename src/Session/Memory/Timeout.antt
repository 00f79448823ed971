-- ===== src/Session/Memory/Timeout.antt =====
-- The branch of the timeouts of both main loops: it takes an event out of the queue and frees it.
use http2rtsp.Prelude.{
  ◌≡◌, refl, false, Option, List, [], ◌∷◌, arith, ◌==◌, inl, inr, Bool-cases, Every, Every->>=,
  Every-then,
}
use http2rtsp.Frame.{Frame, FrameType, video_frame, audio_frame}
use http2rtsp.Queue.{
  Ptr, null, Store, Queue, TimeoutType, frame_event, check_media_state, end_of_stream, valid,
  free_event, get_time,
}
use http2rtsp.Queue.Chain.{count}
use http2rtsp.Queue.Invariant.{IsQueue}
use http2rtsp.Queue.Link.{links}
use http2rtsp.Queue.Pull.{pull_event-nil, pull_event-Pulled}
use http2rtsp.Queue.Grow.{IsSound, frames_of-same}
use http2rtsp.Rtp.{checked_video_frame, send_audio_frame}
use http2rtsp.Sip.{SipMsg}
use http2rtsp.Sip.Clients.{Slots, send_audio, send_byes}
use http2rtsp.Session.{Action, State, Outside}
use http2rtsp.Session.Events.{
  Fired, on_event, on_timeout, delay_after, after_event, send_video, send_client_audio,
  send_by_type,
}
use http2rtsp.Session.Theatre.{theatre_send, send_theatre_audio, theatre_event}
use http2rtsp.Session.Memory.{
  HasQueue, Keeps, IsFresh, IsPulled, IsPulled-IsSound, StillOut, on_check-StillOut,
  on_frame-StillOut,
}

-- What is sent changes no queue and no memory.
send_video-Keeps : (o : Outside) (f : Frame) (s : State) → Every (Keeps s) (send_video o f s)
unfolding send_video
send_video-Keeps o f s =
    Every-then (Keeps s) (checked_video_frame o.beyond f s.rtpseqno_video) _ (λ sent. (refl, refl))

send_client_audio-Keeps : (f : Frame) (s : State) → Every (Keeps s) (send_client_audio f s)
unfolding send_client_audio
send_client_audio-Keeps f s =
    Every-then (Keeps s) (send_audio_frame f s.rtpseqno_audio) _ (λ sent. (refl, refl))

send_theatre_audio-Keeps :
    (slots : Slots) (f : Frame) (s : State) → Every (Keeps s) (send_theatre_audio slots f s)
unfolding send_theatre_audio
send_theatre_audio-Keeps slots f s =
    Every-then (Keeps s) (send_audio f slots s.rtpseqno_audio) _ (λ sent. (refl, refl))

pub send_by_type-Keeps :
    (o : Outside) (f : Frame) (s : State) (type : FrameType)
    → Every (Keeps s) (send_by_type type o f s)
send_by_type-Keeps o f s video_frame = send_video-Keeps o f s
send_by_type-Keeps o f s audio_frame = send_client_audio-Keeps f s

theatre_send-Keeps :
    (slots : Slots) (o : Outside) (f : Frame) (s : State) (type : FrameType)
    → Every (Keeps s) (theatre_send slots type o f s)
theatre_send-Keeps slots o f s video_frame = send_video-Keeps o f s
theatre_send-Keeps slots o f s audio_frame = send_theatre_audio-Keeps slots f s

-- The switches of the two servers.
pub on_event-StillOut :
    (o : Outside) (event : Ptr) (s : State) (xs : List Ptr) (type : TimeoutType)
    → s.store.type event ≡ type
    → IsFresh o s.store
    → IsPulled s.store s.queue event xs
    → Every (StillOut event) (on_event o type event s)
unfolding on_event
on_event-StillOut o event s xs frame_event type fresh v =
    on_frame-StillOut _ (λ f s. send_by_type-Keeps o f s f.frametype) event s xs type v
on_event-StillOut o event s xs check_media_state type fresh v =
    on_check-StillOut o event s xs fresh v
on_event-StillOut o event s xs end_of_stream type fresh v =
    (xs, IsPulled-IsSound s.store s.queue event xs v, v.out, v.alive)

pub theatre_event-StillOut :
    (slots : Slots) (old : SipMsg) (o : Outside) (event : Ptr) (s : State) (xs : List Ptr)
    (type : TimeoutType)
    → s.store.type event ≡ type
    → IsFresh o s.store
    → IsPulled s.store s.queue event xs
    → Every (StillOut event) (theatre_event slots old o type event s)
unfolding theatre_event
theatre_event-StillOut slots old o event s xs frame_event type fresh v =
    on_frame-StillOut _ (λ f s. theatre_send-Keeps slots o f s f.frametype) event s xs type v
theatre_event-StillOut slots old o event s xs check_media_state type fresh v =
    on_check-StillOut o event s xs fresh v
theatre_event-StillOut slots old o event s xs end_of_stream type fresh v =
    Every-then (StillOut event) (send_byes old slots) _
      (λ byes. (xs, IsPulled-IsSound s.store s.queue event xs v, v.out, v.alive))

-- The event is freed.
pub free_event-IsSound :
    (h : Store) (q : Queue) (event : Ptr) (ys : List Ptr)
    → IsSound h q ys
    → count event ys ≡ 0
    → Every (λ (k : Store). IsSound k q ys) (free_event h event)
free_event-IsSound h q event ys v out = elim (Bool-cases (valid h event)) [
  | inl ok ↦
      rw (ok, Every)
        (record {
          queue = record {
            forward = v.queue.forward;
            backward = v.queue.backward;
            distinct = v.queue.distinct;
            live = λ a i. ground (arith, v.queue.live a i, out);
            size_is = v.queue.size_is;
          };
          owns = record { once = v.owns.once; there = v.owns.there };
        })
  | inr bad ↦ rw (bad, Every) tt
]

abbrev pub HasQueueFired : Fired → Type 0
HasQueueFired fired = HasQueue fired.state

-- What the switch must leave, for an event that was just taken out.
abbrev pub LeavesQueue : (TimeoutType → Ptr → State → Option (State × List Action)) → State → Type 0
LeavesQueue handle s =
    (event : Ptr) (s' : State) (xs : List Ptr)
    → s'.store.live ≡ s.store.live
    → IsPulled s'.store s'.queue event xs
    → Every (StillOut event) (handle (s'.store.type event) event s')

pub pull_event-IsPulled :
    (h : Store) (q q' : Queue) (p : Ptr → Ptr) (x : Ptr) (xs : List Ptr)
    → IsSound h q (x ∷ xs)
    → IsQueue (links h h.next p) q' xs
    → IsPulled (links h h.next p) q' x xs
pull_event-IsPulled h q q' p x xs v z =
    let same = frames_of-same h (links h h.next p) (x ∷ xs) (λ a i. (refl, refl)) in
    record {
      queue = z;
      owns = record { once = rw same v.owns.once; there = rw same v.owns.there };
      out = ground (arith, v.queue.distinct x);
      alive = ground (arith, v.queue.live x (ground arith));
    }

pub after_event-HasQueue :
    (x : Ptr) (r : State × List Action) → StillOut x r → Every HasQueueFired (after_event x r)
unfolding after_event
after_event-HasQueue x (s, a) (ys, sound, out, alive) =
    Every-then HasQueueFired (get_time s.store x) _ (λ time.
      Every-then HasQueueFired (delay_after time s.queue s.store) _ (λ delay.
        Every->>= (λ (k : Store). IsSound k s.queue ys) HasQueueFired (free_event s.store x) _
          (free_event-IsSound s.store s.queue x ys sound out) (λ k done. (ys, done))))

-- The event that was pulled is handled, and then freed.
pub on_timeout-HasQueue :
    (handle : TimeoutType → Ptr → State → Option (State × List Action)) (s : State)
    → LeavesQueue handle s
    → HasQueue s
    → Every HasQueueFired (on_timeout handle s)
unfolding on_timeout
on_timeout-HasQueue handle s leaves ([], v) = rw (pull_event-nil s.store s.queue v.queue) ([], v)
on_timeout-HasQueue handle s leaves (x ∷ xs, v) =
    let (p, q', pulled, z) = pull_event-Pulled s.store s.queue x xs v.queue in
    let there : (x == null) ≡ false = ground (arith, v.queue.live x (ground arith)) in
    let h' = links s.store s.store.next p in
    rw (pulled, there)
      (Every->>= (StillOut x) HasQueueFired _ _
        (leaves x (record s { queue = q'; store = h' }) xs refl
          (pull_event-IsPulled s.store s.queue q' p x xs v z))
        (after_event-HasQueue x))
