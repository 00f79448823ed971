-- ===== src/Session/Memory/Returns.antt =====
-- The branch of the timeouts of server.c never faults.
use http2rtsp.Prelude.{
  ◌+◌, ◌^◌, ◌≤◌, ◌<◌, ◌≡◌, ◌≢◌, refl, ◌∙◌, true, false, Option, none, some, List, [], ◌∷◌, ◌==◌,
  arith, length, ltb, inl, inr, Bool-cases, Every-elim, Returns, Returns-then,
}
use http2rtsp.Prelude.Int.{pos, ltb_ℤ}
use http2rtsp.Frame.{Frame, FrameType, video_frame, audio_frame}
use http2rtsp.Time.{Timeval}
use http2rtsp.Queue.{
  Ptr, null, Store, Queue, TimeoutType, frame_event, check_media_state, end_of_stream, valid,
  free_frame, get_time,
}
use http2rtsp.Queue.Chain.{count}
use http2rtsp.Queue.Link.{links}
use http2rtsp.Queue.Pull.{pull_event-nil, pull_event-Pulled}
use http2rtsp.Queue.Clear.{OwnsFrames}
use http2rtsp.Queue.Grow.{IsSound}
use http2rtsp.Rtp.{checked_video_frame, send_audio_frame, send_dummy_rtp, bufsize}
use http2rtsp.Rtp.Delivery.{send_video_frame-Stream, checked-send_video_frame}
use http2rtsp.Session.{Action, State, Outside}
use http2rtsp.Session.Events.{
  Fired, on_frame, on_check, on_event, on_timeout, delay_after, after_event, is_stream, send_video,
  send_client_audio, send_by_type,
}
use http2rtsp.Session.Memory.{
  HasQueue, Keeps, IsFresh, IsFresh-same, IsPulled, IsPulled-IsSound, StillOut, push_check-some,
}
use http2rtsp.Session.Memory.Timeout.{
  HasQueueFired, send_by_type-Keeps, on_event-StillOut, pull_event-IsPulled, after_event-HasQueue,
}

-- A video frame whose unit fits a packet, and an audio frame that fits the buffer.
abbrev pub FitsType : FrameType → Frame → Type 0
FitsType video_frame f = (4 < length f.bytes) × (length f.bytes ≤ 63992) × (f.timestamp < 2 ^ 32)
FitsType audio_frame f = length f.bytes + 12 ≤ bufsize

pub send_by_type-Returns :
    (type : FrameType) (o : Outside) (f : Frame) (s : State)
    → s.rtpseqno_video < 2 ^ 16
    → FitsType type f
    → Returns (send_by_type type o f s)
unfolding send_video send_client_audio send_audio_frame
send_by_type-Returns video_frame o f s seq (low, high, time) =
    let (ps, sent, stream, there) =
      send_video_frame-Stream o.beyond f s.rtpseqno_video (omega arith) seq time in
    let checked =
      checked-send_video_frame o.beyond f s.rtpseqno_video (omega arith) low high ∙ sent in
    Returns-then (checked_video_frame o.beyond f s.rtpseqno_video) _ _ checked (_, refl)
send_by_type-Returns audio_frame o f s seq size =
    let small : ltb bufsize (length f.bytes + 12) ≡ false = ground arith in rw small (_, refl)

free_frame-Returns :
    (h : Store) (p : Ptr) (f : Frame) → h.frames p ≡ some f → Returns (free_frame h p)
free_frame-Returns h p f there = rw (there, free_frame) (_, refl)

-- The frame of an event that was pulled is in memory.
on_frame-Returns :
    (send : Frame → State → Option (State × List Action)) (event : Ptr) (s : State) (f : Frame)
    → s.store.frames (s.store.frame event) ≡ some f
    → Returns (send f s)
    → ((r : State × List Action) → send f s ≡ some r → r.0.store ≡ s.store)
    → Returns (on_frame send event s)
unfolding on_frame
on_frame-Returns send event s f there (r, sent) same =
    Returns-then (s.store.frames (s.store.frame event)) _ f there (
      Returns-then (send f s) _ r sent (
        let (h, freed) =
          free_frame-Returns r.0.store (r.0.store.frame event) f (rw (same r sent) there) in
        Returns-then (free_frame r.0.store (r.0.store.frame event)) _ h freed (_, refl)))

on_check-Returns :
    (o : Outside) (s : State) (xs : List Ptr)
    → IsSound s.store s.queue xs
    → IsFresh o s.store
    → Returns (on_check o s)
unfolding on_check
on_check-Returns o s xs v fresh = elim (Bool-cases (is_stream s.mediastate)) [
  | inl there ↦ rw there (_, refl)
  | inr waiting ↦
      let (r, pushed, grows) =
        push_check-some o.event1 o 1000
          (record s { rtpseqno_video = (send_dummy_rtp s.rtpseqno_video).1 }) xs v fresh.unused1
          fresh.given1 in
      rw waiting (Returns-then _ _ _ pushed (_, refl))
]

pulled-there :
    (h : Store) (event : Ptr) (xs : List Ptr)
    → OwnsFrames h (event ∷ xs)
    → h.type event ≡ frame_event
    → (f : Frame) × (h.frames (h.frame event) ≡ some f)
pulled-there h event xs owns type = owns.there (h.frame event) (rw type (ground arith))

on_event-Returns :
    (o : Outside) (event : Ptr) (s : State) (xs : List Ptr) (type : TimeoutType)
    → s.store.type event ≡ type
    → IsFresh o s.store
    → IsPulled s.store s.queue event xs
    → s.rtpseqno_video < 2 ^ 16
    → ((f : Frame)
        → s.store.type event ≡ frame_event
        → s.store.frames (s.store.frame event) ≡ some f
        → FitsType f.frametype f)
    → Returns (on_event o type event s)
unfolding on_event
on_event-Returns o event s xs frame_event type fresh v seq fits =
    let (f, there) = pulled-there s.store event xs v.owns type in
    on_frame-Returns (λ frame s. send_by_type frame.frametype o frame s) event s f there
      (send_by_type-Returns f.frametype o f s seq (fits f type there))
      (λ r sent.
        (Every-elim (Keeps s) (send_by_type f.frametype o f s) r
          (send_by_type-Keeps o f s f.frametype) sent).1)
on_event-Returns o event s xs check_media_state type fresh v seq fits =
    on_check-Returns o s xs (IsPulled-IsSound s.store s.queue event xs v) fresh
on_event-Returns o event s xs end_of_stream type fresh v seq fits = (_, refl)

pub delay_after-Returns :
    (time : Timeval) (h : Store) (q : Queue) (xs : List Ptr)
    → IsSound h q xs
    → Returns (delay_after time q h)
unfolding delay_after
delay_after-Returns time h q [] v =
    let none_there : ltb_ℤ (pos 0) q.size ≡ false = ground (arith, v.queue.size_is) in
    rw none_there (_, refl)
delay_after-Returns time h q (x ∷ xs) v =
    let some_there : ltb_ℤ (pos 0) q.size ≡ true = ground (arith, v.queue.size_is) in
    let ok : get_time h q.first ≡ some (h.time q.first) =
      ground (arith, v.queue.forward, v.queue.live x (ground arith)) in
    rw some_there (Returns-then (get_time h q.first) _ _ ok (_, refl))

after_event-Returns :
    (x : Ptr) (r : State × List Action)
    → x ≢ null
    → StillOut x r
    → (fired : Fired) × (after_event x r ≡ some fired)
unfolding after_event
after_event-Returns x (s, a) there (ys, sound, out, alive) =
    let ok : valid s.store x ≡ true = ground (arith, alive) in
    let (delay, told) = delay_after-Returns (s.store.time x) s.store s.queue ys sound in
    rw (ok, told) (_, refl)

-- Every event of the queue that has a frame has one that can be sent.
abbrev pub CanSend : Store → List Ptr → Type 0
CanSend h xs =
    (event : Ptr) (f : Frame)
    → 0 < count event xs
    → h.type event ≡ frame_event
    → h.frames (h.frame event) ≡ some f
    → FitsType f.frametype f

-- The branch of the timeouts of server.c ends without a fault and leaves a well-formed queue that owns
-- its frames, if it finds one, the addresses of malloc are not in use, and the frames of the queue can
-- be sent: a video frame has 5 to 63992 bytes, so that its unit fits a packet, and a timestamp of 32
-- bits, an audio frame fits the buffer behind its header.
pub on_timeout-Returns :
    (o : Outside) (s : State) (xs : List Ptr)
    → IsSound s.store s.queue xs
    → IsFresh o s.store
    → s.rtpseqno_video < 2 ^ 16
    → CanSend s.store xs
    → (fired : Fired) × (on_timeout (on_event o) s ≡ some fired) × HasQueue fired.state
unfolding on_timeout
on_timeout-Returns o s [] v fresh seq fits = (
  record { state = s; actions = []; delay = none; signalled = false },
  rw (pull_event-nil s.store s.queue v.queue) refl,
  ([], v),
)
on_timeout-Returns o s (x ∷ xs) v fresh seq fits =
    let (p, q', pulled, z) = pull_event-Pulled s.store s.queue x xs v.queue in
    let there : (x == null) ≡ false = ground (arith, v.queue.live x (ground arith)) in
    let h' = links s.store s.store.next p in
    let s' : State = record s { queue = q'; store = h' } in
    let out = pull_event-IsPulled s.store s.queue q' p x xs v z in
    let fresh' = IsFresh-same o s.store h' refl fresh in
    let (r, handled) =
      on_event-Returns o x s' xs (h'.type x) refl fresh' out seq
        (λ f type here. fits x f (ground arith) type here) in
    let still =
      Every-elim (StillOut x) (on_event o (h'.type x) x s') r
        (on_event-StillOut o x s' xs (h'.type x) refl fresh' out) handled in
    let (fired, done) = after_event-Returns x r (ground (arith, there)) still in
    (
      fired,
      rw (pulled, there, handled, done) refl,
      Every-elim HasQueueFired (after_event x r) fired (after_event-HasQueue x r still) done,
    )
