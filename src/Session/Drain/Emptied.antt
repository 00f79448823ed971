-- ===== src/Session/Drain/Emptied.antt =====
-- As many timeouts as events empty a queue of frames.
use http2rtsp.Prelude.{
  ◌^◌, ◌≤◌, ◌<◌, ◌≡◌, refl, true, false, none, some, Every, Every-then, Every-elim, List, [], ◌∷◌,
  ◌++◌, map, ◌==◌, arith,
}
use http2rtsp.Frame.{Frame, FrameType, video_frame, audio_frame}
use http2rtsp.Queue.{Ptr, Store, Queue, frame_event, update}
use http2rtsp.Queue.Chain.{count}
use http2rtsp.Queue.Clear.{frames_of, OwnsFrames}
use http2rtsp.Queue.Grow.{IsSound}
use http2rtsp.Rtp.{checked_video_frame, send_audio_frame}
use http2rtsp.Session.{Action, State, Outside}
use http2rtsp.Session.Events.{send_video, send_client_audio, send_by_type}
use http2rtsp.Session.Memory.Returns.{FitsType, send_by_type-Returns}
use http2rtsp.Session.Drain.{
  serve_timeouts, send_each, with_memory, send_by_type-with_memory, on_timeout-Sent,
}

-- The frames of the events, each of which can be sent, with what its timeout gets from outside.
abbrev pub AreQueued : Store → List Ptr → List (Outside × Frame) → Type 0
AreQueued h [] [] = Unit
AreQueued h [] (job ∷ rest) = ⊥
AreQueued h (x ∷ xs) [] = ⊥
AreQueued h (x ∷ xs) ((o, f) ∷ rest) =
    (h.type x ≡ frame_event)
    × (h.frames (h.frame x) ≡ some f)
    × FitsType f.frametype f
    × AreQueued h xs rest

-- They stay when a frame is freed that is not among them.
AreQueued-kept :
    (h k : Store) (a : Ptr) (xs : List Ptr) (jobs : List (Outside × Frame))
    → k.type ≡ h.type
    → k.frame ≡ h.frame
    → k.frames ≡ update h.frames a none
    → count a (frames_of h xs) ≡ 0
    → AreQueued h xs jobs
    → AreQueued k xs jobs
AreQueued-kept h k a [] [] types frame frames out all = tt
AreQueued-kept h k a [] (job ∷ rest) types frame frames out all = all
AreQueued-kept h k a (x ∷ xs) [] types frame frames out all = all
AreQueued-kept h k a (x ∷ xs) ((o, f) ∷ rest) types frame frames out (type, there, fits, all) =
    let none_here : count a (h.frame x ∷ frames_of h xs) ≡ 0 = rw type at out in
    let other : (h.frame x == a) ≡ false = ground (arith, none_here) in
    (
      rw types type,
      rw (frames, frame, other) there,
      fits,
      AreQueued-kept h k a xs rest types frame frames (ground (arith, none_here)) all,
    )

sent-small :
    (type : FrameType) (o : Outside) (f : Frame) (s : State)
    → s.rtpseqno_video < 2 ^ 16
    → Every (λ r. r.0.rtpseqno_video < 2 ^ 16) (send_by_type type o f s)
unfolding send_video send_client_audio
sent-small video_frame o f s small =
    Every-then (λ r. r.0.rtpseqno_video < 2 ^ 16) (checked_video_frame o.beyond f s.rtpseqno_video)
      _ (λ sent. omega arith)
sent-small audio_frame o f s small =
    Every-then (λ r. r.0.rtpseqno_video < 2 ^ 16) (send_audio_frame f s.rtpseqno_audio) _
      (λ sent. small)

-- The frame of the first event is not that of another.
frame-once :
    (h : Store) (x : Ptr) (xs : List Ptr)
    → OwnsFrames h (x ∷ xs)
    → h.type x ≡ frame_event
    → count (h.frame x) (frames_of h xs) ≡ 0
frame-once h x xs owns type =
    let one : count (h.frame x) (h.frame x ∷ frames_of h xs) ≤ 1 =
      rw type at (owns.once (h.frame x)) in
    ground (arith, one)

-- What is there afterwards was there before, and is none of the events.
abbrev pub Left : Store → List Ptr → State → Type 0
Left h xs s =
    IsSound s.store s.queue []
    × ((a : Ptr) → s.store.live a ≡ true → (h.live a ≡ true) × (count a xs ≡ 0))

abbrev Drained : List (Outside × Frame) → List Ptr → Queue → Store → State → Type 0
Drained jobs xs q h s =
    (s1 s2 : State) × (actions : List Action) × (send_each jobs s ≡ some (s1, actions))
    × (serve_timeouts (map (λ job. job.0) jobs) (with_memory q h s) ≡ some (s2, actions))
    × Left h xs s2

before_free :
    (h k : Store) (x a : Ptr) (xs : List Ptr)
    → k.live ≡ update h.live x false
    → (k.live a ≡ true) × (count a xs ≡ 0)
    → (h.live a ≡ true) × (count a (x ∷ xs) ≡ 0)
before_free h k x a xs lives (alive, out) =
    let still : update h.live x false a ≡ true = rw lives at alive in ground (arith, still, out)

drain-from :
    (jobs : List (Outside × Frame)) (xs : List Ptr) (q : Queue) (h : Store) (s : State)
    → IsSound h q xs
    → s.rtpseqno_video < 2 ^ 16
    → AreQueued h xs jobs
    → Drained jobs xs q h s
drain-from [] [] q h s v small all =
    (s, with_memory q h s, [], refl, refl, (v, λ a alive. (alive, refl)))
drain-from (job ∷ rest) [] q h s v small all = absurd all
drain-from [] (x ∷ xs) q h s v small all = absurd all
drain-from ((o, f) ∷ rest) (x ∷ xs) q h s v small (type, there, fits, all) =
    let ((t, first), sent) = send_by_type-Returns f.frametype o f s small fits in
    let small' = Every-elim _ _ (t, first) (sent-small f.frametype o f s small) sent in
    let (fired, run, (q', k, state, acts, sound, types, frame, frames, lives)) =
      on_timeout-Sent o (with_memory q h s) (with_memory q h t) x xs f first v type there
        (send_by_type-with_memory f.frametype o f q h s t first sent) in
    let kept =
      AreQueued-kept h k (h.frame x) xs rest types frame frames (frame-once h x xs v.owns type)
        all in
    let (s1, s2, more, sends, serves, (empty, left)) =
      drain-from rest xs q' k t sound small' kept in
    (
      s1,
      s2,
      first ++ more,
      rw (sent, sends) refl,
      rw (run, state, acts, serves) refl,
      (empty, λ a alive. before_free h k x a xs lives (left a alive)),
    )

-- With as many timeouts as events the queue of server.c is emptied without a fault, if it holds frames
-- only and they can be sent: video frames of 5 to 63992 bytes with a timestamp of 32 bits, and audio
-- frames that fit the buffer behind their header. The sequence number has 16 bits. Their packets go out in the order of the queue, as if they were sent one after the other, and
-- the events are freed.
pub serve_timeouts-send_each :
    (jobs : List (Outside × Frame)) (xs : List Ptr) (s : State)
    → IsSound s.store s.queue xs
    → s.rtpseqno_video < 2 ^ 16
    → AreQueued s.store xs jobs
    → (s1 s2 : State) × (actions : List Action) × (send_each jobs s ≡ some (s1, actions))
      × (serve_timeouts (map (λ job. job.0) jobs) s ≡ some (s2, actions))
      × Left s.store xs s2
serve_timeouts-send_each jobs xs s v small all = drain-from jobs xs s.queue s.store s v small all
