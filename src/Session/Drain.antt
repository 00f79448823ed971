-- ===== src/Session/Drain.antt =====
-- The frames of the queue go out in its order, one with each timeout of server.c, and are freed.
pub mod Emptied
use http2rtsp.Prelude.{
  ◌+◌, ◌/◌, ◌≡◌, refl, ap, ◌∙◌, true, false, Option, none, some, ◌>>=◌, Every-elim, List, [], ◌∷◌,
  ◌++◌, ◌==◌, arith,
}
use http2rtsp.Prelude.Int.{pos, ltb_ℤ}
use http2rtsp.Frame.{Frame, FrameType, video_frame, audio_frame}
use http2rtsp.Queue.{
  Ptr, null, Store, Queue, frame_event, valid, update, free_frame, free_event, queuesize,
}
use http2rtsp.Queue.Link.{links}
use http2rtsp.Queue.Pull.{pull_event-Pulled}
use http2rtsp.Queue.Grow.{IsSound}
use http2rtsp.Rtp.{checked_video_frame, send_audio_frame}
use http2rtsp.Session.{Action, State, Outside}
use http2rtsp.Session.Events.{
  Fired, on_frame, on_event, on_timeout, after_event, send_video, send_client_audio, send_by_type,
}
use http2rtsp.Session.Memory.{free_frame-IsSound, IsPulled}
use http2rtsp.Session.Memory.Timeout.{pull_event-IsPulled, free_event-IsSound}
use http2rtsp.Session.Memory.Returns.{delay_after-Returns}

-- The timeouts one after the other.
abbrev pub serve_timeouts : List Outside → State → Option (State × List Action)
serve_timeouts [] s = some (s, [])
serve_timeouts (o ∷ os) s = on_timeout (on_event o) s >>= λ fired.
    serve_timeouts os fired.state >>= λ (s, more). some (s, fired.actions ++ more)

-- The frames sent one after the other.
abbrev pub send_each : List (Outside × Frame) → State → Option (State × List Action)
send_each [] s = some (s, [])
send_each ((o, f) ∷ rest) s = send_by_type f.frametype o f s >>= λ (s, actions).
    send_each rest s >>= λ (s, more). some (s, actions ++ more)

abbrev pub with_memory : Queue → Store → State → State
with_memory q h s = record s { queue = q; store = h }

bind_assoc {ℓ} :
    {A B C : Type ℓ} (m : Option A) (f : A → Option B) (g : B → Option C)
    → (m >>= λ a. f a >>= g) ≡ (m >>= f >>= g)
bind_assoc none f g = refl
bind_assoc (some a) f g = refl

abbrev moved : Queue → Store → State × List Action → Option (State × List Action)
moved q h (s, actions) = some (with_memory q h s, actions)

-- What is sent does not depend on the queue and the memory.
pub send_by_type-with_memory :
    (type : FrameType) (o : Outside) (f : Frame) (q : Queue) (h : Store) (s s1 : State)
    (actions : List Action)
    → send_by_type type o f s ≡ some (s1, actions)
    → send_by_type type o f (with_memory q h s) ≡ some (with_memory q h s1, actions)
unfolding send_video send_client_audio
send_by_type-with_memory video_frame o f q h s s1 actions e =
    bind_assoc (checked_video_frame o.beyond f s.rtpseqno_video) _ (moved q h)
    ∙ ap (λ m. m >>= moved q h) e
send_by_type-with_memory audio_frame o f q h s s1 actions e =
    bind_assoc (send_audio_frame f s.rtpseqno_audio) _ (moved q h) ∙ ap (λ m. m >>= moved q h) e

-- What a timeout leaves that took the frame event `x` out of the queue.
abbrev pub Sent : Store → State → Ptr → List Ptr → List Action → Fired → Type 0
Sent h s1 x xs actions fired =
    (q : Queue) × (k : Store) × (fired.state ≡ with_memory q k s1)
    × (fired.actions ≡ actions)
    × IsSound k q xs
    × (k.type ≡ h.type)
    × (k.frame ≡ h.frame)
    × (k.frames ≡ update h.frames (h.frame x) none)
    × (k.live ≡ update h.live x false)

pub on_timeout-Sent :
    (o : Outside) (s s1 : State) (x : Ptr) (xs : List Ptr) (f : Frame) (actions : List Action)
    → IsSound s.store s.queue (x ∷ xs)
    → s.store.type x ≡ frame_event
    → s.store.frames (s.store.frame x) ≡ some f
    → send_by_type f.frametype o f s ≡ some (s1, actions)
    → (fired : Fired) × (on_timeout (on_event o) s ≡ some fired)
      × Sent s.store s1 x xs actions fired
unfolding on_timeout on_event on_frame after_event
on_timeout-Sent o s s1 x xs f actions v type there send =
    let (p, q, pulled, z) = pull_event-Pulled s.store s.queue x xs v.queue in
    let alive = v.queue.live x (ground arith) in
    let not_null : (x == null) ≡ false = ground (arith, alive) in
    let h = links s.store s.store.next p in
    let out : IsPulled h q x xs = pull_event-IsPulled s.store s.queue q p x xs v z in
    let h2 : Store = record h { frames = update h.frames (h.frame x) none } in
    let freed : free_frame h (h.frame x) ≡ some h2 = rw (there, free_frame) refl in
    let sound = Every-elim _ _ h2 (free_frame-IsSound h q x xs type out) freed in
    let ok : valid h2 x ≡ true = ground (arith, alive) in
    let (delay, told) = delay_after-Returns (h2.time x) h2 q xs sound.0 in
    let h3 : Store = record h2 { live = update h2.live x false } in
    let gone : free_event h2 x ≡ some h3 = rw ok refl in
    let sound3 = Every-elim _ _ h3 (free_event-IsSound h2 q x xs sound.0 out.out) gone in
    let fired : Fired = record {
      state = with_memory q h3 s1;
      actions = actions;
      delay = delay;
      signalled = ltb_ℤ q.size (pos (queuesize / 2));
    } in
    let sent = send_by_type-with_memory f.frametype o f q h s s1 actions send in
    let handled : on_event o (h.type x) x (with_memory q h s)
        ≡ some (with_memory q h2 s1, actions) =
      rw (type, there, sent, freed) refl in
    let done : after_event x (with_memory q h2 s1, actions) ≡ some fired = rw (ok, told) refl in
    (
      fired,
      rw (pulled, not_null, handled, done) refl,
      (q, h3, refl, refl, sound3, refl, refl, refl, refl),
    )
