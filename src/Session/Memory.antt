-- ===== src/Session/Memory.antt =====
-- What the branches of the main loop and the rounds of the queue thread leave in memory: a well-formed
-- queue that owns its frames.
pub mod Timeout
pub mod Requests
pub mod Media
pub mod Filling
pub mod Returns
pub mod Teardown
pub mod Hangup
pub mod Next
use http2rtsp.Prelude.{
  ℕ, ◌≡◌, ◌≢◌, refl, sym, ◌∙◌, subst, true, false, Option, some, ◌>>=◌, List, [], ◌∷◌, arith, inl,
  inr, Bool-cases, Option-cases, Every, Every->>=,
}
use http2rtsp.Frame.{Frame}
use http2rtsp.Queue.{Ptr, null, Store, Queue, frame_event, check_media_state, free_frame}
use http2rtsp.Queue.Chain.{count, count-append}
use http2rtsp.Queue.Invariant.{IsQueue}
use http2rtsp.Queue.Clear.{OwnsFrames, OwnsFrames-tail, frames_of, contents}
use http2rtsp.Queue.Grow.{IsSound, Grows, Brings, push_timeout-Grows, push_timeout-some}
use http2rtsp.Session.{Action, State, Outside}
use http2rtsp.Session.Requests.{push_check}
use http2rtsp.Session.Events.{on_frame, on_check, is_stream}

abbrev pub HasQueue : State → Type 0
HasQueue s = (xs : List Ptr) × IsSound s.store s.queue xs

-- The addresses that `malloc` gives are not null, not in use, and not the same.
pub record IsFresh (o : Outside) (h : Store) : Type 0 where
  pub unused1 : h.live o.event1 ≡ false
  pub unused2 : h.live o.event2 ≡ false
  pub given1 : o.event1 ≢ null
  pub given2 : o.event2 ≢ null
  pub two : o.event1 ≢ o.event2

pub IsFresh-same : (o : Outside) (h k : Store) → k.live ≡ h.live → IsFresh o h → IsFresh o k
IsFresh-same o h k same fresh = record {
  unused1 = rw same fresh.unused1;
  unused2 = rw same fresh.unused2;
  given1 = fresh.given1;
  given2 = fresh.given2;
  two = fresh.two;
}

-- A result with the queue and the memory of before.
abbrev pub Keeps : State → State × List Action → Type 0
Keeps s (s', a) = (s'.queue ≡ s.queue) × (s'.store ≡ s.store)

abbrev pub HasQueueThen : State × List Action → Type 0
HasQueueThen (s, a) = HasQueue s

Brings-null : (h : Store) (xs : List Ptr) → Brings h check_media_state null xs
Brings-null h xs a i = absurd (omega arith)

abbrev pub GrowsState : Store → Ptr → List Ptr → State → Type 0
GrowsState h event xs s = Grows h event xs (s.queue, s.store)

pub push_check-Grows :
    (event : Ptr) (o : Outside) (ms : ℕ) (s : State) (xs : List Ptr)
    → IsSound s.store s.queue xs
    → s.store.live event ≡ false
    → event ≢ null
    → Every (GrowsState s.store event xs) (push_check event o ms s)
push_check-Grows event o ms s xs v fresh ne =
    Every->>= (Grows s.store event xs) (GrowsState s.store event xs) _ _
      (push_timeout-Grows s.store s.queue event xs v fresh ne o.now ms check_media_state
        (Brings-null s.store xs))
      (λ r g. g)

pub push_check-some :
    (event : Ptr) (o : Outside) (ms : ℕ) (s : State) (xs : List Ptr)
    → IsSound s.store s.queue xs
    → s.store.live event ≡ false
    → event ≢ null
    → (r : Queue × Store) × (push_check event o ms s ≡ some (record s { queue = r.0; store = r.1 }))
      × Grows s.store event xs r
push_check-some event o ms s xs v fresh ne =
    let (r, out, grows) =
      push_timeout-some s.store s.queue event xs v fresh ne o.now ms check_media_state
        (Brings-null s.store xs) in
    (r, rw out refl, grows)

-- An event that was taken out of the queue and is still in memory, with its frame.
pub record IsPulled (h : Store) (q : Queue) (event : Ptr) (xs : List Ptr) : Type 0 where
  pub queue : IsQueue h q xs
  pub owns : OwnsFrames h (event ∷ xs)
  pub out : count event xs ≡ 0
  pub alive : h.live event ≡ true

OwnsFrames-weaken : (h : Store) (x : Ptr) (xs : List Ptr) → OwnsFrames h (x ∷ xs) → OwnsFrames h xs
OwnsFrames-weaken h x xs o =
    let both = λ (a : Ptr). count-append a (contents (h.type x) (h.frame x)) (frames_of h xs) in
    record {
      once = λ a. omega (arith, o.once a, both a);
      there = λ a i. o.there a (omega (arith, both a));
    }

-- What the switch on the event leaves: the event is still out of the queue, and not freed.
abbrev pub StillOut : Ptr → State × List Action → Type 0
StillOut event (s, a) =
    (xs : List Ptr) × IsSound s.store s.queue xs
    × (count event xs ≡ 0)
    × (s.store.live event ≡ true)

pub IsPulled-IsSound :
    (h : Store) (q : Queue) (event : Ptr) (xs : List Ptr) → IsPulled h q event xs → IsSound h q xs
IsPulled-IsSound h q event xs v = record {
  queue = v.queue;
  owns = OwnsFrames-weaken h event xs v.owns;
}

-- A dummy packet and the next check.
pub on_check-StillOut :
    (o : Outside) (event : Ptr) (s : State) (xs : List Ptr)
    → IsFresh o s.store
    → IsPulled s.store s.queue event xs
    → Every (StillOut event) (on_check o s)
unfolding on_check
on_check-StillOut o event s xs fresh v =
    let sound = IsPulled-IsSound s.store s.queue event xs v in
    elim (Bool-cases (is_stream s.mediastate)) [
      | inl there ↦ rw there (xs, sound, v.out, v.alive)
      | inr waiting ↦ rw waiting (
          Every->>= (GrowsState s.store o.event1 xs) (StillOut event) _ _
            (push_check-Grows o.event1 o 1000 (record s { rtpseqno_video = _ }) xs sound
              fresh.unused1 fresh.given1)
            (λ s' (ys, sound, lives, out). (
              ys,
              sound,
              out event v.alive v.out,
              lives event ∙ ground (arith, v.alive, fresh.unused1),
            )))
    ]

-- The frame of an event outside the queue is freed.
pub free_frame-IsSound :
    (h : Store) (q : Queue) (event : Ptr) (xs : List Ptr)
    → h.type event ≡ frame_event
    → IsPulled h q event xs
    → Every (λ (k : Store). IsSound k q xs × (k.live ≡ h.live)) (free_frame h (h.frame event))
free_frame-IsSound h q event xs type v = elim (Option-cases (h.frames (h.frame event))) [
  | inl missing ↦ rw (missing, free_frame, Every) tt
  | inr (f, there) ↦
      let left = OwnsFrames-tail h event xs v.owns in
      rw (there, free_frame, Every)
        (
          record {
            queue = record {
              forward = v.queue.forward;
              backward = v.queue.backward;
              distinct = v.queue.distinct;
              live = v.queue.live;
              size_is = v.queue.size_is;
            };
            owns = record { once = left.once; there = rw type at left.there };
          },
          refl,
        )
]

-- A frame is sent and freed, and no event of the queue has it.
pub on_frame-StillOut :
    (send : Frame → State → Option (State × List Action))
    (kept : (f : Frame) (s : State) → Every (Keeps s) (send f s)) (event : Ptr) (s : State)
    (xs : List Ptr)
    → s.store.type event ≡ frame_event
    → IsPulled s.store s.queue event xs
    → Every (StillOut event) (on_frame send event s)
unfolding on_frame
on_frame-StillOut send kept event s xs type v =
    elim (Option-cases (s.store.frames (s.store.frame event))) [
      | inl missing ↦ rw missing tt
      | inr (f, there) ↦ rw there (
          Every->>= (Keeps s) (StillOut event) (send f s) _ (kept f s) (λ (s', a) (same_q, same_h).
            rw same_h (
              Every->>= (λ (k : Store). IsSound k s.queue xs × (k.live ≡ s.store.live))
                (StillOut event) _ _ (free_frame-IsSound s.store s.queue event xs type v)
                (λ k (sound, lives). (
                  xs,
                  subst (λ (q : Queue). IsSound k q xs) (sym same_q) sound,
                  v.out,
                  rw lives v.alive,
                )))))
    ]
