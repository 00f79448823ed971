-- ===== src/Queue/Grow.antt =====
-- New events in a well-formed queue, for any times.
use http2rtsp.Prelude.{
  ℕ, ltb, tests, Bool-cases, inl, inr, Every, Every-some, Returns, ◌+◌, ◌<◌, ◌≤◌, ◌≡◌, ◌≢◌, refl,
  ap, ◌∙◌, true, false, some, List, [], ◌∷◌, ◌++◌, arith, ◌==◌, if◌then◌else◌, reverse,
}
use mathlib.Core.List.{reverse-cons}
use http2rtsp.Frame.{Frame}
use http2rtsp.Time.{Timeval, timeout_at}
use http2rtsp.Queue.{
  Ptr, null, Store, Queue, TimeoutType, frame_event, check_media_state, end_of_stream, update,
  push_event, push_timeout,
}
use http2rtsp.Queue.Chain.{count, count-append, count-reverse, Chain-update}
use http2rtsp.Queue.Invariant.{IsQueue}
use http2rtsp.Queue.Link.{links}
use http2rtsp.Queue.Push.{placed, push_event-Pushed}
use http2rtsp.Queue.Clear.{OwnsFrames, frames_of, contents}
use http2rtsp.Queue.Walk.{kept, passed, passed-append-kept}

-- The memory with a new event.
abbrev pub allocated : Store → Ptr → Timeval → TimeoutType → Ptr → Store
allocated h event time type frame = record h {
  live = update h.live event true;
  time = update h.time event time;
  type = update h.type event type;
  frame = update h.frame event frame;
}

pub count-placed :
    (h : Store) (event : Ptr) (xs : List Ptr) (a : Ptr)
    → count a (placed h event xs) ≡ (if a == event then 1 else 0) + count a xs
count-placed h event xs a =
    let here = kept h (h.time event) (reverse xs) in
    let there = passed h (h.time event) (reverse xs) in
    omega (
      arith,
      count-append a (reverse here) (event ∷ reverse there),
      count-reverse a here,
      count-reverse a there,
      ap (count a) (passed-append-kept h (h.time event) (reverse xs)),
      count-append a there here,
      count-reverse a xs,
    )

-- The frames of the events, event by event.
count-frames_of-append :
    (h : Store) (xs ys : List Ptr) (a : Ptr)
    → count a (frames_of h (xs ++ ys)) ≡ count a (frames_of h xs) + count a (frames_of h ys)
count-frames_of-append h [] ys a = omega arith
count-frames_of-append h (x ∷ xs) ys a =
    let c = contents (h.type x) (h.frame x) in
    omega (
      arith,
      count-frames_of-append h xs ys a,
      count-append a c (frames_of h (xs ++ ys)),
      count-append a c (frames_of h xs),
    )

count-frames_of-reverse :
    (h : Store) (xs : List Ptr) (a : Ptr)
    → count a (frames_of h (reverse xs)) ≡ count a (frames_of h xs)
count-frames_of-reverse h [] a = refl
count-frames_of-reverse h (x ∷ xs) a =
    let c = contents (h.type x) (h.frame x) in
    rw (reverse-cons x xs, count-frames_of-append h (reverse xs) (x ∷ []) a)
      (omega (
        arith,
        count-frames_of-reverse h xs a,
        count-append a c (frames_of h xs),
        count-append a c [],
      ))

count-frames_of-placed :
    (h k : Store) (event : Ptr) (xs : List Ptr) (a : Ptr)
    → count a (frames_of h (placed k event xs))
      ≡ count a (contents (h.type event) (h.frame event)) + count a (frames_of h xs)
count-frames_of-placed h k event xs a =
    let here = kept k (k.time event) (reverse xs) in
    let there = passed k (k.time event) (reverse xs) in
    let c = contents (h.type event) (h.frame event) in
    omega (
      arith,
      count-frames_of-append h (reverse here) (event ∷ reverse there) a,
      count-append a c (frames_of h (reverse there)),
      count-frames_of-reverse h here a,
      count-frames_of-reverse h there a,
      ap (λ ys. count a (frames_of h ys)) (passed-append-kept k (k.time event) (reverse xs)),
      count-frames_of-append h there here a,
      count-frames_of-reverse h xs a,
    )

pub frames_of-same :
    (h k : Store) (xs : List Ptr)
    → ((a : Ptr) → 0 < count a xs → (k.type a ≡ h.type a) × (k.frame a ≡ h.frame a))
    → frames_of k xs ≡ frames_of h xs
frames_of-same h k [] same = refl
frames_of-same h k (x ∷ xs) same =
    let here = same x (ground arith) in
    let rest : frames_of k xs ≡ frames_of h xs =
      frames_of-same h k xs (λ a i. same a (ground arith)) in
    rw (here.0, here.1, rest)

-- A well-formed queue that owns its frames.
pub record IsSound (h : Store) (q : Queue) (xs : List Ptr) : Type 0 where
  pub queue : IsQueue h q xs
  pub owns : OwnsFrames h xs

-- The outcome of an operation that adds a new event: it is allocated, and nothing else that was in
-- memory outside the queue enters it.
abbrev pub Grows : Store → Ptr → List Ptr → Queue × Store → Type 0
Grows h event xs (q', h') =
    (ys : List Ptr) × IsSound h' q' ys
    × ((a : Ptr) → h'.live a ≡ update h.live event true a)
    × ((a : Ptr) → h.live a ≡ true → count a xs ≡ 0 → count a ys ≡ 0)

-- The frame that a new event brings is in memory, and no event of the queue has it.
abbrev pub Brings : Store → TimeoutType → Ptr → List Ptr → Type 0
Brings h type frame xs =
    (a : Ptr)
    → 0 < count a (contents type frame)
    → (count a (frames_of h xs) ≡ 0) × ((f : Frame) × (h.frames a ≡ some f))

contents_once : (type : TimeoutType) (frame a : Ptr) → count a (contents type frame) ≤ 1
contents_once frame_event frame a = ground arith
contents_once check_media_state frame a = omega arith
contents_once end_of_stream frame a = omega arith

module _ (h : Store) (q : Queue) (event : Ptr) (xs : List Ptr) (v : IsSound h q xs)
    (fresh : h.live event ≡ false) (ne : event ≢ null) (time : Timeval) (type : TimeoutType)
    (frame : Ptr) (brings : Brings h type frame xs) where
  pub fresh-away : count event xs ≡ 0
  fresh-away = ground (arith, v.queue.live event)

  abbrev made : Store
  made = allocated h event time type frame

  made-IsQueue : IsQueue made q xs
  made-IsQueue = record {
    forward = v.queue.forward;
    backward = v.queue.backward;
    distinct = v.queue.distinct;
    live = λ a i. ground (arith, v.queue.live a);
    size_is = v.queue.size_is;
  }

  count-made :
      (k : Store) (n p : Ptr → Ptr) (a : Ptr)
      → count a (frames_of (links made n p) (placed k event xs))
        ≡ count a (contents type frame) + count a (frames_of h xs)
  count-made k n p a =
      let self : (event == event) ≡ true = ground arith in
      count-frames_of-placed (links made n p) k event xs a
      ∙ rw (
        self,
        frames_of-same h (links made n p) xs (λ b i.
            let other : (b == event) ≡ false = ground (arith, fresh-away) in rw other (refl, refl)),
      )

  placed-OwnsFrames :
      (k : Store) (n p : Ptr → Ptr) → OwnsFrames (links made n p) (placed k event xs)
  placed-OwnsFrames k n p = record {
    once = λ a. elim (Bool-cases (ltb 0 (count a (contents type frame)))) [
      | inl brought ↦
          omega (tests, count-made k n p a, contents_once type frame a, (brings a (omega tests)).0)
      | inr old ↦ omega (arith, count-made k n p a, v.owns.once a, none_of a old)
    ];
    there = λ a i. elim (Bool-cases (ltb 0 (count a (contents type frame)))) [
      | inl brought ↦ (brings a (omega tests)).1
      | inr old ↦ v.owns.there a (omega (arith, count-made k n p a, none_of a old))
    ];
  }
    where
      none_of :
          (a : Ptr)
          → ltb 0 (count a (contents type frame)) ≡ false
          → count a (contents type frame) ≡ 0
      none_of a old = ground arith

  placed-Grows :
      (k : Store) (n p : Ptr → Ptr) (q' : Queue)
      → IsQueue (links made n p) q' (placed k event xs)
      → Grows h event xs (q', links made n p)
  placed-Grows k n p q' z = (
    placed k event xs,
    record { queue = z; owns = placed-OwnsFrames k n p },
    λ a. refl,
    λ a l out. count-placed k event xs a ∙ ground arith,
  )

  -- `push_event` on a new event.
  pub push_event-Grows : Every (Grows h event xs) (push_event event q made)
  push_event-Grows =
      let (n, p, q', out, z) =
        push_event-Pushed made q event xs made-IsQueue fresh-away (ground arith) in
      Every-some (Grows h event xs) (push_event event q made) (q', links made n p) out
        (placed-Grows made n p q' z)

  pub push_event-Returns : Returns (push_event event q made)
  push_event-Returns =
      let (n, p, q', out, z) =
        push_event-Pushed made q event xs made-IsQueue fresh-away (ground arith) in
      ((q', links made n p), out)

  cleared-IsQueue : IsQueue (links made (update h.next event null) (update h.prev event null)) q xs
  cleared-IsQueue = record {
    forward = Chain-update h.next event null xs q.first null v.queue.forward fresh-away;
    backward =
        Chain-update h.prev event null (reverse xs) q.last null v.queue.backward
          (rw (count-reverse event xs) fresh-away);
    distinct = v.queue.distinct;
    live = λ a i. ground (arith, v.queue.live a);
    size_is = v.queue.size_is;
  }

module _ (h : Store) (q : Queue) (event : Ptr) (xs : List Ptr) (v : IsSound h q xs)
    (fresh : h.live event ≡ false) (ne : event ≢ null) (now : Timeval) (ms : ℕ) where
  -- `push_timeout` with an unused address and any time.
  pub push_timeout-some :
      (type : TimeoutType)
      → Brings h type null xs
      → (r : Queue × Store) × (push_timeout event now ms type q h ≡ some r) × Grows h event xs r
  unfolding push_timeout
  push_timeout-some type brings =
      let made = allocated h event (timeout_at now ms) type null in
      let cleared = links made (update h.next event null) (update h.prev event null) in
      let (n, p, q', out, z) =
        push_event-Pushed cleared q event xs
          (cleared-IsQueue h q event xs v fresh ne (timeout_at now ms) type null brings)
          (fresh-away h q event xs v fresh ne (timeout_at now ms) type null brings)
          (ground arith) in
      (
        (q', links made n p),
        ground (arith, out),
        placed-Grows h q event xs v fresh ne (timeout_at now ms) type null brings cleared n p q' z,
      )

  pub push_timeout-Grows :
      (type : TimeoutType)
      → Brings h type null xs
      → Every (Grows h event xs) (push_timeout event now ms type q h)
  push_timeout-Grows type brings =
      let (r, out, grows) = push_timeout-some type brings in
      Every-some (Grows h event xs) (push_timeout event now ms type q h) r out grows
