-- ===== src/Queue/Clear.antt =====
-- `empty_queue` frees every event of the queue with its frame, each once, and nothing else.
use http2rtsp.Prelude.{
  ℕ, zero, suc, ◌<◌, ◌≤◌, ◌≡◌, refl, ap, sym, ◌∙◌, true, false, Option, none, some, List, [], ◌∷◌,
  ◌++◌, arith, if◌then◌else◌, length, ◌==◌,
}
use http2rtsp.Prelude.Int.{pos, pos_part}
use http2rtsp.Frame.{Frame}
use http2rtsp.Queue.{
  Ptr, null, Store, Queue, TimeoutType, frame_event, check_media_state, end_of_stream, valid,
  update, free_contents, free_events, empty_queue, free_frame, get_next,
}
use http2rtsp.Queue.Chain.{Chain, count, count-append}
use http2rtsp.Queue.Invariant.{IsQueue}

-- the addresses of the frames that an event owns
abbrev pub contents : TimeoutType → Ptr → List Ptr
contents frame_event frame = frame ∷ []
contents check_media_state frame = []
contents end_of_stream frame = []

abbrev pub frames_of : Store → List Ptr → List Ptr
frames_of h [] = []
frames_of h (x ∷ xs) = contents (h.type x) (h.frame x) ++ frames_of h xs

abbrev pub clear_all {ℓ} : {A : Type ℓ} → A → (Ptr → A) → List Ptr → Ptr → A
clear_all v f [] = f
clear_all v f (x ∷ xs) = clear_all v (update f x v) xs

clear_all-append {ℓ} :
    {A : Type ℓ} (v : A) (f : Ptr → A) (xs ys : List Ptr)
    → clear_all v f (xs ++ ys) ≡ clear_all v (clear_all v f xs) ys
clear_all-append v f [] ys = refl
clear_all-append v f (x ∷ xs) ys = clear_all-append v (update f x v) xs ys

pub clear_all_lem {ℓ} :
    {A : Type ℓ} (v : A) (f : Ptr → A) (xs : List Ptr) (a : Ptr)
    → clear_all v f xs a ≡ (if count a xs == 0 then f a else v)
clear_all_lem v f [] a = refl
clear_all_lem v f (x ∷ xs) a = clear_all_lem v (update f x v) xs a ∙ ground arith

-- Each frame of an event in the queue is allocated, and belongs to one event only.
pub record OwnsFrames (h : Store) (xs : List Ptr) : Type 0 where
  pub once : (a : Ptr) → count a (frames_of h xs) ≤ 1
  pub there : (a : Ptr) → 0 < count a (frames_of h xs) → (f : Frame) × (h.frames a ≡ some f)

-- the memory without the events `xs` and their frames
abbrev pub without : Store → List Ptr → Store
without h xs = record h {
  live = clear_all false h.live xs;
  frames = clear_all none h.frames (frames_of h xs);
}

free_contents-lem :
    (k : TimeoutType) (h : Store) (x : Ptr)
    → ((a : Ptr) → 0 < count a (contents k (h.frame x)) → (f : Frame) × (h.frames a ≡ some f))
    → free_contents k h x
      ≡ some (record h { frames = clear_all none h.frames (contents k (h.frame x)) })
unfolding free_contents
free_contents-lem frame_event h x there =
    let (f, e) = there (h.frame x) (ground arith) in rw (e, free_frame)
free_contents-lem check_media_state h x there = refl
free_contents-lem end_of_stream h x there = refl

-- the memory without one event and its frame
abbrev pub without_one : Store → Ptr → Store
without_one h x = record h {
  live = update h.live x false;
  frames = clear_all none h.frames (contents (h.type x) (h.frame x));
}

pub OwnsFrames-tail :
    (h : Store) (x : Ptr) (xs : List Ptr) → OwnsFrames h (x ∷ xs) → OwnsFrames (without_one h x) xs
OwnsFrames-tail h x xs o =
    let c = contents (h.type x) (h.frame x) in
    record {
      once = λ a. omega (arith, o.once a, count-append a c (frames_of h xs));
      there = λ a i.
          let both = count-append a c (frames_of h xs) in
          let (f, e) = o.there a (omega arith) in
          (f, clear_all_lem none h.frames c a ∙ ground (arith, o.once a));
    }

-- the read ahead, on a chain of allocated events
get_ahead :
    (h : Store) (following : Ptr) (xs : List Ptr)
    → Chain h.next following xs null
    → ((a : Ptr) → 0 < count a xs → valid h a ≡ true)
    → (if following == null then some following else get_next h following)
      ≡ some (if following == null then null else h.next following)
get_ahead h following [] c live = rw c
get_ahead h following (x ∷ xs) c live = ground (arith, live x (ground arith), c.0)

free_events-without :
    (fuel : ℕ) (xs : List Ptr) (p following : Ptr) (h : Store)
    → Chain h.next p xs null
    → following ≡ (if p == null then null else h.next p)
    → ((a : Ptr) → count a xs ≤ 1)
    → ((a : Ptr) → 0 < count a xs → valid h a ≡ true)
    → OwnsFrames h xs
    → length xs < fuel
    → free_events fuel p following h ≡ some (without h xs)
unfolding free_events
free_events-without zero xs p following h c n d live o b = absurd (omega arith)
free_events-without (suc fuel) [] p following h c n d live o b = rw c
free_events-without (suc fuel) (x ∷ xs) p following h c n d live o b =
    let alive : h.live x ≡ true = ground (arith, live x (ground arith)) in
    let not_null : (x == null) ≡ false = ground (arith, live x (ground arith)) in
    let n' : following ≡ h.next x = n ∙ rw (c.0, not_null) in
    let c' : Chain h.next following xs null = rw n' c.1 in
    let live' : (a : Ptr) → 0 < count a xs → valid (without_one h x) a ≡ true =
      λ a i. ground (arith, live a (ground arith), d a) in
    let contents_lem = free_contents-lem (h.type x) h x (λ a i.
      o.there a
        (omega (arith, count-append a (contents (h.type x) (h.frame x)) (frames_of h xs)))) in
    rw (c.0, not_null, contents_lem, alive, get_ahead (without_one h x) following xs c' live')
      (free_events-without fuel xs following _ (without_one h x) c' refl (λ a. ground (arith, d a))
          live' (OwnsFrames-tail h x xs o) (omega arith)
        ∙ ap
            (λ (fs : Ptr → Option Frame).
              some (record h { live = clear_all false h.live (x ∷ xs); frames = fs }))
            (sym
              (clear_all-append none h.frames (contents (h.type x) (h.frame x)) (frames_of h xs))))

-- `empty_queue` ends without a fault with an empty queue: the events of the queue and the frames that
-- they own are freed, and whatever else is in memory stays.
pub empty_queue-without :
    (h : Store) (q : Queue) (xs : List Ptr)
    → IsQueue h q xs
    → OwnsFrames h xs
    → (q' : Queue) × (h' : Store) × (empty_queue q h ≡ some (q', h'))
      × IsQueue h' q' []
      × ((a : Ptr) → h'.live a ≡ (if count a xs == 0 then h.live a else false))
      × ((a : Ptr) → h'.frames a ≡ (if count a (frames_of h xs) == 0 then h.frames a else none))
unfolding empty_queue
empty_queue-without h q xs v o =
    let start = get_ahead h q.first xs v.forward v.live in
    let fuel = suc (pos_part q.size) in
    (
      record { first = null; last = null; size = pos 0 },
      without h xs,
      ground (
        arith,
        start,
        v.size_is,
        free_events-without fuel xs q.first (if q.first == null then null else h.next q.first) h
            v.forward refl v.distinct v.live o (rw v.size_is (omega arith)),
      ),
      record {
        forward = refl;
        backward = refl;
        distinct = λ a. omega arith;
        live = λ a i. absurd (omega arith);
        size_is = refl;
      },
      clear_all_lem false h.live xs,
      clear_all_lem none h.frames (frames_of h xs),
    )
