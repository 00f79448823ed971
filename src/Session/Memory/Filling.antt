-- ===== src/Session/Memory/Filling.antt =====
-- A round of the queue thread: it puts one event, with its frame, into the queue.
use http2rtsp.Prelude.{
  some, Returns, Returns-then, Every-elim, ℕ, ◌<◌, ◌≡◌, ◌≢◌, refl, subst, false, none, ◌>>=◌, List,
  arith, ◌==◌, inl, inr, ltb, Bool-cases, Every, Every->>=, Every-then,
}
use http2rtsp.Prelude.Int.{ℤ}
use http2rtsp.Frame.{Frame, FrameType}
use http2rtsp.Time.{Timeval, set_timeval}
use http2rtsp.Text.{Bytes}
use http2rtsp.Queue.{
  Ptr, null, Store, Queue, TimeoutType, frame_event, end_of_stream, new_event, push_event,
}
use http2rtsp.Queue.Chain.{count}
use http2rtsp.Queue.Clear.{frames_of}
use http2rtsp.Queue.Grow.{
  IsSound, Grows, Brings, frames_of-same, push_event-Grows, push_event-Returns,
}
use http2rtsp.Video.{Got, no_frame, got}
use http2rtsp.Session.Filler.{
  Filler, Supply, Filling, after_last, fill_end, store_frame, fill_frame, frametype_of, fill_got,
  fill_one,
}

abbrev pub FillingHasQueue : Filling → Type 0
FillingHasQueue s = (xs : List Ptr) × IsSound s.store s.queue xs

-- The addresses that `malloc` gives for an event and a frame.
pub record IsFreshSupply (supply : Supply) (h : Store) : Type 0 where
  pub unused : h.live supply.event_address ≡ false
  pub given : supply.event_address ≢ null
  pub unused_frame : h.frames supply.frame_address ≡ none

-- `new_event` and `push_event` one after the other.
new_push-Grows :
    (h : Store) (q : Queue) (event : Ptr) (xs : List Ptr) (time : Timeval) (type : TimeoutType)
    (frame : Ptr)
    → IsSound h q xs
    → h.live event ≡ false
    → event ≢ null
    → Brings h type frame xs
    → Every (Grows h event xs) (new_event event time type frame h >>= push_event event q)
unfolding new_event
new_push-Grows h q event xs time type frame v fresh given brings =
    let there : (event == null) ≡ false = ground (arith, given) in
    rw there (push_event-Grows h q event xs v fresh given time type frame brings)

-- A new frame in unused memory.
store_frame-IsSound :
    (h : Store) (q : Queue) (xs : List Ptr) (p : Ptr) (f : Frame)
    → IsSound h q xs
    → h.frames p ≡ none
    → IsSound (store_frame p f h) q xs
store_frame-IsSound h q xs p f v unused =
    let same = frames_of-same h (store_frame p f h) xs (λ a i. (refl, refl)) in
    record {
      queue = record {
        forward = v.queue.forward;
        backward = v.queue.backward;
        distinct = v.queue.distinct;
        live = v.queue.live;
        size_is = v.queue.size_is;
      };
      owns = record {
        once = rw same v.owns.once;
        there = λ a i.
            let (g, e) = v.owns.there a (subst (λ fs. 0 < count a fs) same i) in
            (g, ground (arith, e, unused));
      };
    }

store_frame-Brings :
    (h : Store) (q : Queue) (xs : List Ptr) (p : Ptr) (f : Frame)
    → IsSound h q xs
    → h.frames p ≡ none
    → Brings (store_frame p f h) frame_event p xs
store_frame-Brings h q xs p f v unused a i =
    let same = frames_of-same h (store_frame p f h) xs (λ a i. (refl, refl)) in
    let here : a ≡ p = ground (arith, i) in
    (
      elim (Bool-cases (ltb 0 (count a (frames_of h xs)))) [
        | inl taken ↦
            let (g, e) = v.owns.there a (ground (arith, taken)) in
            absurd (ground (arith, e, unused, here))
        | inr free ↦ rw same (ground arith)
      ],
      (f, ground (arith, here)),
    )

fill_end-HasQueue :
    (supply : Supply) (s : Filling)
    → FillingHasQueue s
    → IsFreshSupply supply s.store
    → Every FillingHasQueue (fill_end supply s)
unfolding fill_end
fill_end-HasQueue supply s (xs, v) fresh =
    Every-then FillingHasQueue s.filler.prev_timestamp _ (λ prev.
      Every->>= (Grows s.store supply.event_address xs) FillingHasQueue _ _
        (new_push-Grows s.store s.queue supply.event_address xs (after_last prev) end_of_stream null
          v fresh.unused fresh.given (λ a i. absurd (omega arith)))
        (λ (q', h') (ys, sound, lives, out). (ys, sound)))

fill_frame-HasQueue :
    (add_ticks : ℤ → ℕ → ℤ) (supply : Supply) (type : FrameType) (fields : Bytes × ℕ) (s : Filling)
    → FillingHasQueue s
    → IsFreshSupply supply s.store
    → Every FillingHasQueue (fill_frame add_ticks supply type fields s)
unfolding fill_frame
fill_frame-HasQueue add_ticks supply type fields s (xs, v) fresh =
    let p = supply.frame_address in
    let f : Frame = record { bytes = fields.0; timestamp = fields.1; frametype = type } in
    Every-then FillingHasQueue s.filler.basetime _ (λ base. elim (Bool-cases (p == null)) [
      | inl missing ↦ rw missing tt
      | inr there ↦ rw there (
          Every->>= (Grows (store_frame p f s.store) supply.event_address xs) FillingHasQueue _ _
            (new_push-Grows (store_frame p f s.store) s.queue supply.event_address xs
              (set_timeval add_ticks base fields.1) frame_event p
              (store_frame-IsSound s.store s.queue xs p f v fresh.unused_frame) fresh.unused
              fresh.given (store_frame-Brings s.store s.queue xs p f v fresh.unused_frame))
            (λ (q', h') (ys, sound, lives, out). (ys, sound)))
    ])

fill_got-HasQueue :
    (add_ticks : ℤ → ℕ → ℤ) (video_idx : ℤ) (supply : Supply) (s : Filling) (next : Got)
    → FillingHasQueue s
    → IsFreshSupply supply s.store
    → Every FillingHasQueue (fill_got add_ticks video_idx supply s next)
fill_got-HasQueue add_ticks video_idx supply s no_frame v fresh = fill_end-HasQueue supply s v fresh
fill_got-HasQueue add_ticks video_idx supply s (got index fields) v fresh =
    Every-then FillingHasQueue fields _
      (λ f. fill_frame-HasQueue add_ticks supply (frametype_of video_idx index) f s v fresh)

pub fill_one-HasQueue :
    (add_ticks : ℤ → ℕ → ℤ) (video_idx : ℤ) (supply : Supply) (s : Filling)
    → FillingHasQueue s
    → IsFreshSupply supply s.store
    → Every FillingHasQueue (fill_one add_ticks video_idx supply s)
unfolding fill_one
fill_one-HasQueue add_ticks video_idx supply s v fresh =
    fill_got-HasQueue add_ticks video_idx supply s supply.next_frame v fresh

new_push-Returns :
    (h : Store) (q : Queue) (event : Ptr) (xs : List Ptr) (time : Timeval) (type : TimeoutType)
    (frame : Ptr)
    → IsSound h q xs
    → h.live event ≡ false
    → event ≢ null
    → Brings h type frame xs
    → Returns (new_event event time type frame h >>= push_event event q)
unfolding new_event
new_push-Returns h q event xs time type frame v fresh given brings =
    let there : (event == null) ≡ false = ground (arith, given) in
    rw there (push_event-Returns h q event xs v fresh given time type frame brings)

-- What the reader gives is a frame with its fields set, in memory that malloc gave, or the end behind a
-- frame.
abbrev pub IsReadable : Filler → Ptr → Got → Type 0
IsReadable f p no_frame = (t : Timeval) × (f.prev_timestamp ≡ some t)
IsReadable f p (got index fields) = (p ≢ null) × (bytes : Bytes × ℕ) × (fields ≡ some bytes)

fill_got-Returns :
    (add_ticks : ℤ → ℕ → ℤ) (video_idx : ℤ) (supply : Supply) (s : Filling) (next : Got)
    → FillingHasQueue s
    → IsFreshSupply supply s.store
    → (b : Timeval) × (s.filler.basetime ≡ some b)
    → IsReadable s.filler supply.frame_address next
    → Returns (fill_got add_ticks video_idx supply s next)
unfolding fill_end fill_frame
fill_got-Returns add_ticks video_idx supply s no_frame (xs, v) fresh (b, base) (t, prev) =
    let (r, pushed) =
      new_push-Returns s.store s.queue supply.event_address xs (after_last t) end_of_stream null v
        fresh.unused fresh.given (λ a i. absurd (omega (arith, i))) in
    Returns-then s.filler.prev_timestamp _ t prev (Returns-then _ _ r pushed (_, refl))
fill_got-Returns add_ticks video_idx supply s (got index fields) (xs, v) fresh (b, base)
      (given_frame, bytes, set) =
    let p = supply.frame_address in
    let there : (p == null) ≡ false = ground (arith, given_frame) in
    let f : Frame = record {
      bytes = bytes.0;
      timestamp = bytes.1;
      frametype = frametype_of video_idx index;
    } in
    let (r, pushed) =
      new_push-Returns (store_frame p f s.store) s.queue supply.event_address xs
        (set_timeval add_ticks b bytes.1) frame_event p
        (store_frame-IsSound s.store s.queue xs p f v fresh.unused_frame) fresh.unused fresh.given
        (store_frame-Brings s.store s.queue xs p f v fresh.unused_frame) in
    Returns-then fields _ bytes set
      (Returns-then s.filler.basetime _ b base (rw there (Returns-then _ _ r pushed (_, refl))))

-- A round of fill_queue ends without a fault and leaves a well-formed queue that owns its frames, if it
-- finds one, the addresses of malloc are not in use, the time base is set, and the reader gives a frame
-- with its fields set and malloc memory for it, or the end after at least one frame; malloc gives memory
-- for the event in any case.
pub fill_one-Returns :
    (add_ticks : ℤ → ℕ → ℤ) (video_idx : ℤ) (supply : Supply) (s : Filling)
    → FillingHasQueue s
    → IsFreshSupply supply s.store
    → (b : Timeval) × (s.filler.basetime ≡ some b)
    → IsReadable s.filler supply.frame_address supply.next_frame
    → (s' : Filling) × (fill_one add_ticks video_idx supply s ≡ some s') × FillingHasQueue s'
unfolding fill_one
fill_one-Returns add_ticks video_idx supply s v fresh base readable =
    let (s', done) =
      fill_got-Returns add_ticks video_idx supply s supply.next_frame v fresh base readable in
    (
      s',
      done,
      Every-elim FillingHasQueue (fill_one add_ticks video_idx supply s) s'
          (fill_one-HasQueue add_ticks video_idx supply s v fresh) done,
    )
