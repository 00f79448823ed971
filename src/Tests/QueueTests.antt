-- ===== src/Tests/QueueTests.antt =====
-- A queue of two events, and a third that is pushed between them.
use http2rtsp.Prelude.{ℕ, ◌≡◌, refl, false, none, some, [], ◌∷◌, arith, ◌==◌, if◌then◌else◌, ◌||◌}
use http2rtsp.Prelude.Int.{pos, ◌+ℤ◌, ◌-ℤ◌}
use http2rtsp.Time.{Timeval, timecmp, calculate_delta, to_int, timeout_at}
use http2rtsp.Frame.{Frame, video_frame}
use http2rtsp.Queue.{
  Ptr, Store, Queue, frame_event, check_media_state, push_event, pull_event, push_timeout,
  empty_queue,
}
use http2rtsp.Queue.Chain.{count}
use http2rtsp.Queue.Invariant.{IsQueue}
use http2rtsp.Queue.Link.{links}
use http2rtsp.Queue.Order.{Later, AllTimes, insert}
use http2rtsp.Queue.Push.{Pushed, push_event-Pushed}
use http2rtsp.Queue.Sorted.{IsTimeline, push_event-insert, pull_event-least}
use http2rtsp.Queue.Timeouts.{created, push_timeout-insert}
use http2rtsp.Queue.Clear.{OwnsFrames, empty_queue-without}

abbrev at : ℕ → ℕ → Timeval
at s u = record { tv_sec = pos s; tv_usec = pos u }

abbrev picture : Frame
picture = record { bytes = 0 ∷ 0 ∷ 0 ∷ 1 ∷ 0x65 ∷ []; timestamp = 90000; frametype = video_frame }

-- the event at 8 owns the frame at 80, and the one at 16 is a timeout
abbrev memory : Store
memory = record {
  live = λ a. a == 8 || a == 16 || a == 24;
  next = λ a. if a == 8 then 16 else 0;
  prev = λ a. if a == 16 then 8 else 0;
  time = λ a. if a == 8 then at 5 100 else if a == 16 then at 7 0 else at 6 5;
  type = λ a. if a == 8 then frame_event else check_media_state;
  frame = λ a. if a == 8 then 80 else 0;
  frames = λ a. if a == 80 then some picture else none;
}

abbrev two : Queue
two = record { first = 8; last = 16; size = pos 2 }

two-IsQueue : IsQueue memory two (8 ∷ 16 ∷ [])
two-IsQueue = record {
  forward = (refl, (refl, refl));
  backward = (refl, (refl, refl));
  distinct = λ a. ground arith;
  live = λ a i. ground arith;
  size_is = refl;
}

two-IsTimeline : IsTimeline memory two (8 ∷ 16 ∷ [])
two-IsTimeline = record { queue = two-IsQueue; clock = omega arith; sorted = omega arith }

two-OwnsFrames : OwnsFrames memory (8 ∷ 16 ∷ [])
two-OwnsFrames = record { once = λ a. ground arith; there = λ a i. (picture, ground arith) }

empty-IsQueue : IsQueue memory (record { first = 0; last = 0; size = pos 0 }) []
empty-IsQueue = record {
  forward = refl;
  backward = refl;
  distinct = λ a. omega arith;
  live = λ a i. absurd (omega arith);
  size_is = refl;
}

push_event-Pushed_example : Pushed 24 memory two (8 ∷ 16 ∷ [])
push_event-Pushed_example = push_event-Pushed memory two 24 (8 ∷ 16 ∷ []) two-IsQueue refl refl

push_event-insert_example :
    (n : Ptr → Ptr) × (p : Ptr → Ptr) × (q' : Queue) × (push_event 24 two memory
      ≡ some (q', links memory n p))
    × IsTimeline (links memory n p) q' (insert memory.time 24 (8 ∷ 16 ∷ []))
push_event-insert_example =
    push_event-insert memory two 24 (8 ∷ 16 ∷ []) two-IsTimeline refl refl (omega arith)

insert_between : insert memory.time 24 (8 ∷ 16 ∷ []) ≡ 8 ∷ 24 ∷ 16 ∷ []
unfolding insert timecmp calculate_delta ◌+ℤ◌ ◌-ℤ◌ to_int
insert_between = refl

pull_event-least_example :
    (p : Ptr → Ptr) × (q' : Queue) × (pull_event two memory
      ≡ some (8, q', links memory memory.next p))
    × IsTimeline (links memory memory.next p) q' (16 ∷ [])
    × AllTimes (λ y. Later (memory.time y) (at 5 100)) (16 ∷ [])
pull_event-least_example = pull_event-least memory two 8 (16 ∷ []) two-IsTimeline

push_timeout-insert_example :
    let made = created memory 32 (timeout_at (at 5 400000) 1000) check_media_state in
    (n : Ptr → Ptr) × (p : Ptr → Ptr) × (q' : Queue) × (push_timeout 32
        (at 5 400000)
        1000
        check_media_state
        two
        memory
      ≡ some (q', links made n p))
    × IsTimeline (links made n p) q' (insert made.time 32 (8 ∷ 16 ∷ []))
unfolding timeout_at ◌+ℤ◌
push_timeout-insert_example =
    push_timeout-insert memory two 32 (at 5 400000) 1000 check_media_state (8 ∷ 16 ∷ [])
      two-IsTimeline refl (omega arith) (omega arith)

empty_queue-without_example :
    (q' : Queue) × (h' : Store) × (empty_queue two memory ≡ some (q', h'))
    × IsQueue h' q' []
    × ((a : Ptr) → h'.live a ≡ (if count a (8 ∷ 16 ∷ []) == 0 then memory.live a else false))
    × ((a : Ptr) → h'.frames a ≡ (if count a (80 ∷ []) == 0 then memory.frames a else none))
empty_queue-without_example =
    empty_queue-without memory two (8 ∷ 16 ∷ []) two-IsQueue two-OwnsFrames
