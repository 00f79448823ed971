-- ===== src/Queue/Timeouts.antt =====
-- `push_timeout` makes a new event and inserts it.
use http2rtsp.Prelude.{ℕ, ◌≡◌, ◌≢◌, true, false, some, List, [], ◌∷◌, arith, ◌==◌}
use http2rtsp.Time.{Timeval, timeout_at}
use http2rtsp.Queue.{Ptr, null, Store, Queue, TimeoutType, update, push_timeout}
use http2rtsp.Queue.Chain.{count, Chain-update, count-reverse}
use http2rtsp.Queue.Link.{links}
use http2rtsp.Queue.Order.{IsClock, Later, AllTimes, IsSorted, insert}
use http2rtsp.Queue.Sorted.{IsTimeline, push_event-insert}
use mathlib.Core.List.{reverse}

-- the memory with the new event
abbrev pub created : Store → Ptr → Timeval → TimeoutType → Store
created h event time type = record h {
  live = update h.live event true;
  time = update h.time event time;
  type = update h.type event type;
  frame = update h.frame event null;
}

module _ (P : Ptr → Type 0) (Q : Ptr → Type 0) (event : Ptr) where
  AllTimes-away :
      (xs : List Ptr)
      → ((y : Ptr) → (y == event) ≡ false → P y → Q y)
      → count event xs ≡ 0
      → AllTimes P xs
      → AllTimes Q xs
  AllTimes-away [] f out a = tt
  AllTimes-away (x ∷ xs) f out a = (f x (ground arith) a.0, AllTimes-away xs f (ground arith) a.1)

IsSorted-away :
    (time : Ptr → Timeval) (event : Ptr) (t : Timeval) (xs : List Ptr)
    → count event xs ≡ 0
    → IsSorted time xs
    → IsSorted (update time event t) xs
IsSorted-away time event t [] out s = tt
IsSorted-away time event t (x ∷ xs) out s =
    let new : (x == event) ≡ false = ground arith in
    (
      AllTimes-away (λ y. Later (time y) (time x)) _ event xs (λ y e l. rw (e, new) l)
          (ground arith) s.0,
      IsSorted-away time event t xs (ground arith) s.1,
    )

module _ (h : Store) (q : Queue) (event : Ptr) (now : Timeval) (ms : ℕ) (type : TimeoutType)
    (xs : List Ptr) (v : IsTimeline h q xs) (fresh : h.live event ≡ false) (ne : event ≢ null)
    (clock : IsClock (timeout_at now ms)) where
  away : count event xs ≡ 0
  away = ground (arith, v.queue.live event)

  start : Store
  start =
      links (created h event (timeout_at now ms) type) (update h.next event null)
        (update h.prev event null)

  start-IsTimeline : IsTimeline start q xs
  unfolding start
  start-IsTimeline = record {
    queue = record {
      forward = Chain-update h.next event null xs q.first null v.queue.forward away;
      backward =
          Chain-update h.prev event null (reverse xs) q.last null v.queue.backward
            (rw (count-reverse event xs) away);
      distinct = v.queue.distinct;
      live = λ a i. ground (arith, v.queue.live a);
      size_is = v.queue.size_is;
    };
    clock = AllTimes-away (λ y. IsClock (h.time y)) _ event xs (λ y e c. rw e c) away v.clock;
    sorted = IsSorted-away h.time event (timeout_at now ms) xs away v.sorted;
  }

  -- With an unused address and a timeout that is a clock time, `push_timeout` ends without a fault,
  -- and the timeline has the new event in its place.
  pub push_timeout-insert :
      let made = created h event (timeout_at now ms) type in
      (n : Ptr → Ptr) × (p : Ptr → Ptr) × (q' : Queue) × (push_timeout event now ms type q h
        ≡ some (q', links made n p))
      × IsTimeline (links made n p) q' (insert made.time event xs)
  unfolding push_timeout start
  push_timeout-insert =
      let (n, p, q', out, z) =
        push_event-insert start q event xs start-IsTimeline away (ground arith) (ground arith) in
      (n, p, q', ground (arith, out), z)
