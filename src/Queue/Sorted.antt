-- ===== src/Queue/Sorted.antt =====
-- `push_event` refines the insertion into a sorted list, and `pull_event` takes the least time out.
use http2rtsp.Prelude.{◌≡◌, inl, inr, true, Bool-cases, some, List, [], ◌∷◌, arith}
use http2rtsp.Time.{Timeval}
use http2rtsp.Queue.{Ptr, Store, Queue, valid, not_before, push_event, pull_event}
use http2rtsp.Queue.Chain.{count}
use http2rtsp.Queue.Invariant.{IsQueue}
use http2rtsp.Queue.Link.{links}
use http2rtsp.Queue.Order.{
  IsClock, Later, AllTimes, IsSorted, insert, placed-insert, not_before-Later, before-Earlier,
}
use http2rtsp.Queue.Push.{push_event-Pushed}
use http2rtsp.Queue.Pull.{pull_event-Pulled}

module _ (time : Ptr → Timeval) (event : Ptr) where
  AllTimes-insert :
      (P : Ptr → Type 0) (xs : List Ptr)
      → P event
      → AllTimes P xs
      → AllTimes P (insert time event xs)
  unfolding insert
  AllTimes-insert P [] p a = (p, tt)
  AllTimes-insert P (x ∷ xs) p a = elim (Bool-cases (not_before (time x) (time event))) [
    | inl e ↦ rw e (p, a)
    | inr e ↦ rw e (a.0, AllTimes-insert P xs p a.1)
  ]

  AllTimes-trans :
      (t : Timeval) (x : Ptr) (xs : List Ptr)
      → Later (time x) t
      → AllTimes (λ y. Later (time y) (time x)) xs
      → AllTimes (λ y. Later (time y) t) xs
  AllTimes-trans t x [] e a = tt
  AllTimes-trans t x (y ∷ xs) e a = (omega arith, AllTimes-trans t x xs e a.1)

  IsSorted-insert :
      (xs : List Ptr)
      → IsClock (time event)
      → AllTimes (λ y. IsClock (time y)) xs
      → IsSorted time xs
      → IsSorted time (insert time event xs)
  unfolding insert
  IsSorted-insert [] c cs s = (tt, tt)
  IsSorted-insert (x ∷ xs) c cs s = elim (Bool-cases (not_before (time x) (time event))) [
    | inl e ↦
        let later = not_before-Later (time x) (time event) cs.0 c e in
        rw e ((later, AllTimes-trans (time event) x xs later s.0), s)
    | inr e ↦
        let earlier = before-Earlier (time x) (time event) cs.0 c e in
        rw e (
          AllTimes-insert (λ y. Later (time y) (time x)) xs (omega arith) s.0,
          IsSorted-insert xs c cs.1 s.1,
        )
  ]

-- The queue in memory holds the events `xs`, in the order of their times, all of them clock times.
pub record IsTimeline (h : Store) (q : Queue) (xs : List Ptr) : Type 0 where
  pub queue : IsQueue h q xs
  pub clock : AllTimes (λ y. IsClock (h.time y)) xs
  pub sorted : IsSorted h.time xs

-- `push_event` inserts the event into the timeline, in front of the first event that is not before
-- it, with no fault and no change of the memory but to links.
pub push_event-insert :
    (h : Store) (q : Queue) (event : Ptr) (xs : List Ptr)
    → IsTimeline h q xs
    → count event xs ≡ 0
    → valid h event ≡ true
    → IsClock (h.time event)
    → (n : Ptr → Ptr) × (p : Ptr → Ptr) × (q' : Queue) × (push_event event q h
        ≡ some (q', links h n p))
      × IsTimeline (links h n p) q' (insert h.time event xs)
push_event-insert h q event xs v new ok c =
    let (n, p, q', out, z) = push_event-Pushed h q event xs v.queue new ok in
    (
      n,
      p,
      q',
      out,
      record {
        queue = rw (placed-insert h event c xs v.clock v.sorted) at z;
        clock = AllTimes-insert h.time event (λ y. IsClock (h.time y)) xs c v.clock;
        sorted = IsSorted-insert h.time event xs c v.clock v.sorted;
      },
    )

-- `pull_event` returns an event of the timeline that no other is before, and leaves a timeline of
-- the others.
pub pull_event-least :
    (h : Store) (q : Queue) (x : Ptr) (xs : List Ptr)
    → IsTimeline h q (x ∷ xs)
    → (p : Ptr → Ptr) × (q' : Queue) × (pull_event q h ≡ some (x, q', links h h.next p))
      × IsTimeline (links h h.next p) q' xs
      × AllTimes (λ y. Later (h.time y) (h.time x)) xs
pull_event-least h q x xs v =
    let (p, q', out, z) = pull_event-Pulled h q x xs v.queue in
    (p, q', out, record { queue = z; clock = v.clock.1; sorted = v.sorted.1 }, v.sorted.0)
