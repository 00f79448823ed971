-- ===== src/Queue/Pull.antt =====
-- `pull_event` on a well-formed queue.
use http2rtsp.Prelude.{◌≡◌, refl, some, List, [], ◌∷◌, arith, length, reverse, append-nil}
use mathlib.Core.List.{reverse-cons}
use http2rtsp.Prelude.Int.{pos, ◌-ℤ◌}
use http2rtsp.Queue.{Ptr, null, Store, Queue, update, remque, pull_event}
use http2rtsp.Queue.Chain.{Chain, Chain-update, Chain-append, Chain-split, count-reverse}
use http2rtsp.Queue.Invariant.{IsQueue}
use http2rtsp.Queue.Link.{links, reverse_cons_append}

-- On the empty queue the result is null and nothing changes.
pub pull_event-nil : (h : Store) (q : Queue) → IsQueue h q [] → pull_event q h ≡ some (null, q, h)
unfolding pull_event
pull_event-nil h q v = ground (arith, v.forward)

-- The outcome of a call on a queue that is not empty: its first event, no fault, only links changed,
-- and a well-formed queue of the others.
abbrev pub Pulled : Store → Queue → Ptr → List Ptr → Type 0
Pulled h q x xs =
    (p : Ptr → Ptr) × (q' : Queue) × (pull_event q h ≡ some (x, q', links h h.next p))
    × IsQueue (links h h.next p) q' xs

pull_last : (h : Store) (q : Queue) (x : Ptr) → IsQueue h q (x ∷ []) → Pulled h q x []
unfolding pull_event remque ◌-ℤ◌
pull_last h q x v = (
  h.prev,
  record { first = null; last = null; size = pos 0 },
  ground (arith, v.forward, v.backward, v.size_is, v.live x (ground arith)),
  record {
    forward = refl;
    backward = refl;
    distinct = λ a. omega arith;
    live = λ a i. absurd (omega arith);
    size_is = refl;
  },
)

module _ (h : Store) (q : Queue) (x y : Ptr) (xs : List Ptr) (v : IsQueue h q (x ∷ y ∷ xs)) where
  backs : Chain h.prev q.last (reverse xs) y × ((h.prev y ≡ x) × (h.prev x ≡ null))
  backs = Chain-split h.prev (reverse xs) y (x ∷ []) q.last null (
      rw (← reverse_cons_append y xs (x ∷ []), ← reverse_cons_append x (y ∷ xs) [], append-nil)
        v.backward)

  pull_more : Pulled h q x (y ∷ xs)
  unfolding pull_event remque ◌-ℤ◌
  pull_more = (
    update h.prev y null,
    record { first = y; last = q.last; size = pos (length (y ∷ xs)) },
    ground (arith, v.forward, backs, v.size_is, v.live x (ground arith), v.live y (ground arith)),
    record {
      forward = (refl, v.forward.1.1);
      backward = rw (reverse-cons y xs) (
          Chain-append _ (reverse xs) (y ∷ []) q.last y null
            (Chain-update h.prev y null (reverse xs) q.last y backs.0
              (rw (count-reverse y xs) (ground (arith, v.distinct y))))
            (refl, ground arith));
      distinct = λ a. ground (arith, v.distinct a);
      live = λ a i. ground (arith, v.live a);
      size_is = refl;
    },
  )

-- On any other queue it unlinks the first event and returns it.
pub pull_event-Pulled :
    (h : Store) (q : Queue) (x : Ptr) (xs : List Ptr) → IsQueue h q (x ∷ xs) → Pulled h q x xs
pull_event-Pulled h q x [] v = pull_last h q x v
pull_event-Pulled h q x (y ∷ xs) v = pull_more h q x y xs v
