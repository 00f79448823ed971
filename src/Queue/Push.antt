-- ===== src/Queue/Push.antt =====
-- `push_event` on a well-formed queue: no fault, enough rounds, and a well-formed queue again, with
-- the event behind those that come before it.
use http2rtsp.Prelude.{
  ℕ, suc, ◌+◌, ◌<◌, ◌≡◌, refl, ap, sym, ◌∙◌, ◌≢◌, true, some, List, [], ◌∷◌, ◌++◌, arith, length,
  reverse,
}
use http2rtsp.Prelude.Int.{pos, ◌+ℤ◌}
use http2rtsp.Queue.{Ptr, null, Store, Queue, valid, update, step_back, push_event}
use http2rtsp.Queue.Chain.{Chain, count, Chain-update, count-reverse}
use http2rtsp.Queue.Invariant.{IsQueue, Zip, zip, unzip}
use mathlib.Core.Path.{subst}
use http2rtsp.Prelude.Int.{ℤ}
use mathlib.Core.List.{reverse-append, reverse-reverse}
use http2rtsp.Prelude.{length-append}
use http2rtsp.Prelude.Int.{pos_part}
use http2rtsp.Queue.Chain.{length-reverse, count-append}
use http2rtsp.Queue.Link.{links, link-Linked}
use http2rtsp.Queue.Walk.{passed, kept, head_or_null, step_back-kept, passed-append-kept}

-- Of the queue read backwards, what stands before the event and what comes behind it.
abbrev before_event : Store → Ptr → List Ptr → List Ptr
before_event h event xs = kept h (h.time event) (reverse xs)

abbrev behind_event : Store → Ptr → List Ptr → List Ptr
behind_event h event xs = passed h (h.time event) (reverse xs)

-- Where the event comes to stand: behind those before its time, in front of the others.
abbrev pub placed : Store → Ptr → List Ptr → List Ptr
placed h event xs = reverse (before_event h event xs) ++ event ∷ reverse (behind_event h event xs)

-- The outcome of `push_event`: only links change, and the queue has the event in its place.
abbrev pub Pushed : Ptr → Store → Queue → List Ptr → Type 0
Pushed event h q xs =
    (n : Ptr → Ptr) × (p : Ptr → Ptr) × (q' : Queue) × (push_event event q h
      ≡ some (q', links h n p))
    × IsQueue (links h n p) q' (placed h event xs)

-- A chain through live cells does not start at null.
Chain-ne-null :
    (h : Store) (f : Ptr → Ptr) (rs : List Ptr) (p : Ptr)
    → Chain f p rs null
    → ((a : Ptr) → 0 < count a rs → valid h a ≡ true)
    → 0 < length rs
    → p ≢ null
Chain-ne-null h f [] p c live some_cell = absurd (omega arith)
Chain-ne-null h f (r ∷ rs) p c live some_cell = ground (arith, live r (ground arith), c.0)

count_up : (s : ℤ) (n m : ℕ) → s ≡ pos n → n + 1 ≡ m → s +ℤ pos 1 ≡ pos m
unfolding ◌+ℤ◌
count_up s n m e f = rw e (ground arith)

module _ (h : Store) (q : Queue) (event : Ptr) (xs : List Ptr) (v : IsQueue h q xs)
    (new : count event xs ≡ 0) (ok : valid h event ≡ true) where
  -- the event's own links are cleared first
  cleared : Store
  cleared = links h (update h.next event null) (update h.prev event null)

  cleared-IsQueue : IsQueue cleared q xs
  unfolding cleared
  cleared-IsQueue = record {
    forward = Chain-update h.next event null xs q.first null v.forward new;
    backward =
        Chain-update h.prev event null (reverse xs) q.last null v.backward
          (rw (count-reverse event xs) new);
    distinct = v.distinct;
    live = v.live;
    size_is = v.size_is;
  }

  split : xs ≡ reverse (before_event h event xs) ++ reverse (behind_event h event xs)
  split =
      sym (reverse-reverse xs)
      ∙ ap reverse (sym (passed-append-kept h (h.time event) (reverse xs)))
      ∙ reverse-append (behind_event h event xs) (before_event h event xs)

  at_place : Zip cleared q (before_event h event xs) (reverse (behind_event h event xs))
  at_place =
      zip (before_event h event xs) (reverse (behind_event h event xs))
        (subst (λ ys. IsQueue cleared q ys) split cleared-IsQueue)

  away : count event (before_event h event xs) + count event (reverse (behind_event h event xs)) ≡ 0
  away = omega (
    arith,
    ap (count event) split,
    new,
    count-append event (reverse (before_event h event xs)) (reverse (behind_event h event xs)),
    count-reverse event (before_event h event xs),
  )

  stepped :
      step_back (suc (pos_part q.size)) cleared (h.time event) q.last
      ≡ some (head_or_null (before_event h event xs))
  unfolding cleared
  stepped =
      step_back-kept cleared (h.time event) (suc (pos_part q.size)) (reverse xs) q.last
        cleared-IsQueue.backward (λ a i. v.live a (rw (count-reverse a xs) at i))
        (rw (v.size_is, length-reverse xs) (omega arith))

  size_after :
      (q' : Queue)
      → q'.size ≡ q.size
      → q'.size +ℤ pos 1
        ≡ pos
            (length (before_event h event xs) + length (event ∷ reverse (behind_event h event xs)))
  size_after q' e =
      let here = before_event h event xs in
      let there = behind_event h event xs in
      count_up q'.size (length xs) _ (e ∙ v.size_is) (
        omega (
          arith,
          ap length split,
          length-append (reverse here) (reverse there),
          length-reverse here,
        ))

  push_event_behind : q.last ≢ null → Pushed event h q xs
  unfolding push_event cleared
  push_event_behind ne =
      let (n, p, q', out, z, same) =
        link-Linked cleared q event (before_event h event xs) (reverse (behind_event h event xs))
          at_place away ok (ground arith) ne in
      let sized = record q' { size = q'.size +ℤ pos 1 } in
      let z' : Zip (links cleared n p) sized (before_event h event xs)
          (event ∷ reverse (behind_event h event xs)) =
        record {
          forward = z.forward;
          backward = z.backward;
          distinct = z.distinct;
          live = z.live;
        } in
      (n, p, sized, ground (arith, stepped, out), unzip _ _ (size_after q' same) z')

-- In the empty queue the event is first and last.
push_event_empty :
    (h : Store) (q : Queue) (event : Ptr)
    → IsQueue h q []
    → valid h event ≡ true
    → Pushed event h q []
unfolding push_event ◌+ℤ◌
push_event_empty h q event v ok =
    let n = update h.next event null in
    let p = update h.prev event null in
    (
      n,
      p,
      record { first = event; last = event; size = pos 1 },
      ground (arith, v.backward, v.size_is),
      record {
        forward = (refl, ground arith);
        backward = (refl, ground arith);
        distinct = λ a. ground arith;
        live = λ a i. ground arith;
        size_is = refl;
      },
    )

-- Given an allocated event that is not in the queue, `push_event` ends without a fault, changes no
-- more of the memory than links, and leaves a well-formed queue with one event more: before it stand
-- the events that the loop stops at or does not reach, behind it those that are not before its time.
pub push_event-Pushed :
    (h : Store) (q : Queue) (event : Ptr) (xs : List Ptr)
    → IsQueue h q xs
    → count event xs ≡ 0
    → valid h event ≡ true
    → Pushed event h q xs
push_event-Pushed h q event [] v new ok = push_event_empty h q event v ok
push_event-Pushed h q event (x ∷ xs) v new ok = push_event_behind h q event (x ∷ xs) v new ok (
    Chain-ne-null h h.prev (reverse (x ∷ xs)) q.last v.backward
      (λ a i. v.live a (rw (count-reverse a (x ∷ xs)) at i))
      (rw (length-reverse (x ∷ xs)) (omega arith)))
