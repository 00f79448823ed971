-- ===== src/Session/Memory/Next.antt =====
-- The timeout of the next `select`.
use http2rtsp.Prelude.{
  ◌<◌, ◌≡◌, refl, ap, ◌∙◌, true, false, Option, none, some, List, [], ◌∷◌, arith, Bool-cases, inl,
  inr,
}
use http2rtsp.Prelude.Int.{ℤ, pos, pos_part, ltb_ℤ, ◌-ℤ◌, parts_excl, eq_of_parts}
use http2rtsp.Time.{Timeval, calculate_delta}
use http2rtsp.Time.Laws.{
  micros, IsNormal, micros_parts, micros-calculate_delta, calculate_delta-IsNormal,
}
use http2rtsp.Queue.{Ptr, Store, Queue, get_time}
use http2rtsp.Queue.Chain.{count}
use http2rtsp.Queue.Grow.{IsSound}
use http2rtsp.Session.Events.{not_negative, next_timeout}

-- A number of microseconds, with a difference below zero as zero.
abbrev at_least_zero : ℤ → ℤ
at_least_zero n = pos (pos_part n)

before_now : (d : Timeval) → IsNormal d → ltb_ℤ d.tv_sec (pos 0) ≡ true → 0 ≡ pos_part (micros d)
before_now d v past = ground (arith, micros_parts d, parts_excl (micros d), parts_excl d.tv_sec)

from_now :
    (d : Timeval)
    → IsNormal d
    → ltb_ℤ d.tv_sec (pos 0) ≡ false
    → micros d ≡ at_least_zero (micros d)
from_now d v ahead =
    eq_of_parts _ _ (ground (arith, micros_parts d, parts_excl (micros d), parts_excl d.tv_sec))

not_negative-micros :
    (d : Timeval)
    → IsNormal d
    → IsNormal (not_negative d) × (micros (not_negative d) ≡ at_least_zero (micros d))
not_negative-micros d v = elim (Bool-cases (ltb_ℤ d.tv_sec (pos 0))) [
  | inl past ↦ rw past ((omega arith, omega arith), ap pos (before_now d v past))
  | inr ahead ↦ rw ahead (v, from_now d v ahead)
]

-- What select gets: no timeout for the empty queue, and else the time to the first event.
abbrev pub Until : Timeval → Store → List Ptr → Option (Option Timeval) → Type 0
Until now h [] timeout = timeout ≡ some none
Until now h (x ∷ xs) timeout =
    (d : Timeval) × (timeout ≡ some (some d))
    × IsNormal d
    × (micros d ≡ at_least_zero (micros (h.time x) -ℤ micros now))

-- The timeout of the next select never faults on a well-formed queue. It is NULL if the queue is empty,
-- and else a normal time that stands for the microseconds from now to the first event, or zero if that
-- event is due; the time of now and those of the events are normal.
pub next_timeout-Until :
    (now : Timeval) (h : Store) (q : Queue) (xs : List Ptr)
    → IsSound h q xs
    → IsNormal now
    → ((a : Ptr) → 0 < count a xs → IsNormal (h.time a))
    → Until now h xs (next_timeout now q h)
unfolding next_timeout
next_timeout-Until now h q [] v n times =
    let none_there : ltb_ℤ (pos 0) q.size ≡ false = ground (arith, v.queue.size_is) in
    rw none_there refl
next_timeout-Until now h q (x ∷ xs) v n times =
    let some_there : ltb_ℤ (pos 0) q.size ≡ true = ground (arith, v.queue.size_is) in
    let ok : get_time h q.first ≡ some (h.time x) =
      ground (arith, v.queue.forward, v.queue.live x (ground arith)) in
    let (normal, size) =
      not_negative-micros (calculate_delta now (h.time x))
        (calculate_delta-IsNormal now (h.time x) n (times x (ground arith))) in
    (
      not_negative (calculate_delta now (h.time x)),
      rw (some_there, ok) refl,
      normal,
      size ∙ ap at_least_zero (micros-calculate_delta now (h.time x)),
    )
