-- ===== src/Queue/Order.antt =====
-- The queue as a list of events ordered by time: `push_event` is the insertion of the new event in
-- front of the first one that is not before it, so a sorted queue stays sorted.
use http2rtsp.Prelude.{
  ◌^◌, ◌<◌, ◌≡◌, refl, inl, inr, true, false, Bool-cases, List, [], ◌∷◌, ◌++◌, arith, if◌then◌else◌,
  reverse,
}
use mathlib.Core.List.{reverse-cons, reverse-append, reverse-reverse}
use http2rtsp.Prelude.Int.{pos, pos_part, neg_part, ◌≤ℤ◌, ◌<ℤ◌}
use http2rtsp.Time.{Timeval, timecmp}
use http2rtsp.Time.Laws.{micros, IsNormal, timecmp_sign}
use http2rtsp.Queue.{Ptr, Store, not_before}
use http2rtsp.Queue.Push.{placed}
use http2rtsp.Queue.Walk.{passed, kept}

-- A normal time of the years from 1970 to 2038, as `gettimeofday` gives it.
abbrev pub IsClock : Timeval → Type 0
IsClock t = IsNormal t × (neg_part t.tv_sec ≡ 0) × (pos_part t.tv_sec < 2 ^ 31)

abbrev pub Later : Timeval → Timeval → Type 0
Later a b = micros b ≤ℤ micros a

-- On such times the test of the loop is the order.
pub not_before-Later : (a b : Timeval) → IsClock a → IsClock b → not_before a b ≡ true → Later a b
not_before-Later a b ha hb h = (timecmp_sign a b ha.0 hb.0 (omega arith, omega arith)).1.0 (leb→ h)
  where
    leb→ : not_before a b ≡ true → timecmp a b ≤ℤ pos 0
    leb→ h = ground arith

pub before-Earlier :
    (a b : Timeval) → IsClock a → IsClock b → not_before a b ≡ false → micros a <ℤ micros b
before-Earlier a b ha hb h =
    (timecmp_sign a b ha.0 hb.0 (omega arith, omega arith)).0.0 (ground arith)

abbrev pub AllTimes {ℓ} : (Ptr → Type ℓ) → List Ptr → Type ℓ
AllTimes P [] = Unit
AllTimes P (x ∷ xs) = P x × AllTimes P xs

abbrev pub IsSorted : (Ptr → Timeval) → List Ptr → Type 0
IsSorted time [] = Unit
IsSorted time (x ∷ xs) = AllTimes (λ y. Later (time y) (time x)) xs × IsSorted time xs

-- The reference: in front of the first event that is not before the new one.
unfoldable pub insert : (Ptr → Timeval) → Ptr → List Ptr → List Ptr
insert time event [] = event ∷ []
insert time event (x ∷ xs) =
    if not_before (time x) (time event) then event ∷ x ∷ xs else x ∷ insert time event xs

pub Later-not_before : (a b : Timeval) → IsClock a → IsClock b → Later a b → not_before a b ≡ true
Later-not_before a b ha hb h = leb→ ((timecmp_sign a b ha.0 hb.0 (omega arith, omega arith)).1.1 h)
  where
    leb→ : timecmp a b ≤ℤ pos 0 → not_before a b ≡ true
    leb→ h = ground arith

AllTimes-concat :
    (P : Ptr → Type 0) (xs : List Ptr) (y : Ptr) → AllTimes P xs → P y → AllTimes P (xs ++ y ∷ [])
AllTimes-concat P [] y a b = (b, tt)
AllTimes-concat P (x ∷ xs) y a b = (a.0, AllTimes-concat P xs y a.1 b)

AllTimes-reverse : (P : Ptr → Type 0) (xs : List Ptr) → AllTimes P xs → AllTimes P (reverse xs)
AllTimes-reverse P [] a = tt
AllTimes-reverse P (x ∷ xs) a =
    rw (reverse-cons x xs) (AllTimes-concat P (reverse xs) x (AllTimes-reverse P xs a.1) a.0)

-- The loop of `push_event` on a list that ends in `x`, the first of the queue.
module _ (h : Store) (t : Timeval) (x : Ptr) where
  kept_concat :
      (rs : List Ptr)
      → not_before (h.time x) t ≡ false
      → kept h t (rs ++ x ∷ []) ≡ kept h t rs ++ x ∷ []
  kept_concat [] e = rw e
  kept_concat (r ∷ rs) e = elim (Bool-cases (not_before (h.time r) t)) [
    | inl b ↦ rw (b, kept_concat rs e)
    | inr b ↦ rw b
  ]

  passed_concat :
      (rs : List Ptr) → not_before (h.time x) t ≡ false → passed h t (rs ++ x ∷ []) ≡ passed h t rs
  passed_concat [] e = rw e
  passed_concat (r ∷ rs) e = elim (Bool-cases (not_before (h.time r) t)) [
    | inl b ↦ rw (b, passed_concat rs e)
    | inr b ↦ rw b
  ]

module _ (h : Store) (t : Timeval) where
  passed_all :
      (rs : List Ptr)
      → AllTimes (λ r. not_before (h.time r) t ≡ true) rs
      → (kept h t rs ≡ []) × (passed h t rs ≡ rs)
  passed_all [] a = (refl, refl)
  passed_all (r ∷ rs) a = let ih = passed_all rs a.1 in rw (a.0, ih.0, ih.1) (refl, refl)

module _ (h : Store) (event : Ptr) (clock : IsClock (h.time event)) where
  Later-all :
      (x : Ptr) (xs : List Ptr)
      → IsClock (h.time x)
      → AllTimes (λ y. IsClock (h.time y)) xs
      → Later (h.time x) (h.time event)
      → AllTimes (λ y. Later (h.time y) (h.time x)) xs
      → AllTimes (λ y. not_before (h.time y) (h.time event) ≡ true) xs
  Later-all x [] cx cs e s = tt
  Later-all x (y ∷ xs) cx cs e s = (
    Later-not_before (h.time y) (h.time event) cs.0 clock (omega arith),
    Later-all x xs cx cs.1 e s.1,
  )

  -- On a sorted queue the walk from the end finds the place of the reference.
  pub placed-insert :
      (xs : List Ptr)
      → AllTimes (λ y. IsClock (h.time y)) xs
      → IsSorted h.time xs
      → placed h event xs ≡ insert h.time event xs
  unfolding insert
  placed-insert [] cs s = refl
  placed-insert (x ∷ xs) cs s = elim (Bool-cases (not_before (h.time x) (h.time event))) [
    | inl e ↦
        let nb =
          Later-all x xs cs.0 cs.1 (not_before-Later (h.time x) (h.time event) cs.0 clock e) s.0 in
        let all =
          passed_all h (h.time event) (reverse (x ∷ xs)) (
            AllTimes-reverse (λ y. not_before (h.time y) (h.time event) ≡ true) (x ∷ xs) (e, nb)) in
        rw (e, all.0, all.1, reverse-reverse (x ∷ xs))
    | inr e ↦ rw (
      e,
      reverse-cons x xs,
      kept_concat h (h.time event) x (reverse xs) e,
      passed_concat h (h.time event) x (reverse xs) e,
      reverse-append (kept h (h.time event) (reverse xs)) (x ∷ []),
      ← placed-insert xs cs.1 s.1,
    )
  ]
