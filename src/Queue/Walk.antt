-- ===== src/Queue/Walk.antt =====
-- The loop of `push_event` splits the queue at the place where the event belongs.
use http2rtsp.Prelude.{
  ℕ, zero, suc, ◌<◌, ◌≡◌, refl, inl, inr, true, Bool-cases, some, List, [], ◌∷◌, ◌++◌, arith,
  if◌then◌else◌, length,
}
use http2rtsp.Time.{Timeval}
use http2rtsp.Queue.{Ptr, null, Store, valid, not_before, step_back}
use http2rtsp.Queue.Chain.{Chain, count}

-- Of the events read backwards, those that the loop passes, and the rest.
abbrev pub passed : Store → Timeval → List Ptr → List Ptr
passed h t [] = []
passed h t (r ∷ rs) = if not_before (h.time r) t then r ∷ passed h t rs else []

abbrev pub kept : Store → Timeval → List Ptr → List Ptr
kept h t [] = []
kept h t (r ∷ rs) = if not_before (h.time r) t then kept h t rs else r ∷ rs

abbrev pub head_or_null : List Ptr → Ptr
head_or_null [] = null
head_or_null (r ∷ rs) = r

module _ (h : Store) (t : Timeval) where
  pub passed-append-kept : (rs : List Ptr) → passed h t rs ++ kept h t rs ≡ rs
  passed-append-kept [] = refl
  passed-append-kept (r ∷ rs) = elim (Bool-cases (not_before (h.time r) t)) [
    | inl e ↦ rw (e, passed-append-kept rs)
    | inr e ↦ rw e
  ]

  pub step_back-kept :
      (fuel : ℕ) (rs : List Ptr) (p : Ptr)
      → Chain h.prev p rs null
      → ((a : Ptr) → 0 < count a rs → valid h a ≡ true)
      → length rs < fuel
      → step_back fuel h t p ≡ some (head_or_null (kept h t rs))
  unfolding step_back
  step_back-kept zero rs p c live b = absurd (omega arith)
  step_back-kept (suc fuel) [] p c live b = rw c
  step_back-kept (suc fuel) (r ∷ rs) p c live b = ground (
    arith,
    live r (ground arith),
    step_back-kept fuel rs (h.prev r) c.1 (λ a i. live a (ground arith)) (omega arith),
  )
