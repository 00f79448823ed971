-- ===== src/Time/Laws.antt =====
-- `calculate_delta` and `timecmp` against the number of microseconds that a `timeval` stands for.
use http2rtsp.Prelude.{◌+◌, ◌*◌, ◌^◌, ◌≤◌, ◌<◌, ◌≡◌, ◌↔◌, arith, ◌==◌, if◌then◌else◌}
use http2rtsp.Prelude.Int.{
  ℤ, pos, negsuc, pos_part, neg_part, sub_ℕ, ◌-ℤ◌, ◌≤ℤ◌, ◌<ℤ◌, +ℤ_parts, parts_excl, -ℤ_parts,
  eq_of_parts,
}
use http2rtsp.Time.{Timeval, million, to_int, calculate_delta, timecmp}

-- 1000000 * tv_sec + tv_usec
abbrev pub micros : Timeval → ℤ
micros t =
    sub_ℕ (million * pos_part t.tv_sec + pos_part t.tv_usec)
      (million * neg_part t.tv_sec + neg_part t.tv_usec)

abbrev pub IsNormal : Timeval → Type 0
IsNormal t = (pos 0 ≤ℤ t.tv_usec) × (t.tv_usec <ℤ pos million)

pub micros_parts :
    (t : Timeval)
    → pos_part (micros t) + (million * neg_part t.tv_sec + neg_part t.tv_usec)
      ≡ neg_part (micros t) + (million * pos_part t.tv_sec + pos_part t.tv_usec)
micros_parts t = ground arith

module _ (a b : Timeval) where
  -- The difference of the two times, in parts that `omega` reads.
  calculate_delta_parts :
      let d = calculate_delta a b in
      million * (pos_part d.tv_sec + neg_part b.tv_sec + pos_part a.tv_sec)
        + (pos_part d.tv_usec + neg_part b.tv_usec + pos_part a.tv_usec)
      ≡ million * (neg_part d.tv_sec + pos_part b.tv_sec + neg_part a.tv_sec)
        + (neg_part d.tv_usec + pos_part b.tv_usec + neg_part a.tv_usec)
  unfolding calculate_delta
  calculate_delta_parts = ground (
    arith,
    -ℤ_parts b.tv_sec a.tv_sec,
    -ℤ_parts b.tv_usec a.tv_usec,
    -ℤ_parts (b.tv_sec -ℤ a.tv_sec) (pos 1),
    +ℤ_parts (b.tv_usec -ℤ a.tv_usec) (pos million),
  )

  pub calculate_delta-IsNormal : IsNormal a → IsNormal b → IsNormal (calculate_delta a b)
  unfolding calculate_delta
  calculate_delta-IsNormal ha hb =
      ground (arith, -ℤ_parts b.tv_usec a.tv_usec, +ℤ_parts (b.tv_usec -ℤ a.tv_usec) (pos million))

  -- For any two times, normal or not, the result stands for the difference of their microseconds.
  pub micros-calculate_delta : micros (calculate_delta a b) ≡ micros b -ℤ micros a
  micros-calculate_delta = eq_of_parts _ _ (
      omega (
        arith,
        calculate_delta_parts,
        micros_parts a,
        micros_parts b,
        micros_parts (calculate_delta a b),
        -ℤ_parts (micros b) (micros a),
      ))

-- The difference of the seconds fits an `int`, with one to spare for the borrow.
abbrev pub IsNear : Timeval → Timeval → Type 0
IsNear a b =
    (pos_part a.tv_sec + neg_part b.tv_sec < pos_part b.tv_sec + neg_part a.tv_sec + 2 ^ 31)
    × (pos_part b.tv_sec + neg_part a.tv_sec < pos_part a.tv_sec + neg_part b.tv_sec + 2 ^ 31)

pub to_int-id : (x : ℤ) → pos_part x < 2 ^ 31 → neg_part x ≤ 2 ^ 31 → to_int x ≡ x
unfolding to_int
to_int-id (pos n) h k = ground arith
to_int-id (negsuc n) h k = ground arith

abbrev pick : Timeval → ℤ
pick d = if pos_part d.tv_sec + neg_part d.tv_sec == 0 then d.tv_usec else d.tv_sec

pick_positive : (d : Timeval) → IsNormal d → (pos 0 <ℤ pick d) ↔ (pos 0 <ℤ micros d)
pick_positive d v = (
  λ h. ground (arith, parts_excl d.tv_sec, micros_parts d),
  λ h. ground (arith, parts_excl d.tv_sec, micros_parts d),
)

pick_negative : (d : Timeval) → IsNormal d → (pick d ≤ℤ pos 0) ↔ (micros d ≤ℤ pos 0)
pick_negative d v = (
  λ h. ground (arith, parts_excl d.tv_sec, micros_parts d),
  λ h. ground (arith, parts_excl d.tv_sec, micros_parts d),
)

pick_sign :
    (d : Timeval)
    → IsNormal d
    → ((pos 0 <ℤ pick d) ↔ (pos 0 <ℤ micros d)) × ((pick d ≤ℤ pos 0) ↔ (micros d ≤ℤ pos 0))
pick_sign d v = (pick_positive d v, pick_negative d v)

-- What `timecmp` hands to the conversion is small, so that the conversion keeps it.
module _ (a b : Timeval) (ha : IsNormal a) (hb : IsNormal b) (near : IsNear a b) where
  delta_sec_bounds :
      (pos_part (calculate_delta a b).tv_sec < 2 ^ 31)
      × (neg_part (calculate_delta a b).tv_sec ≤ 2 ^ 31)
  unfolding calculate_delta
  delta_sec_bounds = ground (
    arith,
    -ℤ_parts b.tv_sec a.tv_sec,
    -ℤ_parts (b.tv_sec -ℤ a.tv_sec) (pos 1),
    parts_excl (b.tv_sec -ℤ a.tv_sec),
    parts_excl (b.tv_sec -ℤ a.tv_sec -ℤ pos 1),
  )

  timecmp-eq :
      let d = calculate_delta a b in
      timecmp a b ≡ (if pos_part d.tv_sec + neg_part d.tv_sec == 0 then d.tv_usec else d.tv_sec)
  unfolding timecmp
  timecmp-eq = ground (
    arith,
    delta_sec_bounds,
    calculate_delta-IsNormal a b ha hb,
    parts_excl (calculate_delta a b).tv_usec,
    to_int-id (calculate_delta a b).tv_sec,
    to_int-id (calculate_delta a b).tv_usec,
  )

  -- The sign of `timecmp a b` says which time is later: positive if `b` is.
  pub timecmp_sign :
      ((pos 0 <ℤ timecmp a b) ↔ (micros a <ℤ micros b))
      × ((timecmp a b ≤ℤ pos 0) ↔ (micros b ≤ℤ micros a))
  timecmp_sign =
      let d = calculate_delta a b in
      let parts = calculate_delta_parts a b in
      let v = calculate_delta-IsNormal a b ha hb in
      let s = pick_sign d v in
      rw timecmp-eq (
        (
          λ h. omega (arith, s.0.0 h, parts, micros_parts a, micros_parts b, micros_parts d),
          λ h. s.0.1 (omega (arith, parts, micros_parts a, micros_parts b, micros_parts d)),
        ),
        (
          λ h. omega (arith, s.1.0 h, parts, micros_parts a, micros_parts b, micros_parts d),
          λ h. s.1.1 (omega (arith, parts, micros_parts a, micros_parts b, micros_parts d)),
        ),
      )
