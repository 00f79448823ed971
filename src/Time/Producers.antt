-- ===== src/Time/Producers.antt =====
-- The times that `set_timeval` and `push_timeout` give to events.
use http2rtsp.Prelude.{ℕ, ◌+◌, ◌*◌, ◌/◌, ◌%◌, ◌≤◌, ◌<◌, ◌≡◌, ap, arith}
use http2rtsp.Prelude.Int.{
  ℤ, pos, pos_part, neg_part, ◌+ℤ◌, ◌-ℤ◌, ◌≤ℤ◌, ◌<ℤ◌, +ℤ_parts, -ℤ_parts, eq_of_parts, parts_excl,
}
use native.Mathlib.Decide.{dec_lt}
use http2rtsp.Time.{Timeval, million, calculate_delta, timecmp, timeout_at, set_timeval}
use http2rtsp.Time.Laws.{micros, micros_parts, IsNormal, to_int-id}

-- What IEEE arithmetic promises of `(long)(usec + r / 0.09)` below a second: it is off from the exact sum by less
-- than one and a half, and rounding keeps the order of the operands.
pub record IsRounded (add_ticks : ℤ → ℕ → ℤ) : Type 0 where
  pub near_below :
      (u : ℤ) (r : ℕ)
      → pos 0 ≤ℤ u
      → u <ℤ pos million
      → r < 90000
      → 9 * pos_part u + 100 * r + 9 * neg_part (add_ticks u r)
        ≤ 9 * pos_part (add_ticks u r) + 9 * neg_part u + 13
  pub near_above :
      (u : ℤ) (r : ℕ)
      → pos 0 ≤ℤ u
      → u <ℤ pos million
      → r < 90000
      → 9 * pos_part (add_ticks u r) + 9 * neg_part u
        ≤ 9 * pos_part u + 100 * r + 9 * neg_part (add_ticks u r) + 13
  pub grows :
      (u : ℤ) (r q : ℕ)
      → pos 0 ≤ℤ u
      → u <ℤ pos million
      → r ≤ q
      → q < 90000
      → add_ticks u r ≤ℤ add_ticks u q
  pub starts : (u : ℤ) → pos 0 ≤ℤ u → u <ℤ pos million → add_ticks u 0 ≡ u

module _ (add_ticks : ℤ → ℕ → ℤ) (rounded : IsRounded add_ticks) (base : Timeval)
    (hb : IsNormal base) where
  -- A frame's time is a normal `timeval`.
  pub set_timeval-IsNormal : (ts : ℕ) → IsNormal (set_timeval add_ticks base ts)
  unfolding set_timeval
  set_timeval-IsNormal ts = ground (
    arith,
    rounded.near_above base.tv_usec (ts % 90000) hb.0 hb.1 (omega arith),
    rounded.grows base.tv_usec 0 (ts % 90000) hb.0 hb.1 (omega arith) (omega arith),
    rounded.starts base.tv_usec hb.0 hb.1,
    -ℤ_parts (add_ticks base.tv_usec (ts % 90000)) (pos million),
  )

  micros-set_timeval :
      (ts : ℕ)
      → let t = set_timeval add_ticks base ts in
        let u = add_ticks base.tv_usec (ts % 90000) in
        million * (pos_part t.tv_sec + neg_part base.tv_sec) + pos_part t.tv_usec + neg_part u
        ≡ million * (neg_part t.tv_sec + pos_part base.tv_sec + ts / 90000)
          + neg_part t.tv_usec
          + pos_part u
  unfolding set_timeval
  micros-set_timeval ts = ground (
    arith,
    -ℤ_parts (add_ticks base.tv_usec (ts % 90000)) (pos million),
    +ℤ_parts base.tv_sec (pos (ts / 90000)),
    +ℤ_parts (base.tv_sec +ℤ pos (ts / 90000)) (pos 1),
  )

  -- Later timestamps do not get earlier times.
  pub set_timeval_mono :
      (ts ts' : ℕ)
      → ts ≤ ts'
      → micros (set_timeval add_ticks base ts) ≤ℤ micros (set_timeval add_ticks base ts')
  set_timeval_mono ts ts' h =
      let u = base.tv_usec in
      let t = set_timeval add_ticks base ts in
      let t' = set_timeval add_ticks base ts' in
      elim (dec_lt (ts / 90000) (ts' / 90000)) [
        | yes later ↦ omega (
          arith,
          micros_parts t,
          micros_parts t',
          micros-set_timeval ts,
          micros-set_timeval ts',
          rounded.near_above u (ts % 90000) hb.0 hb.1 (omega arith),
          rounded.grows u 0 (ts' % 90000) hb.0 hb.1 (omega arith) (omega arith),
          ap pos_part (rounded.starts u hb.0 hb.1),
          ap neg_part (rounded.starts u hb.0 hb.1),
        )
        | no same ↦ omega (
          arith,
          micros_parts t,
          micros_parts t',
          micros-set_timeval ts,
          micros-set_timeval ts',
          rounded.grows u (ts % 90000) (ts' % 90000) hb.0 hb.1 (omega arith) (omega arith),
        )
      ]

-- A time in the next second against one that has more than a second of microseconds.
module _ (a b : Timeval) (ha : IsNormal a)
    (hsec : pos_part a.tv_sec + neg_part b.tv_sec ≡ pos_part b.tv_sec + neg_part a.tv_sec + 1)
    (husec : pos_part a.tv_usec + million < pos_part b.tv_usec)
    (hbound : pos_part b.tv_usec < 2 * million) (hpos : neg_part b.tv_usec ≡ 0) where
  unnormal_after : timecmp a b <ℤ pos 0
  unfolding timecmp calculate_delta
  unnormal_after = ground (
    arith,
    -ℤ_parts b.tv_sec a.tv_sec,
    -ℤ_parts b.tv_usec a.tv_usec,
    parts_excl (b.tv_sec -ℤ a.tv_sec),
    parts_excl a.tv_usec,
    parts_excl (b.tv_usec -ℤ a.tv_usec),
    to_int-id (b.tv_sec -ℤ a.tv_sec),
  )

  unnormal_before : timecmp b a <ℤ pos 0
  unfolding timecmp calculate_delta
  unnormal_before = ground (
    arith,
    -ℤ_parts a.tv_sec b.tv_sec,
    -ℤ_parts a.tv_usec b.tv_usec,
    -ℤ_parts (a.tv_sec -ℤ b.tv_sec) (pos 1),
    +ℤ_parts (a.tv_usec -ℤ b.tv_usec) (pos million),
    parts_excl (a.tv_sec -ℤ b.tv_sec -ℤ pos 1),
    parts_excl a.tv_usec,
    parts_excl (a.tv_usec -ℤ b.tv_usec),
    parts_excl (a.tv_usec -ℤ b.tv_usec +ℤ pos million),
    to_int-id (a.tv_usec -ℤ b.tv_usec +ℤ pos million),
  )

-- `push_timeout` waits for exactly `time_ms` milliseconds.
pub micros-timeout_at :
    (now : Timeval) (ms : ℕ) → micros (timeout_at now ms) ≡ micros now +ℤ pos (1000 * ms)
unfolding timeout_at
micros-timeout_at now ms = eq_of_parts _ _ (
    omega (
      arith,
      micros_parts now,
      micros_parts (timeout_at now ms),
      +ℤ_parts (micros now) (pos (1000 * ms)),
      +ℤ_parts now.tv_sec (pos (ms / 1000)),
      +ℤ_parts now.tv_usec (pos (ms % 1000 * 1000)),
    ))

module _ (now other : Timeval) (ms : ℕ) (hn : IsNormal now) (ho : IsNormal other) (hms : ms < 1000)
    (hsec : other.tv_sec ≡ now.tv_sec +ℤ pos 1)
    (hlt : micros other <ℤ micros (timeout_at now ms)) where
  -- `timeout_at` has the second of `now`, and more than a second of microseconds.
  timeout_carries :
      let t = timeout_at now ms in
      (t.tv_sec ≡ now.tv_sec)
      × (pos_part other.tv_usec + million < pos_part t.tv_usec)
      × (pos_part t.tv_usec < 2 * million)
      × (neg_part t.tv_usec ≡ 0)
  unfolding timeout_at
  timeout_carries =
      let t = timeout_at now ms in
      let sec : pos_part (timeout_at now ms).tv_sec + neg_part now.tv_sec
          ≡ pos_part now.tv_sec + neg_part (timeout_at now ms).tv_sec =
        omega (arith, +ℤ_parts now.tv_sec (pos (ms / 1000))) in
      let usec = +ℤ_parts now.tv_usec (pos (ms % 1000 * 1000)) in
      let late = ap pos_part hsec in
      let late' = ap neg_part hsec in
      let next = +ℤ_parts now.tv_sec (pos 1) in
      let u = now.tv_usec +ℤ pos (ms % 1000 * 1000) in
      let m = micros_parts other in
      let m' = micros_parts (timeout_at now ms) in
      (
        eq_of_parts _ _ sec,
        omega (arith, parts_excl u, parts_excl other.tv_usec),
        omega (arith, parts_excl u, parts_excl other.tv_usec),
        omega (arith, parts_excl u, parts_excl other.tv_usec),
      )

  -- `timecmp` then calls each of the two times the later one: `push_timeout` does not carry into the
  -- seconds.
  pub timecmp-timeout_at :
      (timecmp other (timeout_at now ms) <ℤ pos 0) × (timecmp (timeout_at now ms) other <ℤ pos 0)
  timecmp-timeout_at =
      let t = timeout_at now ms in
      let c = timeout_carries in
      let next = +ℤ_parts now.tv_sec (pos 1) in
      let late = ap pos_part hsec in
      let late' = ap neg_part hsec in
      let sec : pos_part other.tv_sec + neg_part t.tv_sec
          ≡ pos_part t.tv_sec + neg_part other.tv_sec + 1 =
        omega (
          arith,
          ap pos_part c.0,
          ap neg_part c.0,
          parts_excl now.tv_sec,
          parts_excl (now.tv_sec +ℤ pos 1),
        ) in
      (unnormal_after other t ho sec c.1 c.2 c.3, unnormal_before other t ho sec c.1 c.2 c.3)
