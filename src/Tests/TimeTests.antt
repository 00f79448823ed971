-- ===== src/Tests/TimeTests.antt =====
-- Times and timeouts.
use http2rtsp.Prelude.{ℕ, ◌*◌, ◌/◌, ◌≡◌, refl, ◌↔◌, arith}
use http2rtsp.Prelude.Int.{ℤ, pos, negsuc, ◌+ℤ◌, ◌-ℤ◌, ◌≤ℤ◌, ◌<ℤ◌, +ℤ_parts, eq_of_parts}
use http2rtsp.Time.{Timeval, timecmp, calculate_delta, timeout_at, set_timeval, to_int}
use http2rtsp.Time.Laws.{micros, IsNormal, timecmp_sign}
use http2rtsp.Time.Producers.{IsRounded, set_timeval-IsNormal, timecmp-timeout_at}

abbrev at : ℕ → ℕ → Timeval
at s u = record { tv_sec = pos s; tv_usec = pos u }

delta_borrows : calculate_delta (at 5 999999) (at 7 1) ≡ at 1 2
unfolding calculate_delta ◌-ℤ◌ ◌+ℤ◌
delta_borrows = refl

timecmp_runs : timecmp (at 7 1) (at 5 999999) ≡ negsuc 1
unfolding timecmp calculate_delta ◌-ℤ◌ ◌+ℤ◌ to_int
timecmp_runs = refl

timecmp_sign_example :
    ((pos 0 <ℤ timecmp (at 5 999999) (at 6 1)) ↔ (micros (at 5 999999) <ℤ micros (at 6 1)))
    × ((timecmp (at 5 999999) (at 6 1) ≤ℤ pos 0) ↔ (micros (at 6 1) ≤ℤ micros (at 5 999999)))
timecmp_sign_example = timecmp_sign (at 5 999999) (at 6 1) (omega arith) (omega arith) (omega arith)

-- the exact sum, rounded down
abbrev exact_ticks : ℤ → ℕ → ℤ
exact_ticks u r = u +ℤ pos (100 * r / 9)

exact_ticks-IsRounded : IsRounded exact_ticks
exact_ticks-IsRounded = record {
  near_below = λ u r a b c. omega (arith, +ℤ_parts u (pos (100 * r / 9)));
  near_above = λ u r a b c. omega (arith, +ℤ_parts u (pos (100 * r / 9)));
  grows = λ u r q a b c d.
      omega (arith, +ℤ_parts u (pos (100 * r / 9)), +ℤ_parts u (pos (100 * q / 9)));
  starts = λ u a b. eq_of_parts _ _ (omega (arith, +ℤ_parts u (pos 0)));
}

-- a frame half a second into a stream that starts late in a second
set_timeval_runs : set_timeval exact_ticks (at 5 700000) 45000 ≡ at 6 200000
unfolding set_timeval ◌+ℤ◌ ◌-ℤ◌
set_timeval_runs = refl

set_timeval-IsNormal_example : IsNormal (set_timeval exact_ticks (at 5 700000) 45000)
set_timeval-IsNormal_example =
    set_timeval-IsNormal exact_ticks exact_ticks-IsRounded (at 5 700000) (omega arith) 45000

timecmp-timeout_at_example :
    (timecmp (at 6 20000) (timeout_at (at 5 950000) 100) <ℤ pos 0)
    × (timecmp (timeout_at (at 5 950000) 100) (at 6 20000) <ℤ pos 0)
unfolding ◌+ℤ◌ timeout_at
timecmp-timeout_at_example =
    timecmp-timeout_at (at 5 950000) (at 6 20000) 100 (omega arith) (omega arith) (omega arith) refl
      (omega arith)
