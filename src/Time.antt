-- ===== src/Time.antt =====
-- `struct timeval` and the arithmetic on it in server.c. `tv_sec` and `tv_usec` are 64-bit `long`s
-- that stay far inside their range, so they are integers here; the `int` that `timecmp` returns is
-- 32 bits wide, and the conversion to it wraps.
pub mod Laws
pub mod Producers
use http2rtsp.Prelude.{ℕ, ◌+◌, ◌-◌, ◌*◌, ◌/◌, ◌%◌, ◌^◌, Bool, ltb, ◌==◌, if◌then◌else◌}
use http2rtsp.Prelude.Int.{ℤ, pos, negsuc, pos_part, neg_part, ◌+ℤ◌, ◌-ℤ◌, ltb_ℤ, leb_ℤ}

pub record Timeval : Type 0 where
  pub tv_sec : ℤ
  pub tv_usec : ℤ

abbrev pub million : ℕ
million = 1000000

-- `(int)x` for a `long`: the low 32 bits, read with a sign.
unfoldable pub to_int : ℤ → ℤ
to_int (pos n) = let w = n % 2 ^ 32 in if ltb w (2 ^ 31) then pos w else negsuc (2 ^ 32 - w - 1)
to_int (negsuc n) = let w = n % 2 ^ 32 in if ltb w (2 ^ 31) then negsuc w else pos (2 ^ 32 - w - 1)

unfoldable pub calculate_delta : Timeval → Timeval → Timeval
calculate_delta first second =
    let sec = second.tv_sec -ℤ first.tv_sec in
    let usec = second.tv_usec -ℤ first.tv_usec in
    if ltb_ℤ usec (pos 0)
    then record { tv_sec = sec -ℤ pos 1; tv_usec = usec +ℤ pos million }
    else record { tv_sec = sec; tv_usec = usec }

abbrev is_zero : ℤ → Bool
is_zero a = pos_part a + neg_part a == 0

unfoldable pub timecmp : Timeval → Timeval → ℤ
unfolding calculate_delta to_int
timecmp first second =
    let delta = calculate_delta first second in
    to_int (if is_zero delta.tv_sec then delta.tv_usec else delta.tv_sec)

-- The time that `push_timeout` gives its event. The division and the remainder are C's, on a
-- `time_ms` that is not negative.
unfoldable pub timeout_at : Timeval → ℕ → Timeval
timeout_at now time_ms = record {
  tv_sec = now.tv_sec +ℤ pos (time_ms / 1000);
  tv_usec = now.tv_usec +ℤ pos (time_ms % 1000 * 1000);
}

-- The time of the frame with this timestamp, in ticks of 1/90000 s. The microseconds are computed
-- in floating point: `add_ticks usec r` is the C value of `(long)(usec + r / 0.09)`.
unfoldable pub set_timeval : (ℤ → ℕ → ℤ) → Timeval → ℕ → Timeval
set_timeval add_ticks base timestamp =
    let sec = base.tv_sec +ℤ pos (timestamp / 90000) in
    let usec = add_ticks base.tv_usec (timestamp % 90000) in
    if leb_ℤ (pos million) usec
    then record { tv_sec = sec +ℤ pos 1; tv_usec = usec -ℤ pos million }
    else record { tv_sec = sec; tv_usec = usec }
