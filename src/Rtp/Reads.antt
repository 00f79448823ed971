-- ===== src/Rtp/Reads.antt =====
-- Which frames `send_video_frame` sends without a read behind their buffer.
use http2rtsp.Prelude.{
  ℕ, zero, suc, ◌-◌, ◌^◌, ◌≤◌, ◌<◌, ◌≡◌, ◌⊎◌, inl, inr, refl, ◌∙◌, true, false, none, some, [],
  ◌++◌, arith, ltb, ◌==◌, ◌/◌, length, append-nil, ap,
}
use native.Mathlib.Nat.{div-eq_of_lt}
use http2rtsp.Frame.{Frame}
use http2rtsp.Rtp.{fill_packet, Sent, unit_read, data_read, checked_video_frame}
use http2rtsp.Rtp.Delivery.{remains-length, send_video_frame-Stream, checked-send_video_frame}

-- The rounds behind the first read each byte that is left once.
unit_read-rest : (space fuel r : ℕ) → 2 < space → r < fuel → unit_read space fuel r false ≡ r
unfolding unit_read fill_packet
unit_read-rest space zero r hs b = absurd (omega arith)
unit_read-rest space (suc fuel) zero hs b = refl
unit_read-rest space (suc fuel) (suc r) hs b =
    let o = fill_packet space 0 false (suc r) [] in
    let ih = unit_read-rest space fuel o.remains hs (ground arith) in rw ih (ground arith)

-- With the first byte skipped, but counted as left, a fragmented unit is read one byte too far.
unit_read-fragments :
    (space fuel r : ℕ)
    → 2 < space
    → space < r
    → r < suc fuel
    → unit_read space (suc fuel) r true ≡ suc r
unfolding unit_read fill_packet
unit_read-fragments space fuel r hs hr b =
    let long : ltb (space / r) 1 ≡ true = ground (arith, div-eq_of_lt hr) in
    let some_left : (r == 0) ≡ false = ground arith in
    rw (long, some_left, unit_read-rest space fuel (r - (space - 2)) hs (omega arith)) (omega arith)

module _ (frame : Frame) (hsize : length frame.bytes < 2 ^ 31) where
  data_read-short : length frame.bytes ≤ 4 → data_read frame ≡ 5
  unfolding data_read unit_read
  data_read-short short =
      let nothing : length frame.bytes - 4 ≡ 0 = omega arith in
      rw (remains-length (length frame.bytes) hsize, nothing) refl

  data_read-long : 63992 < length frame.bytes → data_read frame ≡ suc (length frame.bytes)
  unfolding data_read
  data_read-long long =
      let r = length frame.bytes - 4 in
      rw
        (
          remains-length (length frame.bytes) hsize,
          unit_read-fragments 63988 r r (omega arith) (omega arith) (omega arith),
        )
        (grind arith)

  behind :
      (seq : ℕ) → length frame.bytes < data_read frame → checked_video_frame [] frame seq ≡ none
  unfolding checked_video_frame
  behind seq h =
      let past : ltb (length (frame.bytes ++ [])) (data_read frame) ≡ true =
        ground (arith, ap length (append-nil frame.bytes), h) in
      rw past refl

  -- With nothing to be read behind the buffer of a frame, send_video_frame faults for a frame of at most
  -- 4 bytes and for one of more than 63992, which it fragments, and sends any other without a fault. The
  -- size is an int, and the sequence number and the timestamp have their widths.
  pub checked_video_frame-inside :
      (seq : ℕ)
      → seq < 2 ^ 16
      → frame.timestamp < 2 ^ 32
      → ((length frame.bytes ≤ 4) ⊎ (63992 < length frame.bytes)
          → checked_video_frame [] frame seq ≡ none)
        × (4 < length frame.bytes
            → length frame.bytes ≤ 63992
            → (s : Sent) × (checked_video_frame [] frame seq ≡ some s))
  checked_video_frame-inside seq hs ht = (
    λ outside. elim outside [
      | inl short ↦ behind seq (omega (arith, data_read-short short))
      | inr long ↦ behind seq (omega (arith, data_read-long long))
    ],
    λ low high.
        let (ps, sent, stream, some_left) = send_video_frame-Stream [] frame seq hsize hs ht in
        (_, checked-send_video_frame [] frame seq hsize low high ∙ sent),
  )
