-- ===== src/Rtp/Delivery.antt =====
-- `send_video_frame` as a whole: the unit of a frame against what a receiver reassembles from the packets of `send_video_frame`.
use http2rtsp.Prelude.{
  ℕ, zero, suc, ◌-◌, ◌^◌, ◌≤◌, ◌<◌, ◌≡◌, refl, ap, ◌∙◌, true, some, List, [], ◌∷◌, ◌++◌, arith,
  length, take, drop, get_or, length-drop, length-append, drop-append_le, false, ltb, ◌==◌,
}
use http2rtsp.Frame.{Frame}
use http2rtsp.Prelude.Int.{pos, pos_part, ◌-ℤ◌}
use http2rtsp.Time.{to_int}
use http2rtsp.Time.Laws.{to_int-id}
use http2rtsp.Rtp.{
  markedsecondbyte_h264, rtp_header, Sent, video_loop, send_video_frame, data_read,
  checked_video_frame,
}
use http2rtsp.Rtp.Stream.{Stream, video_loop-Stream}
use http2rtsp.Rtp.Fragments.{reassemble}
use http2rtsp.Rtp.Units.{unit_read-single, single_packet, start_collects}
use http2rtsp.Rtp.Reassembly.{IsEven}

-- the unit of a frame: its bytes behind the first four
abbrev pub unit : Frame → List ℕ
unit frame = drop 4 frame.bytes

-- `int remains = size - 4`
pub remains-length : (n : ℕ) → n < 2 ^ 31 → pos_part (to_int (pos n -ℤ pos 4)) ≡ n - 4
unfolding ◌-ℤ◌
remains-length n h = rw (to_int-id (pos n -ℤ pos 4) (ground arith) (ground arith)) (ground arith)

-- the first byte of the unit
get_or-drop :
    (i : ℕ) (xs : List ℕ) (b : ℕ) (rest : List ℕ) → drop i xs ≡ b ∷ rest → get_or xs i 0 ≡ b
get_or-drop zero [] b rest e = cc
get_or-drop zero (x ∷ xs) b rest e = cc
get_or-drop (suc i) [] b rest e = cc
get_or-drop (suc i) (x ∷ xs) b rest e = get_or-drop i xs b rest e

module _ (beyond : List ℕ) (frame : Frame) (seq : ℕ) (hsize : length frame.bytes < 2 ^ 31) where
  loop-unit :
      4 ≤ length frame.bytes
      → send_video_frame beyond frame seq
        ≡ video_loop 63988 frame.timestamp
            (get_or frame.bytes 4 0)
            (suc (length (unit frame)))
            seq
            (length (unit frame))
            (unit frame ++ beyond)
            true
            0
  unfolding send_video_frame
  loop-unit h =
      let e : pos_part (to_int (pos (length frame.bytes) -ℤ pos 4)) ≡ length (unit frame) =
        omega (arith, remains-length (length frame.bytes) hsize, length-drop 4 frame.bytes) in
      rw (e, drop-append_le 4 frame.bytes beyond h)

  -- The call ends, its packets are a stream that starts at `seqnum`, and the count that it returns is
  -- their number.
  pub send_video_frame-Stream :
      seq < 2 ^ 16
      → frame.timestamp < 2 ^ 32
      → (ps : List (List ℕ)) × (send_video_frame beyond frame seq
          ≡ some (record { packets = ps; numpkts = length ps }))
        × Stream 63988 frame.timestamp seq ps
        × (4 < length frame.bytes → 0 < length ps)
  unfolding send_video_frame
  send_video_frame-Stream hs ht =
      let r = pos_part (to_int (pos (length frame.bytes) -ℤ pos 4)) in
      let (ps, e, stream, some_left) =
        video_loop-Stream 63988 frame.timestamp (omega arith) ht (suc r) (get_or frame.bytes 4 0)
          seq r (drop 4 (frame.bytes ++ beyond)) true 0 hs (omega arith) in
      (
        ps,
        e ∙ ap (λ (n : ℕ). some (record { packets = ps; numpkts = n })) (omega arith),
        stream,
        λ h. some_left (omega (arith, remains-length (length frame.bytes) hsize)),
      )

  -- Of a frame whose unit fits a packet no byte behind the buffer is read.
  data_read-length :
      4 < length frame.bytes → length frame.bytes ≤ 63992 → data_read frame ≡ length frame.bytes
  unfolding data_read
  data_read-length low high =
      let n = length frame.bytes - 4 in
      let some_left : (n == 0) ≡ false = ground (arith, low) in
      rw
        (
          remains-length (length frame.bytes) hsize,
          unit_read-single 63988 n n (omega arith) (omega arith),
          some_left,
        )
        (omega arith)

  -- Such a frame is sent without a fault, whatever lies behind its buffer.
  pub checked-send_video_frame :
      4 < length frame.bytes
      → length frame.bytes ≤ 63992
      → checked_video_frame beyond frame seq ≡ send_video_frame beyond frame seq
  unfolding checked_video_frame
  checked-send_video_frame low high =
      let inside : ltb (length (frame.bytes ++ beyond)) (data_read frame) ≡ false =
        ground (arith, data_read-length low high, length-append frame.bytes beyond) in
      rw inside refl

  -- A unit of at most `bufsize - 12` bytes goes out in one packet, whole and marked.
  pub send_video_frame-single :
      0 < length (unit frame)
      → length (unit frame) ≤ 63988
      → send_video_frame beyond frame seq
        ≡ some (record {
          packets = (rtp_header markedsecondbyte_h264 seq frame.timestamp ++ unit frame) ∷ [];
          numpkts = 1;
        })
  send_video_frame-single h0 hs =
      loop-unit (omega (arith, length-drop 4 frame.bytes))
      ∙ single_packet 63988 frame.timestamp (get_or frame.bytes 4 0) seq (omega arith)
          (suc (length (unit frame))) (unit frame) beyond h0 hs (omega arith)

  -- From the fragments of a longer unit a receiver gets the unit without its last byte.
  pub send_video_frame-drops_last :
      63988 < length (unit frame)
      → IsEven 63988 (length (unit frame))
      → get_or frame.bytes 4 0 < 256
      → (s : Sent) × (send_video_frame beyond frame seq ≡ some s)
        × (reassemble s.packets ≡ take (length (unit frame) - 1) (unit frame))
  send_video_frame-drops_last hs ev hb =
      let (s, e, f) = fragments (unit frame) refl hs ev hb in
      (s, loop-unit (omega (arith, length-drop 4 frame.bytes)) ∙ e, f)
    where
      fragments :
          (u : List ℕ)
          → unit frame ≡ u
          → 63988 < length u
          → IsEven 63988 (length u)
          → get_or frame.bytes 4 0 < 256
          → (s : Sent) × (video_loop 63988 frame.timestamp
                (get_or frame.bytes 4 0)
                (suc (length u))
                seq
                (length u)
                (u ++ beyond)
                true
                0
              ≡ some s)
            × (reassemble s.packets ≡ take (length u - 1) u)
      fragments [] e hs ev hb = absurd (omega arith)
      fragments (b ∷ rest) e hs ev hb =
          let first : get_or frame.bytes 4 0 ≡ b = get_or-drop 4 frame.bytes b rest e in
          let len : suc (length rest) - 1 ≡ suc (length rest - 1) = omega arith in
          rw (first, len)
            (start_collects 63988 frame.timestamp 0 seq (omega arith) (suc (suc (length rest))) 0 b
              rest beyond (omega arith) (rw first at hb) hs ev)
