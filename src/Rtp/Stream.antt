-- ===== src/Rtp/Stream.antt =====
-- The packets of a frame: their number, their numbering, their length and the marker bit.
use http2rtsp.Prelude.{
  ℕ, zero, suc, ◌+◌, ◌^◌, ◌≤◌, ◌<◌, ◌≡◌, ap, sym, ◌∙◌, Bool, false, some, List, [], ◌∷◌, ◌++◌,
  arith, leb, ◌==◌, if◌then◌else◌, length, replicate, get_or, length-take, ◌/◌,
}
use http2rtsp.Rtp.{markedsecondbyte_h264, rtp_header, fill_packet, video_packet, video_loop, u16}
use http2rtsp.Rtp.Header.{
  fields, header_fields, fields-rtp_header, payload, secondbyte_h264, video_packet-payload,
}

-- Packets that fit the buffer, with consecutive sequence numbers that wrap at 2 ^ 16, one timestamp,
-- and the marker bit set in the last one.
abbrev pub Stream : (space ts seq : ℕ) → List (List ℕ) → Type 0
Stream space ts seq [] = Unit
Stream space ts seq (p ∷ ps) =
    (length p ≤ space + 12)
    × (fields p ≡ header_fields (get_or p 1 0) seq ts)
    × (length ps ≡ 0 → get_or p 1 0 ≡ markedsecondbyte_h264)
    × Stream space ts (u16 (seq + 1)) ps

div_small : (a b : ℕ) → a < b → a / b ≡ 0
div_small a b h = grind arith

module _ (space ts : ℕ) (hspace : 2 < space) (hts : ts < 2 ^ 32) where
  payload-le : (r : ℕ) (w : List ℕ) → length (payload space r w) ≤ space
  payload-le r w =
      let n = if leb r space then r else space in
      let le : n ≤ space = ground arith in omega (arith, length-take n (w ++ replicate (n + 12) 0))

  second-video_packet :
      (seq r : ℕ) (w : List ℕ)
      → get_or (video_packet space ts seq r w) 1 0 ≡ secondbyte_h264 space r
  unfolding rtp_header
  second-video_packet seq r w =
      ap (λ (p : List ℕ). get_or p 1 0) (video_packet-payload space ts seq r w)

  fields-video_packet :
      (seq r : ℕ) (w : List ℕ)
      → seq < 2 ^ 16
      → fields (video_packet space ts seq r w) ≡ header_fields (secondbyte_h264 space r) seq ts
  fields-video_packet seq r w hs =
      ap fields (video_packet-payload space ts seq r w)
      ∙ fields-rtp_header (secondbyte_h264 space r) seq ts (payload space r w) hs hts

  length-video_packet :
      (seq r : ℕ) (w : List ℕ) → length (video_packet space ts seq r w) ≤ space + 12
  unfolding rtp_header
  length-video_packet seq r w =
      omega (arith, ap length (video_packet-payload space ts seq r w), payload-le r w)

  -- Each round makes progress, and a round that leaves nothing had a packet marked.
  fill_packet-lt :
      (nal : ℕ) (first : Bool) (r : ℕ) (d : List ℕ)
      → 0 < r
      → (fill_packet space nal first r d).remains < r
  unfolding fill_packet
  fill_packet-lt nal first r d h = ground arith

  fill_packet-last :
      (nal : ℕ) (first : Bool) (r : ℕ) (d : List ℕ)
      → space < r
      → 0 < (fill_packet space nal first r d).remains
  unfolding fill_packet
  fill_packet-last nal first r d h = ground (arith, div_small space r h)

  -- The loop ends, and the count is the number of packets.
  pub video_loop-Stream :
      (fuel nal seq r : ℕ) (d : List ℕ) (first : Bool) (k : ℕ)
      → seq < 2 ^ 16
      → r < fuel
      → (ps : List (List ℕ)) × (video_loop space ts nal fuel seq r d first k
          ≡ some (record { packets = ps; numpkts = k + length ps }))
        × Stream space ts seq ps
        × (0 < r → 0 < length ps)
  unfolding video_loop
  video_loop-Stream zero nal seq r d first k hs b = absurd (omega arith)
  video_loop-Stream (suc fuel) nal seq zero d first k hs b =
      ([], ground arith, tt, λ h. absurd (omega arith))
  video_loop-Stream (suc fuel) nal seq (suc r) d first k hs b =
      let o = fill_packet space nal first (suc r) d in
      let (ps, e, s, some_left) =
        video_loop-Stream fuel nal (u16 (seq + 1)) o.remains o.datastep false (k + 1) (omega arith)
          (omega (arith, fill_packet-lt nal first (suc r) d (omega arith))) in
      let p = video_packet space ts seq (suc r) o.written in
      let nz : (suc r == 0) ≡ false = ground arith in
      (
        p ∷ ps,
        rw (nz, e) (ap (λ (n : ℕ). some (record { packets = p ∷ ps; numpkts = n })) (omega arith)),
        (
          length-video_packet seq (suc r) o.written,
          fields-video_packet seq (suc r) o.written hs
              ∙ ap (λ x. header_fields x seq ts) (sym (second-video_packet seq (suc r) o.written)),
          λ none_left.
              second-video_packet seq (suc r) o.written
              ∙ ground (arith, fill_packet-last nal first (suc r) d, some_left, none_left),
          s,
        ),
        λ h. omega arith,
      )
