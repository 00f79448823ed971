-- ===== src/Rtp/Units.antt =====
-- A unit sent in one packet, and the first fragment of a longer one.
use http2rtsp.Prelude.{
  ℕ, zero, suc, ◌+◌, ◌-◌, ◌/◌, ◌≤◌, ◌<◌, ◌≡◌, refl, ap, ap₂, ◌∙◌, true, false, some, List, [], ◌∷◌,
  ◌++◌, arith, ltb, leb, ◌==◌, length, replicate, take, drop, length-take, length-append,
  length-drop, take-append_le, drop-append_le, take-take_le, take_add, take_all,
}
use native.Mathlib.Nat.{div-eq_of_lt, div-eq-sub-div}
use http2rtsp.Rtp.{
  markedsecondbyte_h264, rtp_header, fill_packet, fu_bytes, video_packet, Sent, video_loop, u16,
  unit_read,
}
use http2rtsp.Rtp.Header.{secondbyte_h264, video_packet-payload}
use http2rtsp.Rtp.Fragments.{
  fragment_data, reassemble, fragment-sent, indicator_type, start_restores,
}
use http2rtsp.Rtp.Reassembly.{IsEven, IsEven-next, rest_fragments}

div_small : (a b : ℕ) → a < b → a / b ≡ 0
div_small a b h = div-eq_of_lt h

div-pos : (s n : ℕ) → 0 < n → n ≤ s → 0 < s / n
div-pos s n h0 hs = omega (arith, div-eq-sub-div h0 hs)

fits_lem : (s n : ℕ) → 0 < n → n ≤ s → ltb (s / n) 1 ≡ false
fits_lem s n h0 hs = ground (arith, div-pos s n h0 hs)

-- Of a unit that fits a packet every byte is read once.
unit_read-zero : (space fuel : ℕ) → unit_read space fuel 0 false ≡ 0
unfolding unit_read
unit_read-zero space zero = refl
unit_read-zero space (suc fuel) = refl

pub unit_read-single :
    (space fuel n : ℕ) → 0 < n → n ≤ space → unit_read space (suc fuel) n true ≡ n
unfolding unit_read fill_packet
unit_read-single space fuel n h0 hs =
    let some_left : (n == 0) ≡ false = ground arith in
    rw (some_left, fits_lem space n h0 hs, unit_read-zero space fuel) (omega arith)

-- A receiver finds the first byte of the unit in the two headers of the first fragment.
reassemble-start :
    (second seq ts b : ℕ) (bytes : List ℕ) (ps : List (List ℕ))
    → b < 256
    → reassemble ((rtp_header second seq ts ++ (fu_bytes b 0x4 ++ bytes)) ∷ ps)
      ≡ b ∷ (bytes ++ fragment_data ps)
unfolding reassemble rtp_header
reassemble-start second seq ts b bytes ps h = rw (indicator_type b h, start_restores b h)

module _ (space ts seq : ℕ) (hspace : 4 < space) where
  start_round :
      (fuel k b : ℕ) (rest beyond : List ℕ) (s : Sent)
      → space < suc (length rest)
      → let r = suc (length rest) in
        let m = space - 2 in
        video_loop space ts b fuel (u16 (seq + 1)) (r - m) (drop m rest ++ beyond) false (k + 1)
          ≡ some s
        → video_loop space ts b (suc fuel) seq r (b ∷ (rest ++ beyond)) true k
          ≡ some (record s {
            packets =
                video_packet space ts seq r (fu_bytes b 0x4 ++ take m (rest ++ beyond)) ∷ s.packets;
          })
  unfolding video_loop fill_packet
  start_round fuel k b rest beyond s hs e =
      let z : (suc (length rest) == 0) ≡ false = ground arith in
      let d : ltb (space / suc (length rest)) 1 ≡ true =
        ground (arith, div_small space (suc (length rest)) hs) in
      rw (z, d, drop-append_le (space - 2) rest beyond (omega arith), e)

module _ (space ts nal seq : ℕ) (hspace : 4 < space) where
  -- A unit that fits goes into one packet, as it is.
  pub single_packet :
      (fuel : ℕ) (bytes beyond : List ℕ)
      → 0 < length bytes
      → length bytes ≤ space
      → 1 < fuel
      → video_loop space ts nal fuel seq (length bytes) (bytes ++ beyond) true 0
        ≡ some (record {
          packets = (rtp_header markedsecondbyte_h264 seq ts ++ bytes) ∷ [];
          numpkts = 1;
        })
  unfolding video_loop fill_packet
  single_packet zero bytes beyond h0 hs hf = absurd (omega arith)
  single_packet (suc zero) bytes beyond h0 hs hf = absurd (omega arith)
  single_packet (suc (suc fuel)) bytes beyond h0 hs hf =
      let n = length bytes in
      let z : (n == 0) ≡ false = ground arith in
      let l : leb n space ≡ true = ground arith in
      let d : ltb (space / n) 1 ≡ false = fits_lem space n h0 hs in
      let w : take n (bytes ++ beyond) ≡ bytes =
        take-append_le n bytes beyond (omega arith) ∙ take_all n bytes (omega arith) in
      rw (
        z,
        d,
        video_packet-payload space ts seq n (take n (bytes ++ beyond)),
        w,
        l,
        take-append_le n bytes (replicate (n + 12) 0) (omega arith),
        take_all n bytes (omega arith),
      )

  -- The first fragment of a longer unit holds the unit's first byte in its headers.
  pub start_collects :
      (fuel k : ℕ) (b : ℕ) (rest beyond : List ℕ)
      → suc (length rest) < fuel
      → b < 256
      → space < suc (length rest)
      → IsEven space (suc (length rest))
      → (s : Sent) × (video_loop space ts b fuel seq
            (suc (length rest))
            (b ∷ (rest ++ beyond))
            true
            k
          ≡ some s)
        × (reassemble s.packets ≡ b ∷ take (length rest - 1) rest)
  start_collects zero k b rest beyond hf hb hs ev = absurd (omega arith)
  start_collects (suc fuel) k b rest beyond hf hb hs ev =
      let r = suc (length rest) in
      let m = space - 2 in
      let w = take m (rest ++ beyond) in
      let (s, e, f) =
        rest_fragments space ts hspace fuel b (u16 (seq + 1)) (r - m) (k + 1) (drop m rest) beyond
          (omega arith) (omega arith) (IsEven-next space ts hspace r hs ev)
          (omega (arith, length-drop m rest)) in
      let whole : take m w ≡ take m rest =
        take-take_le m m (rest ++ beyond) (omega arith)
        ∙ take-append_le m rest beyond (omega arith) in
      (
        record s { packets = video_packet space ts seq r (fu_bytes b 0x4 ++ w) ∷ s.packets },
        start_round space ts seq hspace fuel k b rest beyond s hs e,
        ap (λ p. reassemble (p ∷ s.packets))
              (fragment-sent space ts hspace seq r 0x4 b w m (ground arith)
                (omega (arith, length-take m (rest ++ beyond), length-append rest beyond)))
            ∙ reassemble-start (secondbyte_h264 space r) seq ts b (take m w) s.packets hb
            ∙ ap (◌∷◌ b) (
                ap₂ (λ (x y : List ℕ). x ++ y) whole f
                ∙ take_add m (r - m - 2) (length rest - 1) rest (omega arith)),
      )
