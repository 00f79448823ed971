-- ===== src/Rtp/Reassembly.antt =====
-- The unit of a frame against what a receiver reassembles from the packets of `send_video_frame`.
use http2rtsp.Prelude.{
  ℕ, zero, suc, ◌+◌, ◌-◌, ◌%◌, ◌≤◌, ◌<◌, ◌≡◌, ap₂, ◌∙◌, false, List, ◌∷◌, ◌++◌, arith, leb, ◌==◌,
  length, take, drop, length-take, length-append, length-drop, take-append_le, drop-append_le,
  take-take_le, take_add,
}
use native.Mathlib.Decide.{dec_le}
use native.Mathlib.Nat.{mod-eq_of_lt, mod-eq-sub-mod}
use http2rtsp.Rtp.{fill_packet, fu_bytes, video_packet, video_loop, u16}
use http2rtsp.Rtp.Fragments.{drop-fragment, Collects, last_fragment}

-- The rounds behind the first come out even: they never meet a rest of `space - 1` or `space` bytes,
-- which the loop would both mark as the last packet and not send whole.
abbrev pub IsEven : ℕ → ℕ → Type 0
IsEven space r = (r - 3) % (space - 2) + 3 ≤ space - 2

module _ (space ts : ℕ) (hspace : 4 < space) where
  middle_fragment :
      (fuel nal seq r k : ℕ) (d bytes : List ℕ)
      → space < r
      → space - 2 ≤ length d
      → Collects space ts hspace bytes (
          video_loop space ts nal fuel
            (u16 (seq + 1))
            (r - (space - 2))
            (drop (space - 2) d)
            false
            (k + 1))
      → Collects space ts hspace
          (take (space - 2) d ++ bytes)
          (video_loop space ts nal (suc fuel) seq r d false k)
  unfolding video_loop fill_packet
  middle_fragment fuel nal seq r k d bytes hr hd (s, e, f) =
      let w = take (space - 2) d in
      let p = video_packet space ts seq r (fu_bytes nal 0 ++ w) in
      let z : (r == 0) ≡ false = ground arith in
      let m : leb r (space - 2) ≡ false = ground arith in
      (
        record s { packets = p ∷ s.packets },
        rw (z, m, e),
        ap₂ (λ (a b : List ℕ). a ++ b)
            (drop-fragment space ts hspace seq r 0 nal w (space - 2) (ground arith)
                (omega (arith, length-take (space - 2) d))
              ∙ take-take_le (space - 2) (space - 2) d (omega arith))
            f,
      )

  pub IsEven-next :
      (r : ℕ) → space < r → IsEven space r → (r - (space - 2) - 3) % (space - 2) + 3 ≤ space - 2
  IsEven-next r hr h =
      let less : r - (space - 2) - 3 ≡ r - 3 - (space - 2) = omega arith in
      let e : (r - 3) % (space - 2) ≡ (r - 3 - (space - 2)) % (space - 2) =
        mod-eq-sub-mod (omega arith) in
      rw less (omega arith)

  IsEven-le : (r : ℕ) → 3 ≤ r → r ≤ space → IsEven space r → r ≤ space - 2
  IsEven-le r h3 hr h =
      let e : (r - 3) % (space - 2) ≡ r - 3 = mod-eq_of_lt (omega arith) in omega arith

  -- All rounds behind the first collect the rest of the unit but its last byte.
  pub rest_fragments :
      (fuel nal seq r k : ℕ) (rest beyond : List ℕ)
      → suc r < fuel
      → 3 ≤ r
      → IsEven space r
      → suc (length rest) ≡ r
      → Collects space ts hspace
          (take (r - 2) rest)
          (video_loop space ts nal fuel seq r (rest ++ beyond) false k)
  rest_fragments zero nal seq r k rest beyond b h3 ev len = absurd (omega arith)
  rest_fragments (suc zero) nal seq r k rest beyond b h3 ev len = absurd (omega arith)
  rest_fragments (suc (suc fuel)) nal seq r k rest beyond b h3 ev len = elim (dec_le r space) [
    | yes fits ↦ rw (← take-append_le (r - 2) rest beyond (omega arith)) (
        last_fragment space ts hspace fuel nal seq r k (rest ++ beyond) h3 (IsEven-le r h3 fits ev)
          (omega (arith, length-append rest beyond)))
    | no longer ↦
        let m = space - 2 in
        let ih =
          rest_fragments (suc fuel) nal (u16 (seq + 1)) (r - m) (k + 1) (drop m rest) beyond
            (omega arith) (omega arith) (IsEven-next r (omega arith) ev)
            (omega (arith, length-drop m rest)) in
        rw
          (
            ← take_add m (r - m - 2) (r - 2) rest (omega arith),
            ← take-append_le m rest beyond (omega arith),
          )
          (middle_fragment (suc fuel) nal seq r k (rest ++ beyond) (take (r - m - 2) (drop m rest))
            (omega arith) (omega (arith, length-append rest beyond))
            (rw (drop-append_le m rest beyond (omega arith)) ih))
  ]
