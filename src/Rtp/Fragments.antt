-- ===== src/Rtp/Fragments.antt =====
-- What a receiver puts together from the packets of a frame (RFC 6184).
use Prim.Native.Nat.{bit_and, bit_or}
use http2rtsp.Prelude.{
  ℕ, zero, suc, ◌+◌, ◌-◌, ◌*◌, ◌%◌, ◌^◌, ◌≤◌, ◌<◌, ◌≡◌, refl, ap, ◌∙◌, Bool, true, false, Option,
  some, List, [], ◌∷◌, ◌++◌, arith, leb, ◌==◌, if◌then◌else◌, length, replicate, take, drop, get_or,
  length-take, take-append, take-append_le, take-take_le, append-nil, ==_iff,
}
use native.Mathlib.Decide.{dec_lt}
use http2rtsp.Rtp.{rtp_header, fill_packet, fu_bytes, video_packet, Sent, video_loop}
use http2rtsp.Rtp.Header.{secondbyte_h264, video_packet-payload}

-- the bytes of the fragments, without the headers
abbrev pub fragment_data : List (List ℕ) → List ℕ
fragment_data [] = []
fragment_data (p ∷ ps) = drop 14 p ++ fragment_data ps

-- The unit: the payload of a single packet, or what the fragments hold, behind the first byte that
-- the indicator and the FU header make up.
unfoldable pub reassemble : List (List ℕ) → List ℕ
reassemble [] = []
reassemble (p ∷ ps) =
    if bit_and (get_or p 12 0) 0x1f == 28
    then bit_or (bit_and (get_or p 12 0) 0xe0) (bit_and (get_or p 13 0) 0x1f)
      ∷ fragment_data (p ∷ ps)
    else drop 12 p

-- `test` at each number from 0 up to `last`, by evaluation.
holds_up_to : (ℕ → Bool) → ℕ → Bool
holds_up_to test zero = test 0
holds_up_to test (suc last) = if test (suc last) then holds_up_to test last else false

holds_at : (test : ℕ → Bool) (last b : ℕ) → b ≤ last → holds_up_to test last ≡ true → test b ≡ true
unfolding holds_up_to
holds_at test zero b h e = let z : b ≡ 0 = omega arith in rw z e
holds_at test (suc last) b h e = elim (dec_lt b (suc last)) [
  | yes less ↦ holds_at test last b (omega arith) (ground arith)
  | no same ↦ let z : b ≡ suc last = omega arith in rw z (ground arith)
]

abbrev pub indicator : ℕ → ℕ
indicator nal = bit_or (bit_and nal 0xe0) 0x1c

abbrev pub fu_header : ℕ → ℕ → ℕ
fu_header flags nal = bit_or (flags * 2 ^ 5 % 256) (bit_and nal 0x1f)

indicator_table : holds_up_to (λ b. bit_and (indicator b) 0x1f == 28) 255 ≡ true
unfolding holds_up_to
indicator_table = refl

start_table :
    holds_up_to (λ b. bit_or (bit_and (indicator b) 0xe0) (bit_and (fu_header 0x4 b) 0x1f) == b) 255
    ≡ true
unfolding holds_up_to
start_table = refl

-- A receiver knows a fragment by its type, and finds the first byte of the unit again.
pub indicator_type : (b : ℕ) → b < 256 → bit_and (indicator b) 0x1f ≡ 28
indicator_type b h = (==_iff _ 28).0 (holds_at _ 255 b (omega arith) indicator_table)

pub start_restores :
    (b : ℕ) → b < 256 → bit_or (bit_and (indicator b) 0xe0) (bit_and (fu_header 0x4 b) 0x1f) ≡ b
start_restores b h = (==_iff _ b).0 (holds_at _ 255 b (omega arith) start_table)

-- A fragment as it is sent, with `k` bytes of data.
module _ (space ts : ℕ) (hspace : 4 < space) where
  pub fragment-sent :
      (seq r flags nal : ℕ) (w : List ℕ) (k : ℕ)
      → (if leb r space then r else space) ≡ 2 + k
      → k ≤ length w
      → video_packet space ts seq r (fu_bytes nal flags ++ w)
        ≡ rtp_header (secondbyte_h264 space r) seq ts ++ (fu_bytes nal flags ++ take k w)
  fragment-sent seq r flags nal w k e h =
      let z = replicate ((if leb r space then r else space) + 12) 0 in
      video_packet-payload space ts seq r (fu_bytes nal flags ++ w)
      ∙ ap (◌++◌ (rtp_header (secondbyte_h264 space r) seq ts)) (
          take-append (fu_bytes nal flags) (w ++ z) _ k e
          ∙ ap (◌++◌ (fu_bytes nal flags)) (take-append_le k w z h))

  pub drop-fragment :
      (seq r flags nal : ℕ) (w : List ℕ) (k : ℕ)
      → (if leb r space then r else space) ≡ 2 + k
      → k ≤ length w
      → drop 14 (video_packet space ts seq r (fu_bytes nal flags ++ w)) ≡ take k w
  unfolding rtp_header
  drop-fragment seq r flags nal w k e h = ap (drop 14) (fragment-sent seq r flags nal w k e h)

  -- What the rounds behind the first leave in a receiver's hands.
  abbrev pub Collects : List ℕ → Option Sent → Type 0
  Collects bytes out = (s : Sent) × (out ≡ some s) × (fragment_data s.packets ≡ bytes)

  pub last_fragment :
      (fuel nal seq r k : ℕ) (d : List ℕ)
      → 3 ≤ r
      → r ≤ space - 2
      → r ≤ suc (length d)
      → Collects (take (r - 2) d) (video_loop space ts nal (suc (suc fuel)) seq r d false k)
  unfolding video_loop fill_packet
  last_fragment fuel nal seq r k d h3 hm hd =
      let w = take r d in
      let p = video_packet space ts seq r (fu_bytes nal 0x2 ++ w) in
      let e : (r == 0) ≡ false = ground arith in
      let m : leb r (space - 2) ≡ true = ground arith in
      (
        record { packets = p ∷ []; numpkts = k + 1 },
        rw (e, m),
        append-nil (drop 14 p)
            ∙ drop-fragment seq r 0x2 nal w (r - 2) (ground arith) (omega (arith, length-take r d))
            ∙ take-take_le (r - 2) r d (omega arith),
      )
