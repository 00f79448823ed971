-- ===== src/Rtp/Header.antt =====
-- The fields of a packet's header, read back as a receiver does (RFC 3550).
use http2rtsp.Prelude.{
  ℕ, suc, ◌+◌, ◌*◌, ◌^◌, ◌<◌, ◌≡◌, refl, ap, ◌∙◌, List, ◌++◌, append_assoc, arith, leb,
  if◌then◌else◌, take, drop, replicate, get_or, take-append,
}
use http2rtsp.Rtp.{
  ssrc, firstbyte, markedsecondbyte_h264, unmarkedsecondbyte_h264, rtp_header, video_packet,
}

pub record Fields : Type 0 where
  pub firstbyte : ℕ
  pub secondbyte : ℕ
  pub seqnum : ℕ
  pub timestamp : ℕ
  pub source : ℕ

abbrev two_bytes : List ℕ → ℕ → ℕ
two_bytes p i = get_or p i 0 * 2 ^ 8 + get_or p (suc i) 0

unfoldable pub fields : List ℕ → Fields
fields p = record {
  firstbyte = get_or p 0 0;
  secondbyte = get_or p 1 0;
  seqnum = two_bytes p 2;
  timestamp = two_bytes p 4 * 2 ^ 16 + two_bytes p 6;
  source = two_bytes p 8 * 2 ^ 16 + two_bytes p 10;
}

abbrev pub header_fields : ℕ → ℕ → ℕ → Fields
header_fields second seq ts = record {
  firstbyte = firstbyte;
  secondbyte = second;
  seqnum = seq;
  timestamp = ts;
  source = ssrc;
}

-- A receiver reads back the sequence number, the timestamp and the source.
pub fields-rtp_header :
    (second seq ts : ℕ) (payload : List ℕ)
    → seq < 2 ^ 16
    → ts < 2 ^ 32
    → fields (rtp_header second seq ts ++ payload) ≡ header_fields second seq ts
unfolding fields rtp_header
fields-rtp_header second seq ts payload hs ht = ground arith

pub drop-rtp_header :
    (second seq ts : ℕ) (payload : List ℕ) → drop 12 (rtp_header second seq ts ++ payload) ≡ payload
unfolding rtp_header
drop-rtp_header second seq ts payload = refl

-- What `send_all` is given behind the header.
abbrev pub payload : ℕ → ℕ → List ℕ → List ℕ
payload space remains written =
    let n = if leb remains space then remains else space in take n (written ++ replicate (n + 12) 0)

abbrev pub secondbyte_h264 : ℕ → ℕ → ℕ
secondbyte_h264 space remains =
    if leb remains space then markedsecondbyte_h264 else unmarkedsecondbyte_h264

pub video_packet-payload :
    (space ts seq remains : ℕ) (written : List ℕ)
    → video_packet space ts seq remains written
      ≡ rtp_header (secondbyte_h264 space remains) seq ts ++ payload space remains written
unfolding video_packet
video_packet-payload space ts seq remains written =
    let n = if leb remains space then remains else space in
    let hd = rtp_header (secondbyte_h264 space remains) seq ts in
    ap (take (n + 12)) (append_assoc hd written (replicate (n + 12) 0))
    ∙ take-append hd (written ++ replicate (n + 12) 0) (n + 12) n (unfold rtp_header in omega arith)
