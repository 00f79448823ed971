-- ===== src/Rtp.antt =====
-- send_frame.c: a frame becomes RTP packets, those of a long H.264 unit as FU-A fragments. A packet is
-- the list of the bytes that `send_all` is given; the list of packets is the order of the calls.
-- Bytes are numbers below 256.
pub mod Header
pub mod Stream
pub mod Fragments
pub mod Reassembly
pub mod Units
pub mod Delivery
pub mod Reads
use Prim.Native.Nat.{bit_and, bit_or}
use http2rtsp.Prelude.{
  ℕ, zero, suc, ◌+◌, ◌-◌, ◌*◌, ◌/◌, ◌%◌, ◌^◌, Bool, true, false, Option, none, some, List, [], ◌∷◌,
  ◌++◌, ltb, leb, ◌==◌, if◌then◌else◌, length, take, drop, replicate, get_or,
}
use http2rtsp.Prelude.Int.{pos, pos_part, ◌-ℤ◌}
use http2rtsp.Frame.{Frame}
use http2rtsp.Time.{to_int}

abbrev pub bufsize : ℕ
bufsize = 64000

abbrev pub ssrc : ℕ
ssrc = 8472857

abbrev pub firstbyte : ℕ
firstbyte = 0x80

abbrev pub markedsecondbyte_h264 : ℕ
markedsecondbyte_h264 = 0xe0

abbrev pub unmarkedsecondbyte_h264 : ℕ
unmarkedsecondbyte_h264 = 0x60

abbrev pub markedsecondbyte_pcma : ℕ
markedsecondbyte_pcma = 0x88

-- `(unsigned char)x`
abbrev pub to_byte : ℕ → ℕ
to_byte x = x % 256

abbrev pub u16 : ℕ → ℕ
u16 x = x % 2 ^ 16

abbrev pub u32 : ℕ → ℕ
u32 x = x % 2 ^ 32

unfoldable pub packi16 : ℕ → List ℕ
packi16 i = to_byte (u16 i / 2 ^ 8) ∷ to_byte (u16 i) ∷ []

unfoldable pub pack32i : ℕ → List ℕ
pack32i src =
    to_byte (u32 src / 2 ^ 24)
    ∷ to_byte (u32 src / 2 ^ 16)
    ∷ to_byte (u32 src / 2 ^ 8)
    ∷ to_byte (u32 src)
    ∷ []

-- the twelve bytes that every packet starts with
unfoldable pub rtp_header : ℕ → ℕ → ℕ → List ℕ
unfolding packi16 pack32i
rtp_header secondbyte seqnum timestamp =
    firstbyte ∷ secondbyte ∷ (packi16 seqnum ++ (pack32i timestamp ++ pack32i ssrc))

-- The first `buflen` bytes of a buffer that was zero and then written from its start.
abbrev pub buffer_prefix : ℕ → List ℕ → List ℕ
buffer_prefix buflen written = take buflen (written ++ replicate buflen 0)

-- The two bytes before a fragment: the indicator and the FU header with its start or end bit.
abbrev pub fu_bytes : ℕ → ℕ → List ℕ
fu_bytes nalbyte flags =
    bit_or (bit_and nalbyte 0xe0) 0x1c
    ∷ bit_or (to_byte (flags * 2 ^ 5)) (bit_and nalbyte 0x1f)
    ∷ []

-- What one round of the loop writes behind the header, and leaves to the next; `reached` is how many
-- bytes from `datastep` on it has read or skipped.
pub record Round : Type 0 where
  pub written : List ℕ
  pub remains : ℕ
  pub datastep : List ℕ
  pub reached : ℕ

-- The branches of the round. `datastep` holds what lies in memory from that pointer on.
unfoldable pub fill_packet : (space : ℕ) → (nalbyte : ℕ) → Bool → ℕ → List ℕ → Round
fill_packet space nalbyte firstpacket remains datastep =
    if firstpacket
    then (if ltb (space / remains) 1
        then record {
          written = fu_bytes nalbyte 0x4 ++ take (space - 2) (drop 1 datastep);
          remains = remains - (space - 2);
          datastep = drop (space - 2) (drop 1 datastep);
          reached = 1 + (space - 2);
        }
        else record {
          written = take remains datastep;
          remains = 0;
          datastep = datastep;
          reached = remains;
        })
    else if leb remains (space - 2)
    then record {
      written = fu_bytes nalbyte 0x2 ++ take remains datastep;
      remains = 0;
      datastep = datastep;
      reached = remains;
    }
    else record {
      written = fu_bytes nalbyte 0 ++ take (space - 2) datastep;
      remains = remains - (space - 2);
      datastep = drop (space - 2) datastep;
      reached = space - 2;
    }

-- The packet of the round. Its length and its second byte are chosen before it is filled.
unfoldable pub video_packet : (space timestamp seqnum remains : ℕ) → List ℕ → List ℕ
unfolding rtp_header
video_packet space timestamp seqnum remains written =
    let last = leb remains space in
    buffer_prefix ((if last then remains else space) + 12) (
      rtp_header (if last then markedsecondbyte_h264 else unmarkedsecondbyte_h264) seqnum timestamp
      ++ written)

-- The packets that were sent, and the count that is returned.
pub record Sent : Type 0 where
  pub packets : List (List ℕ)
  pub numpkts : ℕ

abbrev pub prepend : List ℕ → Option Sent → Option Sent
prepend p none = none
prepend p (some s) = some (record s { packets = p ∷ s.packets })

-- The loop, `none` if the fuel runs out.
unfoldable pub video_loop :
    (space timestamp nalbyte fuel : ℕ) → (seqnum remains : ℕ) → List ℕ → Bool → ℕ → Option Sent
video_loop space timestamp nalbyte zero seqnum remains datastep firstpacket numpkts = none
video_loop space timestamp nalbyte (suc fuel) seqnum remains datastep firstpacket numpkts =
    let r = fill_packet space nalbyte firstpacket remains datastep in
    let rest =
      video_loop space timestamp nalbyte fuel (u16 (seqnum + 1)) r.remains r.datastep false
        (numpkts + 1) in
    if remains == 0
    then some (record { packets = []; numpkts = numpkts })
    else prepend (video_packet space timestamp seqnum remains r.written) rest

-- The packets, whatever is read. `beyond` is what lies in memory behind the frame's buffer; an
-- `int remains` that is not positive sends nothing.
unfoldable pub send_video_frame : List ℕ → Frame → ℕ → Option Sent
send_video_frame beyond frame seqnum =
    let size = length frame.bytes in
    let remains = pos_part (to_int (pos size -ℤ pos 4)) in
    video_loop (bufsize - 12) frame.timestamp (get_or frame.bytes 4 0) (suc remains) seqnum remains
      (drop 4 (frame.bytes ++ beyond)) true 0

-- How many bytes of the unit the rounds of the loop read, the one that is skipped included.
unfoldable pub unit_read : (space fuel : ℕ) → ℕ → Bool → ℕ
unit_read space zero remains firstpacket = 0
unit_read space (suc fuel) remains firstpacket =
    let r = fill_packet space 0 firstpacket remains [] in
    let rest = unit_read space fuel r.remains false in if remains == 0 then 0 else r.reached + rest

-- How many bytes of `data` the call reads: `data[4]` always, and the unit behind the first four.
unfoldable pub data_read : Frame → ℕ
unfolding unit_read
data_read frame =
    let remains = pos_part (to_int (pos (length frame.bytes) -ℤ pos 4)) in
    let n = unit_read (bufsize - 12) (suc remains) remains true in if n == 0 then 5 else 4 + n

-- The call in memory: `none` is a read behind the frame's buffer and the bytes `beyond` that can be
-- read there.
unfoldable pub checked_video_frame : List ℕ → Frame → ℕ → Option Sent
unfolding data_read send_video_frame
checked_video_frame beyond frame seqnum =
    if ltb (length (frame.bytes ++ beyond)) (data_read frame)
    then none
    else send_video_frame beyond frame seqnum

-- `none` is a write behind the end of the buffer of `bufsize` bytes.
unfoldable pub send_audio_frame : Frame → ℕ → Option Sent
unfolding rtp_header
send_audio_frame frame seqnum =
    if ltb bufsize (length frame.bytes + 12)
    then none
    else some (record {
      packets = (rtp_header markedsecondbyte_pcma seqnum frame.timestamp ++ frame.bytes) ∷ [];
      numpkts = 1;
    })

-- The packet, and the sequence number afterwards.
unfoldable pub send_dummy_rtp : ℕ → List ℕ × ℕ
unfolding rtp_header
send_dummy_rtp seqnum = (rtp_header unmarkedsecondbyte_h264 seqnum 0, u16 (seqnum + 1))
