-- ===== src/Tests/RtpTests.antt =====
-- Packets of short and long frames.
use http2rtsp.Prelude.{
  ℕ, ◌-◌, ◌<◌, ◌≡◌, refl, true, some, List, [], ◌∷◌, ◌++◌, arith, length, take, replicate,
  length-replicate, ◌⊎◌, ◌≤◌, none,
}
use http2rtsp.Frame.{Frame, video_frame}
use http2rtsp.Rtp.{
  Sent, rtp_header, checked_video_frame, send_video_frame, video_loop, fill_packet, video_packet,
}
use http2rtsp.Rtp.Header.{fields, header_fields, fields-rtp_header}
use http2rtsp.Rtp.Stream.{Stream}
use http2rtsp.Rtp.Fragments.{reassemble}
use http2rtsp.Rtp.Reads.{checked_video_frame-inside}
use http2rtsp.Rtp.Delivery.{
  unit, send_video_frame-Stream, send_video_frame-single, send_video_frame-drops_last,
}

abbrev short : Frame
short = record { bytes = 0 ∷ 0 ∷ 0 ∷ 1 ∷ 0x65 ∷ 7 ∷ []; timestamp = 90000; frametype = video_frame }

-- a unit of 65000 bytes
filler : List ℕ
filler = replicate 64999 7

abbrev long : Frame
long = record { bytes = 0 ∷ 0 ∷ 0 ∷ 1 ∷ 0x65 ∷ filler; timestamp = 90000; frametype = video_frame }

length-filler : length filler ≡ 64999
unfolding filler
length-filler = length-replicate {A = ℕ} 64999 7

-- With room for eight bytes, a unit of ten goes into two packets, which lack the tenth byte.
abbrev ten : List ℕ
ten = 0x65 ∷ 1 ∷ 2 ∷ 3 ∷ 4 ∷ 5 ∷ 6 ∷ 7 ∷ 8 ∷ 9 ∷ []

ten_sent :
    video_loop 8 0 0x65 11 0xffff 10 ten true 0
    ≡ some (record {
      packets =
          (rtp_header 0x60 0xffff 0 ++ (0x7c ∷ 0x85 ∷ 1 ∷ 2 ∷ 3 ∷ 4 ∷ 5 ∷ 6 ∷ []))
          ∷ (rtp_header 0xe0 0 0 ++ (0x7c ∷ 0x45 ∷ 7 ∷ 8 ∷ []))
          ∷ [];
      numpkts = 2;
    })
unfolding video_loop fill_packet video_packet rtp_header
ten_sent = refl

fields-rtp_header_example :
    fields (rtp_header 0xe0 0xffff 8000000 ++ (1 ∷ [])) ≡ header_fields 0xe0 0xffff 8000000
fields-rtp_header_example =
    fields-rtp_header 0xe0 0xffff 8000000 (1 ∷ []) (omega arith) (omega arith)

send_video_frame-Stream_example :
    (ps : List (List ℕ)) × (send_video_frame (9 ∷ []) short 0xffff
      ≡ some (record { packets = ps; numpkts = length ps }))
    × Stream 63988 90000 0xffff ps
    × (4 < 6 → 0 < length ps)
send_video_frame-Stream_example =
    send_video_frame-Stream (9 ∷ []) short 0xffff (omega arith) (omega arith) (omega arith)

send_video_frame-single_example :
    send_video_frame (9 ∷ []) short 5
    ≡ some (record { packets = (rtp_header 0xe0 5 90000 ++ (0x65 ∷ 7 ∷ [])) ∷ []; numpkts = 1 })
send_video_frame-single_example =
    send_video_frame-single (9 ∷ []) short 5 (omega arith) (omega arith) (omega arith)

send_video_frame-drops_last_example :
    (s : Sent) × (send_video_frame (9 ∷ []) long 5 ≡ some s)
    × (reassemble s.packets ≡ take (length (unit long) - 1) (unit long))
send_video_frame-drops_last_example =
    send_video_frame-drops_last (9 ∷ []) long 5 (omega (arith, length-filler))
      (omega (arith, length-filler)) (omega (arith, length-filler)) (omega arith)

checked_video_frame-inside_example :
    ((6 ≤ 4) ⊎ (63992 < 6) → checked_video_frame [] short 7 ≡ none)
    × (4 < 6 → 6 ≤ 63992 → (s : Sent) × (checked_video_frame [] short 7 ≡ some s))
checked_video_frame-inside_example =
    checked_video_frame-inside short (omega arith) 7 (omega arith) (omega arith)
