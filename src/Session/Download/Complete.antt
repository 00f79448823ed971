-- ===== src/Session/Download/Complete.antt =====
-- The last piece of a download, and the start of the stream.
use http2rtsp.Prelude.{
  ℕ, ◌+◌, ◌-◌, ◌≤◌, ◌<◌, ◌≡◌, refl, ap, ◌∙◌, true, false, Option, some, List, [], ◌∷◌, ◌++◌, ◌==◌,
  arith, append-nil, append_assoc, length, length-append,
}
use http2rtsp.Prelude.Int.{pos, leb_ℤ, ◌-ℤ◌, -ℤ_parts}
use http2rtsp.Text.{Bytes}
use http2rtsp.Rtp.{u16, rtp_header, markedsecondbyte_h264}
use http2rtsp.Rtp.Delivery.{send_video_frame-single, checked-send_video_frame}
use http2rtsp.Session.{
  recvtcp, stream, info_live, Action, closed, rtp_sent, thread_started, file_closed, State, Outside,
}
use http2rtsp.Session.Requests.{create_sprop_frame, send_sprop}
use http2rtsp.Session.Media.{download_complete, stored, on_video_data, media_branch, on_media}
use http2rtsp.Session.Memory.{HasQueue, IsFresh, push_check-some}
use http2rtsp.Session.Download.{download, IsPiece, ArePieces, pieces, on_video_data-piece}

-- A parameter set that goes out in one packet.
abbrev pub IsParameterSet : Bytes → Type 0
IsParameterSet ps = (0 < length ps) × (length ps ≤ 63988)

sprop_sent : Bytes → State → List Action
sprop_sent ps s =
    rtp_sent s.client.videofd_rtp ((rtp_header markedsecondbyte_h264 s.rtpseqno_video 0 ++ ps) ∷ [])
    ∷ []

send_sprop-single :
    (o : Outside) (ps : Bytes) (s : State)
    → IsParameterSet ps
    → send_sprop o ps s
      ≡ some (record s { rtpseqno_video = u16 (s.rtpseqno_video + 1) }, sprop_sent ps s)
unfolding create_sprop_frame sprop_sent
send_sprop-single o ps s (low, high) =
    rw
      (checked-send_video_frame o.beyond (create_sprop_frame ps 0) s.rtpseqno_video (omega arith)
          (omega arith) (omega arith)
        ∙ send_video_frame-single o.beyond (create_sprop_frame ps 0) s.rtpseqno_video (omega arith)
            low high)
      refl

-- What the end of the download leaves: the state and the file, and the parameter sets are sent.
abbrev pub Completes : State → Option (State × List Action) → Type 0
Completes s out =
    (s' : State) × (a : List Action) × (out ≡ some (s', a))
    × (s'.mediastate ≡ stream)
    × (s'.media_downloaded ≡ true)
    × (s'.tinfo ≡ info_live)
    × (s'.video_file ≡ s.video_file)
    × (s'.rtpseqno_video ≡ u16 (u16 (s.rtpseqno_video + 1) + 1))
    × HasQueue s'

download_complete-Completes :
    (o : Outside) (s : State)
    → IsParameterSet o.sps
    → IsParameterSet o.pps
    → HasQueue s
    → IsFresh o s.store
    → Completes s (download_complete o s)
unfolding download_complete
download_complete-Completes o s sps pps (xs, v) fresh =
    let s1 : State = record s { media_downloaded = true; tinfo = info_live } in
    let sent1 = send_sprop-single o o.sps s1 sps in
    let s2 : State = record s1 { rtpseqno_video = u16 (s1.rtpseqno_video + 1) } in
    let sent2 = send_sprop-single o o.pps s2 pps in
    let s3 : State = record s2 { rtpseqno_video = u16 (s2.rtpseqno_video + 1) } in
    let (r, pushed, (ys, sound, lives, out)) =
      push_check-some o.event1 o 1000 s3 xs v fresh.unused1 fresh.given1 in
    (
      record s3 { queue = r.0; store = r.1; mediastate = stream },
      file_closed
          ∷ closed s.mediafd
          ∷ thread_started
          ∷ (sprop_sent o.sps s1 ++ sprop_sent o.pps s2),
      rw (sent1, sent2, pushed) refl,
      refl,
      refl,
      refl,
      refl,
      refl,
      (ys, sound),
    )

-- The last piece.
on_video_data-Completes :
    (o : Outside) (s : State) (n : ℕ)
    → s.videoleft ≡ pos n
    → n ≤ length o.received
    → IsPiece o
    → IsParameterSet o.sps
    → IsParameterSet o.pps
    → HasQueue s
    → IsFresh o s.store
    → Completes (stored o o.received s) (on_video_data o s)
unfolding on_video_data
on_video_data-Completes o s n left all (there, v, written) sps pps queue fresh =
    let (s', a, done, streams, there_now, info, file, numbers, kept) =
      download_complete-Completes o (stored o o.received s) sps pps queue fresh in
    let none_left : leb_ℤ (s.videoleft -ℤ pos (length o.received)) (pos 0) ≡ true =
      ground (arith, left, -ℤ_parts s.videoleft (pos (length o.received))) in
    let some_there : (length o.received == 0) ≡ false = ground arith in
    (
      s',
      a,
      rw (written, none_left, some_there, done) refl,
      streams,
      there_now,
      info,
      file,
      numbers,
      kept,
    )

-- The download as a whole.
abbrev pub Downloads : State → Bytes → Option (State × List Action) → Type 0
Downloads s text out =
    (s' : State) × (a : List Action) × (out ≡ some (s', a))
    × (s'.mediastate ≡ stream)
    × (s'.media_downloaded ≡ true)
    × (s'.tinfo ≡ info_live)
    × (s'.video_file ≡ s.video_file ++ text)
    × HasQueue s'

-- A download that arrives in pieces, in which the bytes that were announced end with the last piece,
-- completes without a fault: the server is in the state STREAM with the media there and a thread, the
-- file has what it had and then exactly the pieces in order, and the queue is well formed. Each piece
-- has a byte at least and all of it is written, the parameter sets have 1 to 63988 bytes, and the
-- addresses of malloc are not in use.
pub download-Downloads :
    (os : List Outside) (o : Outside) (s : State) (n : ℕ)
    → s.mediastate ≡ recvtcp
    → s.videoleft ≡ pos n
    → ArePieces os
    → length (pieces os) < n
    → IsPiece o
    → n ≤ length (pieces os) + length o.received
    → IsParameterSet o.sps
    → IsParameterSet o.pps
    → HasQueue s
    → IsFresh o s.store
    → Downloads s (pieces (os ++ (o ∷ []))) (download (os ++ (o ∷ [])) s)
unfolding on_media
download-Downloads [] o s n state left are short is all sps pps queue fresh =
    let (s', a, done, streams, there, info, file, numbers, kept) =
      on_video_data-Completes o s n left (omega (arith, all)) is sps pps queue fresh in
    let last : on_media o s ≡ some (s', a) = ap (λ m. media_branch m o s) state ∙ done in
    (
      s',
      a,
      rw (last, append-nil a) refl,
      streams,
      there,
      info,
      rw (append-nil o.received) file,
      kept,
    )
download-Downloads (p ∷ os) o s n state left (is_p, are) short is all sps pps queue fresh =
    let sizes = length-append p.received (pieces os) in
    let s1 : State = record s {
      video_file = s.video_file ++ p.received;
      videoleft = pos (n - length p.received);
    } in
    let first : on_media p s ≡ some (s1, []) =
      ap (λ m. media_branch m p s) state
      ∙ on_video_data-piece p s n left (omega (arith, sizes, short)) is_p in
    let (s', a, done, streams, there, info, file, kept) =
      download-Downloads os o s1 (n - length p.received) state refl are
        (omega (arith, sizes, short)) is (omega (arith, sizes, all)) sps pps queue fresh in
    (
      s',
      a,
      rw (first, done) refl,
      streams,
      there,
      info,
      file ∙ append_assoc s.video_file p.received (pieces (os ++ (o ∷ []))),
      kept,
    )
