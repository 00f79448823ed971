-- ===== src/Sip/Clients/Audio.antt =====
-- An audio frame for the SIP clients.
use http2rtsp.Prelude.{
  ℕ, suc, ◌+◌, ◌≤◌, ◌≡◌, true, false, none, some, List, [], ◌∷◌, ◌++◌, refl, ap, arith, ltb, length,
  Bool-cases, inl, inr,
}
use http2rtsp.Frame.{Frame}
use http2rtsp.Rtp.{bufsize, markedsecondbyte_pcma, rtp_header, send_audio_frame, u16}
use http2rtsp.Text.{Bytes}
use http2rtsp.Sip.Clients.{Slots, send_audio}

-- The packets that the clients with an ACK are to get: the frame behind a header with the next number.
abbrev pub audio_for : Frame → Slots → ℕ → List (ℕ × List Bytes)
audio_for frame [] seqnum = []
audio_for frame (none ∷ slots) seqnum = audio_for frame slots seqnum
audio_for frame (some c ∷ slots) seqnum = elim c.ackrecvd [
  | true ↦
      (c.sockfd, (rtp_header markedsecondbyte_pcma seqnum frame.timestamp ++ frame.bytes) ∷ [])
      ∷ audio_for frame slots (u16 (seqnum + 1))
  | false ↦ audio_for frame slots seqnum
]

abbrev pub listeners : Slots → ℕ
listeners [] = 0
listeners (none ∷ slots) = listeners slots
listeners (some c ∷ slots) = elim c.ackrecvd [
  | true ↦ suc (listeners slots)
  | false ↦ listeners slots
]

-- A frame that fits the buffer goes to each client that sent its ACK and to no other, each time with
-- the next number of the one sequence that all clients share.
pub send_audio-audio_for :
    (frame : Frame) (slots : Slots) (seqnum : ℕ)
    → length frame.bytes + 12 ≤ bufsize
    → (after : ℕ) × (send_audio frame slots seqnum ≡ some (audio_for frame slots seqnum, after))
      × (u16 after ≡ u16 (seqnum + listeners slots))
unfolding send_audio send_audio_frame
send_audio-audio_for frame [] seqnum fits = (seqnum, refl, ap u16 (omega arith))
send_audio-audio_for frame (none ∷ slots) seqnum fits = send_audio-audio_for frame slots seqnum fits
send_audio-audio_for frame (some c ∷ slots) seqnum fits = elim (Bool-cases c.ackrecvd) [
  | inr waits ↦ rw waits (send_audio-audio_for frame slots seqnum fits)
  | inl listens ↦
      let (after, e, f) = send_audio-audio_for frame slots (u16 (seqnum + 1)) fits in
      let small : ltb bufsize (length frame.bytes + 12) ≡ false = ground arith in
      (after, rw (listens, small, e) refl, rw listens (omega (arith, f)))
]
