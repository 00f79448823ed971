-- ===== src/Video.antt =====
-- parse_video.c: the choice of the streams, the parameter sets in the SDP, and the next frame. FFmpeg
-- and GLib are parameters: what a call of theirs gives is an argument.
pub mod Choice
use http2rtsp.Prelude.{
  ℕ, suc, ◌-◌, Bool, false, Option, none, some, ◌>>=◌, List, [], ◌∷◌, ◌==◌, if◌then◌else◌, length,
  take, drop,
}
use http2rtsp.Prelude.Int.{ℤ, pos, negsuc}
use http2rtsp.Text.{Bytes, codes, crlf, strstr}
use http2rtsp.Rtsp.Url.{strchr}

-- `codec_type`
pub data CodecType : Type 0 where
  video_codec audio_codec other_codec : CodecType

abbrev pub video_stream : CodecType → ℕ → ℤ → ℤ
video_stream video_codec i found = pos i
video_stream audio_codec i found = found
video_stream other_codec i found = found

abbrev pub audio_stream : CodecType → ℕ → ℤ → ℤ
audio_stream audio_codec i found = pos i
audio_stream video_codec i found = found
audio_stream other_codec i found = found

-- The loop over the streams from the `i`-th on: `videoStream` and `audioStream`.
unfoldable pub pick_streams : ℕ → List CodecType → ℤ → ℤ → ℤ × ℤ
pick_streams i [] video audio = (video, audio)
pick_streams i (c ∷ streams) video audio =
    pick_streams (suc i) streams (video_stream c i video) (audio_stream c i audio)

-- The two indices that `initialize_context` stores, -1 for a stream that is not there.
unfoldable pub stream_indices : List CodecType → ℤ × ℤ
unfolding pick_streams
stream_indices streams = pick_streams 0 streams (negsuc 0) (negsuc 0)

-- The texts between the name, the comma and the line end; `none` is the exit with an error. `decode`
-- is `g_base64_decode`.
unfoldable pub sprop_sets : (Bytes → Bytes) → Bytes → Option (Bytes × Bytes)
sprop_sets decode sdp = strstr (codes "sprop-parameter-sets=") sdp >>= λ tempstr.
    strchr 44 tempstr >>= λ comma. strstr crlf comma >>= λ end. some (
      decode (drop 21 (take (length tempstr - length comma) tempstr)),
      decode (drop 1 (take (length comma - length end) comma)),
    )

-- A packet of `av_read_frame`; `timestamp` is `(int)round(pts * time_base * 90000)`.
pub record Packet : Type 0 where
  pub stream_index : ℕ
  pub payload : Bytes
  pub timestamp : ℕ

-- What the two codecs make of an audio packet: one of them is missing or cannot be opened, the bytes,
-- or a negative length.
pub data Transcoded : Type 0 where
  unsupported : Transcoded
  encoded : Bytes → Transcoded
  encode_failed : Transcoded

-- -1, or the index of the stream with the fields of the frame, which are not set for other streams.
pub data Got : Type 0 where
  no_frame : Got
  got : ℕ → Option (Bytes × ℕ) → Got

abbrev pub is_index : ℤ → ℕ → Bool
is_index (pos n) i = n == i
is_index (negsuc n) i = false

abbrev pub audio_result : Packet → Transcoded → Option Got
audio_result p unsupported = some no_frame
audio_result p (encoded bytes) = some (got p.stream_index (some (bytes, p.timestamp)))
audio_result p encode_failed = none

-- `none` is a copy of a negative length.
unfoldable pub get_frame : (Bytes → Transcoded) → ℤ → ℤ → Option Packet → Option Got
get_frame transcode video_idx audio_idx none = some no_frame
get_frame transcode video_idx audio_idx (some p) =
    if is_index video_idx p.stream_index
    then some (got p.stream_index (some (p.payload, p.timestamp)))
    else if is_index audio_idx p.stream_index
    then audio_result p (transcode p.payload)
    else some (got p.stream_index none)
