-- ===== src/Frame.antt =====
-- `struct frame` of parse_video.h, with its data buffer.
use http2rtsp.Prelude.{ℕ, List}

-- `VIDEO_FRAME` and `AUDIO_FRAME`
pub data FrameType : Type 0 where
  video_frame audio_frame : FrameType

-- `data` points to a buffer of `size` bytes of its own, so the bytes stand for the two fields.
pub record Frame : Type 0 where
  pub bytes : List ℕ
  pub timestamp : ℕ
  pub frametype : FrameType
