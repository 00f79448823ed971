-- ===== src/Session/Filler.antt =====
-- The thread `fill_queue` of server.c: it fills the queue with frames, a round at a time under the
-- lock. The main loop may take its turns between two rounds, as Session/System has them.
use http2rtsp.Prelude.{ℕ, Bool, true, false, Option, none, some, ◌>>=◌, if◌then◌else◌, ◌==◌}
use http2rtsp.Prelude.Int.{ℤ, pos, ◌+ℤ◌, ltb_ℤ}
use http2rtsp.Frame.{Frame, FrameType, video_frame, audio_frame}
use http2rtsp.Time.{Timeval, set_timeval}
use http2rtsp.Queue.{
  Ptr, null, Store, Queue, frame_event, end_of_stream, queuesize, update, new_event, push_event,
}
use http2rtsp.Text.{Bytes}
use http2rtsp.Video.{Got, no_frame, got, is_index}

-- The variables of the thread: `none` for a time that is not set yet.
pub record Filler : Type 0 where
  pub basetime : Option Timeval
  pub prev_timestamp : Option Timeval
  pub quitflag : Bool

-- What a round gets: the frame, and the addresses that `malloc` returns for a frame and an event.
pub record Supply : Type 0 where
  pub next_frame : Got
  pub frame_address : Ptr
  pub event_address : Ptr

-- The thread with the queue that it shares.
pub record Filling : Type 0 where
  pub filler : Filler
  pub queue : Queue
  pub store : Store

-- The first wake-up sets the time base.
unfoldable pub set_base : Timeval → Filler → Filler
set_base now f = elim f.basetime [ none ↦ record f { basetime = some now } | some base ↦ f ]

-- An event for the end, ten microseconds behind the last frame; `none` if there was no frame, since
-- the time is not set then.
abbrev pub after_last : Timeval → Timeval
after_last t = record t { tv_usec = t.tv_usec +ℤ pos 10 }

unfoldable pub fill_end : Supply → Filling → Option Filling
fill_end supply s = s.filler.prev_timestamp >>= λ prev.
    new_event supply.event_address (after_last prev) end_of_stream null s.store
    >>= push_event supply.event_address s.queue
    >>= λ (q, h).
        some (record { filler = record s.filler { quitflag = true }; queue = q; store = h })

-- The new frame in memory, at the address that `malloc` gave.
abbrev pub store_frame : Ptr → Frame → Store → Store
store_frame p frame h = record h { frames = update h.frames p (some frame) }

-- `none` if `malloc` gave NULL, which get_frame writes through.
abbrev pub new_frame : Ptr → Frame → Store → Option Store
new_frame p frame h = if p == null then none else some (store_frame p frame h)

-- An event for a frame, at its time; `add_ticks` is the floating point sum of `set_timeval`.
unfoldable pub fill_frame : (ℤ → ℕ → ℤ) → Supply → FrameType → Bytes × ℕ → Filling → Option Filling
fill_frame add_ticks supply frametype fields s = s.filler.basetime >>= λ base.
    (let time = set_timeval add_ticks base fields.1 in
      let frame : Frame = record {
        bytes = fields.0;
        timestamp = fields.1;
        frametype = frametype;
      } in
      new_frame supply.frame_address frame s.store
      >>= new_event supply.event_address time frame_event supply.frame_address
      >>= push_event supply.event_address s.queue
      >>= λ (q, h). some (record {
        filler = record s.filler { prev_timestamp = some time };
        queue = q;
        store = h;
      }))

abbrev pub frametype_of : ℤ → ℕ → FrameType
frametype_of video_idx index = if is_index video_idx index then video_frame else audio_frame

-- One round under the lock; `none` also for a frame whose fields are not set.
abbrev pub fill_got : (ℤ → ℕ → ℤ) → ℤ → Supply → Filling → Got → Option Filling
fill_got add_ticks video_idx supply s no_frame = fill_end supply s
fill_got add_ticks video_idx supply s (got index fields) =
    fields >>= λ f. fill_frame add_ticks supply (frametype_of video_idx index) f s

unfoldable pub fill_one : (ℤ → ℕ → ℤ) → ℤ → Supply → Filling → Option Filling
fill_one add_ticks video_idx supply s = fill_got add_ticks video_idx supply s supply.next_frame

-- The test of the inner loop, which is made before every round.
abbrev pub has_room : Filling → Bool
has_room s = if s.filler.quitflag then false else ltb_ℤ s.queue.size (pos queuesize)
