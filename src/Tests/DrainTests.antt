-- ===== src/Tests/DrainTests.antt =====
-- Two frames of a queue, sent and freed.
use http2rtsp.Prelude.{
  ◌≡◌, refl, subst, none, some, List, [], ◌∷◌, arith, ◌==◌, if◌then◌else◌, ◌||◌, Bool-cases, inl,
  inr,
}
use http2rtsp.Prelude.Int.{pos}
use http2rtsp.Frame.{Frame, video_frame, audio_frame}
use http2rtsp.Queue.{Store, frame_event}
use http2rtsp.Queue.Grow.{IsSound}
use http2rtsp.Session.{Action, State, Outside}
use http2rtsp.Session.Events.{Fired, on_timeout, on_event}
use http2rtsp.Session.Memory.{HasQueue}
use http2rtsp.Session.Memory.Returns.{FitsType, CanSend, on_timeout-Returns}
use http2rtsp.Session.Drain.{serve_timeouts, send_each}
use http2rtsp.Session.Drain.Emptied.{Left, serve_timeouts-send_each}
use http2rtsp.Tests.SessionTests.{outside, streaming_state, midnight}

abbrev picture : Frame
picture = record { bytes = 0 ∷ 0 ∷ 0 ∷ 1 ∷ 0x65 ∷ []; timestamp = 90000; frametype = video_frame }

abbrev sound : Frame
sound = record { bytes = 7 ∷ 8 ∷ []; timestamp = 160; frametype = audio_frame }

-- The event at 8 owns the frame at 80, that at 16 the frame at 160.
abbrev memory : Store
memory = record {
  live = λ a. a == 8 || a == 16;
  next = λ a. if a == 8 then 16 else 0;
  prev = λ a. if a == 16 then 8 else 0;
  time = λ a. midnight;
  type = λ a. frame_event;
  frame = λ a. if a == 8 then 80 else 160;
  frames = λ a. if a == 80 then some picture else if a == 160 then some sound else none;
}

abbrev two_frames : State
two_frames = record streaming_state {
  queue = record { first = 8; last = 16; size = pos 2 };
  store = memory;
}

two_frames-IsSound : IsSound memory two_frames.queue (8 ∷ 16 ∷ [])
two_frames-IsSound = record {
  queue = record {
    forward = (refl, (refl, refl));
    backward = (refl, (refl, refl));
    distinct = λ a. ground arith;
    live = λ a i. ground arith;
    size_is = refl;
  };
  owns = record {
    once = λ a. ground arith;
    there = λ a i. elim (Bool-cases (a == 80)) [
      | inl first ↦ (picture, rw first refl)
      | inr second ↦ (sound, ground (arith, i, second))
    ];
  };
}

abbrev jobs : List (Outside × Frame)
jobs = (outside, picture) ∷ (outside, sound) ∷ []

two_frames-CanSend : CanSend memory (8 ∷ 16 ∷ [])
two_frames-CanSend event f here type there = elim (Bool-cases (event == 8)) [
  | inl first ↦
      let taken : some picture ≡ some f = rw first at there in
      let same : picture ≡ f = cc in
      subst (λ g. FitsType g.frametype g) same (omega arith, omega arith, omega arith)
  | inr second ↦
      let taken : some sound ≡ some f = rw second at there in
      let same : sound ≡ f = cc in subst (λ g. FitsType g.frametype g) same (omega arith)
]

serve_timeouts-send_each_example :
    (s1 s2 : State) × (actions : List Action) × (send_each jobs two_frames ≡ some (s1, actions))
    × (serve_timeouts (outside ∷ outside ∷ []) two_frames ≡ some (s2, actions))
    × Left memory (8 ∷ 16 ∷ []) s2
serve_timeouts-send_each_example =
    serve_timeouts-send_each jobs (8 ∷ 16 ∷ []) two_frames two_frames-IsSound (omega arith)
      (refl, refl, (omega arith, omega arith, omega arith), (refl, refl, omega arith, tt))

-- The same queue, with one timeout.
on_timeout-Returns_example :
    (fired : Fired) × (on_timeout (on_event outside) two_frames ≡ some fired) × HasQueue fired.state
on_timeout-Returns_example =
    on_timeout-Returns outside two_frames (8 ∷ 16 ∷ []) two_frames-IsSound
      (record {
        unused1 = refl;
        unused2 = refl;
        given1 = λ e. absurd (omega (arith, e));
        given2 = λ e. absurd (omega (arith, e));
        two = λ e. absurd (omega (arith, e));
      })
      (omega arith) two_frames-CanSend
