-- ===== src/Session/Memory/Teardown.antt =====
-- What a TEARDOWN frees.
use http2rtsp.Prelude.{
  ◌≡◌, refl, ap, ◌>>=◌, false, some, none, List, [], ◌∷◌, ◌==◌, arith, if◌then◌else◌,
}
use http2rtsp.Prelude.Int.{ℤ}
use http2rtsp.Queue.{Ptr}
use http2rtsp.Queue.Chain.{count}
use http2rtsp.Queue.Clear.{frames_of, empty_queue-without}
use http2rtsp.Queue.Grow.{IsSound}
use http2rtsp.Rtsp.{noclient, rtsp_teardown}
use http2rtsp.Session.{
  ThreadInfo, info_live, info_freed, answered, closed, thread_cancelled, context_closed, State,
  Outside, init_client,
}
use http2rtsp.Session.Requests.{on_teardown, reset_state, free_info, teardown_actions}

-- A TEARDOWN of a session with a queue thread ends without a fault. It cancels the thread, answers,
-- closes the socket of the request, the descriptors in the four places of the media and the context, in
-- this order. It leaves no client and an empty queue; the events that were in the queue and the frames
-- that they own are freed, with the record of the thread, and all other events and frames stay.
pub on_teardown-frees :
    (o : Outside) (i : ℤ) (s : State) (xs : List Ptr)
    → IsSound s.store s.queue xs
    → s.tinfo ≡ info_live
    → (s' : State) × (on_teardown o i s
        ≡ some (
          s',
          thread_cancelled
              ∷ answered (rtsp_teardown s.rtspmsg)
              ∷ closed i
              ∷ closed s.client.videofd_rtp
              ∷ closed s.client.videofd_rtcp
              ∷ closed s.client.audiofd_rtp
              ∷ closed s.client.audiofd_rtcp
              ∷ context_closed
              ∷ [],
        ))
      × (s'.client ≡ record init_client { state = noclient })
      × (s'.tinfo ≡ info_freed)
      × IsSound s'.store s'.queue []
      × ((p : Ptr) → s'.store.live p ≡ (if count p xs == 0 then s.store.live p else false))
      × ((p : Ptr)
          → s'.store.frames p
            ≡ (if count p (frames_of s.store xs) == 0 then s.store.frames p else none))
unfolding on_teardown
on_teardown-frees o i s xs v live =
    let (q', h', emptied, z, lives, there) =
      empty_queue-without s.store s.queue xs v.queue v.owns in
    (
      reset_state o info_freed q' h' s,
      rw emptied (
          ap
            (λ (t : ThreadInfo).
              free_info t >>= λ tinfo. some (reset_state o tinfo q' h' s, teardown_actions i s))
            live),
      refl,
      refl,
      record {
        queue = z;
        owns = record { once = λ a. omega arith; there = λ a i. absurd (omega arith) };
      },
      lives,
      there,
    )
