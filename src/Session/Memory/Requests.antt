-- ===== src/Session/Memory/Requests.antt =====
-- The branches of the RTSP client and of a new connection.
use http2rtsp.Prelude.{
  ℕ, ◌≡◌, ◌≢◌, refl, ◌∙◌, true, false, Option, ◌>>=◌, List, [], ◌∷◌, arith, ◌==◌, Every, Every->>=,
  Every-then, Every-if, if◌then◌else◌, suc, ltb,
}
use http2rtsp.Prelude.Int.{ℤ}
use http2rtsp.Queue.{Ptr, null}
use http2rtsp.Queue.Clear.{empty_queue-without}
use http2rtsp.Text.{Bytes, c_string}
use http2rtsp.Rtp.{checked_video_frame}
use http2rtsp.Rtsp.{
  RtspType, options, describe, setup, play, teardown, ClientState, noclient, cliconnected, sdpsent,
  setupcomplete, streaming, parse_rtsp,
}
use http2rtsp.Rtsp.Url.{http_get}
use http2rtsp.Session.{Program, Action, State, Outside, accepted_state, on_connection}
use http2rtsp.Session.Requests.{
  on_bytes, on_receive, on_teardown, free_info, maybe_teardown, on_describe, on_setup, answer_setup,
  create_sprop_frame, send_sprop, push_check, start_stream, on_play, on_request, on_client,
}
use http2rtsp.Session.Memory.{HasQueue, HasQueueThen, Keeps, IsFresh, GrowsState, push_check-Grows}

-- The state of before a call of `malloc`.
abbrev pub Ready : Outside → State → Type 0
Ready o s = HasQueue s × IsFresh o s.store

abbrev pub ReadyThen : Outside → State × List Action → Type 0
ReadyThen o (s, a) = Ready o s

pub Ready-Keeps :
    (o : Outside) (s s' : State) (a : List Action) → Ready o s → Keeps s (s', a) → Ready o s'
Ready-Keeps o s s' a ((xs, v), fresh) (same_q, same_h) =
    ((xs, rw (same_q, same_h) v), rw same_h fresh)

on_bytes-Ready :
    (o : Outside) (text : Bytes) (i : ℤ) (s : State)
    → Ready o s
    → Every (ReadyThen o) (on_bytes text i s)
on_bytes-Ready o [] i s ready = ready
on_bytes-Ready o (c ∷ text) i s ready =
    Every-then (ReadyThen o) (parse_rtsp (c_string (c ∷ text))) _ (λ r. ready)

-- A TEARDOWN leaves the empty queue.
on_teardown-Ready :
    (o : Outside) (i : ℤ) (s : State) → Ready o s → Every (ReadyThen o) (on_teardown o i s)
unfolding on_teardown
on_teardown-Ready o i s ((xs, v), fresh) =
    let (q', h', emptied, z, lives, there) =
      empty_queue-without s.store s.queue xs v.queue v.owns in
    rw emptied (
      Every-then (ReadyThen o) (free_info s.tinfo) _ (λ tinfo. (
        (
          [],
          record {
            queue = z;
            owns = record { once = λ a. omega arith; there = λ a i. absurd (omega arith) };
          },
        ),
        record {
          unused1 = ground (arith, lives o.event1, fresh.unused1);
          unused2 = ground (arith, lives o.event2, fresh.unused2);
          given1 = fresh.given1;
          given2 = fresh.given2;
          two = fresh.two;
        },
      )))

maybe_teardown-Ready :
    (type : RtspType) (o : Outside) (i : ℤ) (s : State)
    → Ready o s
    → Every (ReadyThen o) (maybe_teardown type o i s)
maybe_teardown-Ready teardown o i s ready = on_teardown-Ready o i s ready
maybe_teardown-Ready options o i s ready = ready
maybe_teardown-Ready describe o i s ready = ready
maybe_teardown-Ready setup o i s ready = ready
maybe_teardown-Ready play o i s ready = ready
maybe_teardown-Ready RtspType.ok o i s ready = ready

on_describe-HasQueue : (o : Outside) (s : State) → HasQueue s → Every HasQueueThen (on_describe o s)
unfolding on_describe
on_describe-HasQueue o s v =
    Every-if HasQueueThen s.media_downloaded _ _ v
      (Every-then HasQueueThen (http_get o.url) _ (λ get. v))

on_setup-HasQueue :
    (program : Program) (o : Outside) (s : State)
    → HasQueue s
    → Every HasQueueThen (on_setup program o s)
unfolding on_setup
on_setup-HasQueue program o s v =
    Every-if HasQueueThen (ltb (suc s.client.setupsreceived) 2) _ _
      (Every-then HasQueueThen (answer_setup o _ _ s _) _ (λ (c, text). v))
      (Every-then HasQueueThen (answer_setup o _ _ s _) _ (λ (c, text). v))

pub send_sprop-Keeps : (o : Outside) (ps : Bytes) (s : State) → Every (Keeps s) (send_sprop o ps s)
send_sprop-Keeps o ps s =
    Every-then (Keeps s) (checked_video_frame o.beyond (create_sprop_frame ps 0) s.rtpseqno_video) _
      (λ sent. (refl, refl))

-- One more event, and what follows.
pub one_check :
    (event : Ptr) (o : Outside) (ms : ℕ) (s : State) (g : State → Option (State × List Action))
    → HasQueue s
    → s.store.live event ≡ false
    → event ≢ null
    → ((s' : State)
        → HasQueue s'
        → ((a : Ptr) → s'.store.live a ≡ (if a == event then true else s.store.live a))
        → Every HasQueueThen (g s'))
    → Every HasQueueThen (push_check event o ms s >>= g)
one_check event o ms s g (xs, v) fresh given next =
    Every->>= (GrowsState s.store event xs) HasQueueThen (push_check event o ms s) g
      (push_check-Grows event o ms s xs v fresh given)
      (λ s' (ys, sound, lives, out). next s' (ys, sound) lives)

start_stream-HasQueue :
    (o : Outside) (s : State) → Ready o s → Every HasQueueThen (start_stream o s)
unfolding start_stream
start_stream-HasQueue o s ready =
    Every->>= (Keeps s) HasQueueThen (send_sprop o o.sps (record s { tinfo = _ })) _
      (send_sprop-Keeps o o.sps (record s { tinfo = _ }))
      (λ (s1, a1) k1.
        Every->>= (Keeps s1) HasQueueThen (send_sprop o o.pps s1) _ (send_sprop-Keeps o o.pps s1)
          (λ (s2, a2) k2.
            let (v, fresh) = Ready-Keeps o s1 s2 a2 (Ready-Keeps o s s1 a1 ready k1) k2 in
            one_check o.event1 o 100 s2 _ v fresh.unused1 fresh.given1 (λ s3 v3 lives.
              one_check o.event2 o 2000 s3 _ v3
                (lives o.event2 ∙ ground (arith, fresh.two, fresh.unused2)) fresh.given2
                (λ s4 v4 lives4. v4))))

on_play-HasQueue : (o : Outside) (s : State) → Ready o s → Every HasQueueThen (on_play o s)
unfolding on_play
on_play-HasQueue o s ready =
    Every-if HasQueueThen s.media_downloaded _ _
      (Every->>= HasQueueThen HasQueueThen (start_stream o s) _ (start_stream-HasQueue o s ready)
        (λ r v. v))
      (one_check o.event1 o 100 s _ ready.0 ready.1.unused1 ready.1.given1 (λ s' v' lives. v'))

on_request-HasQueue :
    (program : Program) (o : Outside) (state : ClientState) (type : RtspType) (s : State)
    → Ready o s
    → Every HasQueueThen (on_request program o state type s)
unfolding on_request
on_request-HasQueue program o cliconnected options s (v, fresh) = v
on_request-HasQueue program o cliconnected describe s (v, fresh) = on_describe-HasQueue o s v
on_request-HasQueue program o sdpsent setup s (v, fresh) = on_setup-HasQueue program o s v
on_request-HasQueue program o setupcomplete play s ready = on_play-HasQueue o s ready
on_request-HasQueue program o state type s (v, fresh) = v

pub on_client-HasQueue :
    (program : Program) (o : Outside) (i : ℤ) (s : State)
    → HasQueue s
    → IsFresh o s.store
    → Every HasQueueThen (on_client program o i s)
unfolding on_client on_receive
on_client-HasQueue program o i s v fresh =
    Every->>= (ReadyThen o) HasQueueThen (on_receive o i s) _
      (on_bytes-Ready o o.received i s (v, fresh))
      (λ (s1, a1) ready1.
        Every->>= (ReadyThen o) HasQueueThen (maybe_teardown s1.rtspmsg.type o i s1) _
          (maybe_teardown-Ready s1.rtspmsg.type o i s1 ready1)
          (λ (s2, a2) ready2.
            Every->>= HasQueueThen HasQueueThen
              (on_request program o s2.client.state s2.rtspmsg.type s2) _
              (on_request-HasQueue program o s2.client.state s2.rtspmsg.type s2 ready2) (λ r v. v)))

accepted_state-HasQueue :
    (state : ClientState) (fd : ℤ) (s : State)
    → HasQueue s
    → HasQueueThen (accepted_state state fd s)
accepted_state-HasQueue noclient fd s v = v
accepted_state-HasQueue cliconnected fd s v = v
accepted_state-HasQueue sdpsent fd s v = v
accepted_state-HasQueue setupcomplete fd s v = v
accepted_state-HasQueue streaming fd s v = v

pub on_connection-HasQueue : (fd : ℤ) (s : State) → HasQueue s → HasQueueThen (on_connection fd s)
unfolding on_connection
on_connection-HasQueue fd s v = accepted_state-HasQueue s.client.state fd s v
