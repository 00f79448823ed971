-- ===== src/Session/System/Safety.antt =====
-- In every world that can be reached the queue is well formed and owns its frames, and the table of SIP
-- clients counts what it holds.
use http2rtsp.Prelude.{ℕ, ◌≡◌, refl, sym, subst, List, [], arith, Every, Every-then, Every-elim}
use http2rtsp.Prelude.Int.{ℤ, pos}
use http2rtsp.Text.{Bytes, c_string}
use http2rtsp.Queue.{null, Store}
use http2rtsp.Queue.Grow.{IsSound}
use http2rtsp.Sip.{SipClient, parsesipmsg}
use http2rtsp.Sip.Clients.Table.{IsTable, on_message-IsTable}
use http2rtsp.Session.{Program, server, mt_server, Action, Outside, first_state}
use http2rtsp.Session.Requests.{on_client}
use http2rtsp.Session.Media.{on_media}
use http2rtsp.Session.Events.{on_event}
use http2rtsp.Session.Filler.{fill_one}
use http2rtsp.Session.Theatre.{Theatre, theatre_timeout, theatre_event, theatre_sip}
use http2rtsp.Session.Memory.{HasQueue, HasQueueThen, IsFresh, IsFresh-same}
use http2rtsp.Session.Memory.Timeout.{
  HasQueueFired, on_timeout-HasQueue, on_event-StillOut, theatre_event-StillOut,
}
use http2rtsp.Session.Memory.Requests.{on_client-HasQueue, on_connection-HasQueue}
use http2rtsp.Session.Memory.Media.{on_media-HasQueue}
use http2rtsp.Session.Memory.Filling.{FillingHasQueue, fill_one-HasQueue}
use http2rtsp.Session.System.{
  World, session, no_clients, filling, serve_timeout, Step, timeout, connection, client, media, sip,
  thread_start, wake, fill, Reach, start, later,
}

serve_timeout-HasQueue :
    (program : Program) (o : Outside) (t : Theatre)
    → HasQueue t.session
    → IsFresh o t.session.store
    → Every HasQueueFired (serve_timeout program o t)
unfolding theatre_timeout
serve_timeout-HasQueue server o t v fresh =
    on_timeout-HasQueue (on_event o) t.session
      (λ event s xs same p.
        on_event-StillOut o event s xs (s.store.type event) refl
          (IsFresh-same o t.session.store s.store same fresh) p)
      v
serve_timeout-HasQueue mt_server o t v fresh =
    on_timeout-HasQueue (theatre_event t.sip.clientlist t.sipmsg o) t.session
      (λ event s xs same p.
        theatre_event-StillOut t.sip.clientlist t.sipmsg o event s xs (s.store.type event) refl
          (IsFresh-same o t.session.store s.store same fresh) p)
      v

-- A SIP message changes the table of the clients, and nothing of the session.
abbrev SipOnly : Theatre → Theatre × List Action → Type 0
SipOnly t (t', a) = (t'.session ≡ t.session) × IsTable t'.sip

theatre_sip-SipOnly :
    (text : Bytes) (cliaddr rtpfd : ℕ) (fresh : SipClient) (t : Theatre)
    → IsTable t.sip
    → Every (SipOnly t) (theatre_sip text cliaddr rtpfd fresh t)
unfolding theatre_sip
theatre_sip-SipOnly text cliaddr rtpfd fresh t table =
    Every-then (SipOnly t) (parsesipmsg (c_string text)) _ (λ (code, msg).
      let (after, reply, done, table') =
        on_message-IsTable msg.type msg cliaddr rtpfd fresh t.sip table in
      rw done (refl, table'))

-- The queue is well formed and owns its frames, and the table counts its clients.
abbrev pub IsWorld : World → Type 0
IsWorld w = HasQueue (session w) × IsTable w.theatre.sip

pub start_empty : (h : Store) → IsSound h (record { first = null; last = null; size = pos 0 }) []
start_empty h = record {
  queue = record {
    forward = refl;
    backward = refl;
    distinct = λ a. omega arith;
    live = λ a i. absurd (omega arith);
    size_is = refl;
  };
  owns = record { once = λ a. omega arith; there = λ a i. absurd (omega arith) };
}

module _ (program : Program) (add_ticks : ℤ → ℕ → ℤ) (video_idx : ℤ) where
  Step-IsWorld : (w w' : World) → IsWorld w → Step program add_ticks video_idx w w' → IsWorld w'
  Step-IsWorld w w' (v, table) (timeout o {fired} fresh done) = (
    Every-elim HasQueueFired (serve_timeout program o w.theatre) fired
        (serve_timeout-HasQueue program o w.theatre v fresh) done,
    table,
  )
  Step-IsWorld w w' (v, table) (connection fd) = (on_connection-HasQueue fd (session w) v, table)
  Step-IsWorld w w' (v, table) (client o i {s} {actions} fresh done) = (
    Every-elim HasQueueThen (on_client program o i (session w)) (s, actions)
        (on_client-HasQueue program o i (session w) v fresh) done,
    table,
  )
  Step-IsWorld w w' (v, table) (media o {s} {actions} fresh done) = (
    Every-elim HasQueueThen (on_media o (session w)) (s, actions)
        (on_media-HasQueue o (session w) v fresh) done,
    table,
  )
  Step-IsWorld w w' (v, table) (sip text cliaddr rtpfd fresh {t} {actions} done) =
      let (same, table') =
        Every-elim (SipOnly w.theatre) (theatre_sip text cliaddr rtpfd fresh w.theatre) (t, actions)
          (theatre_sip-SipOnly text cliaddr rtpfd fresh w.theatre table) done in
      (subst HasQueue (sym same) v, table')
  Step-IsWorld w w' (v, table) thread_start = (v, table)
  Step-IsWorld w w' (v, table) (wake now) = (v, table)
  Step-IsWorld w w' (v, table) (fill supply {f} fresh room done) = (
    Every-elim FillingHasQueue (fill_one add_ticks video_idx supply (filling w)) f
        (fill_one-HasQueue add_ticks video_idx supply (filling w) v fresh) done,
    table,
  )

  -- In every state that the main loop of either server and the queue thread reach from the start, taking
  -- turns in any order with addresses of malloc that are not in use, the queue is a well-formed doubly
  -- linked list of allocated events, each frame of an event is allocated and belongs to that event only,
  -- and the table of ten SIP clients holds as many as nclients counts.
  pub Reach-IsWorld : (w : World) → Reach program add_ticks video_idx w → IsWorld w
  unfolding first_state no_clients
  Reach-IsWorld w (start msg old size left random_video random_audio h) =
      (([], start_empty h), (refl, refl))
  Reach-IsWorld w (later {w = w1} {w' = w2} before step) =
      Step-IsWorld w1 w2 (Reach-IsWorld w1 before) step
