-- ===== src/Tests/SystemTests.antt =====
-- A server that takes a connection, and the first frame of its queue thread.
use http2rtsp.Prelude.{ℕ, ◌≡◌, refl, false, Option, none, some, [], ◌∷◌, arith}
use http2rtsp.Prelude.Int.{ℤ, pos, ◌+ℤ◌}
use http2rtsp.Time.{Timeval, set_timeval}
use http2rtsp.Queue.{Store, frame_event, new_event, push_event}
use http2rtsp.Rtsp.{zero_msg}
use http2rtsp.Sip
use http2rtsp.Video.{got}
use http2rtsp.Session.{server, first_state, init_client, on_connection}
use http2rtsp.Session.Filler.{Supply, Filling, fill_one, fill_frame, set_base}
use http2rtsp.Session.System.{
  World, no_clients, new_filler, filling, filled, session, with_state, start, later, connection,
  wake, fill,
}
use http2rtsp.Session.Memory.Filling.{FillingHasQueue, fill_one-Returns}
use http2rtsp.Session.System.Safety.{start_empty, IsWorld, Reach-IsWorld}

abbrev pub noon : Timeval
noon = record { tv_sec = pos 43200; tv_usec = pos 0 }

abbrev pub empty_store : Store
empty_store = record {
  live = λ p. false;
  next = λ p. 0;
  prev = λ p. 0;
  time = λ p. noon;
  type = λ p. frame_event;
  frame = λ p. 0;
  frames = λ p. none;
}

abbrev add_ticks : ℤ → ℕ → ℤ
add_ticks usec ticks = usec +ℤ pos ticks

abbrev supply : Supply
supply = record {
  next_frame = got 0 (some (1 ∷ 2 ∷ [], 90000));
  frame_address = 8;
  event_address = 5;
}

abbrev world0 : World
world0 = record {
  theatre = record {
    session = first_state zero_msg (pos 0) (pos 0) 3 4 empty_store;
    sip = no_clients;
    sipmsg = Sip.zero_msg;
  };
  filler = new_filler;
}

abbrev world1 : World
world1 = with_state world0 (on_connection (pos 7) (session world0)).0

abbrev world2 : World
world2 = record world1 { filler = set_base noon world1.filler }

abbrev value_or : Filling → Option Filling → Filling
value_or d none = d
value_or d (some f) = f

abbrev world3 : World
world3 =
    filled world2 (value_or (filling world2) (fill_one add_ticks (pos 0) supply (filling world2)))

one_frame : world3.theatre.session.queue ≡ record { first = 5; last = 5; size = pos 1 }
unfolding on_connection first_state init_client set_base fill_one fill_frame set_timeval new_event
    push_event new_filler ◌+ℤ◌
one_frame = refl

Reach-IsWorld_example : IsWorld world3
unfolding on_connection first_state init_client set_base fill_one fill_frame set_timeval new_event
    push_event new_filler
Reach-IsWorld_example = Reach-IsWorld server add_ticks (pos 0) world3 (
    later
      (later
        (later (start zero_msg Sip.zero_msg (pos 0) (pos 0) 3 4 empty_store) (connection (pos 7)))
        (wake noon))
      (fill supply
        (record { unused = refl; given = λ e. absurd (omega (arith, e)); unused_frame = refl }) refl
        refl))

fill_one-Returns_example :
    (s : Filling) × (fill_one add_ticks (pos 0) supply (filling world2) ≡ some s)
    × FillingHasQueue s
unfolding on_connection first_state init_client set_base new_filler
fill_one-Returns_example =
    fill_one-Returns add_ticks (pos 0) supply (filling world2) ([], start_empty empty_store)
      (record { unused = refl; given = λ e. absurd (omega (arith, e)); unused_frame = refl })
      (noon, refl) ((λ e. absurd (omega (arith, e))), (1 ∷ 2 ∷ [], 90000), refl)
