-- ===== src/Session/Rounds/Runs.antt =====
-- Runs of a server: rounds of the main loop, and turns of the queue thread between them.
use http2rtsp.Prelude.{ℕ, suc, ◌<◌, ◌≡◌, true, false, some, length}
use http2rtsp.Prelude.Int.{ℤ, pos_part}
use http2rtsp.Time.{Timeval}
use http2rtsp.Queue.{Store}
use http2rtsp.Rtsp.{RtspMsg}
use http2rtsp.Sip.{SipMsg}
use http2rtsp.Session.{Program, Outside, first_state}
use http2rtsp.Session.Memory.{IsFresh}
use http2rtsp.Session.Memory.Filling.{IsFreshSupply}
use http2rtsp.Session.Filler.{Supply, Filling, set_base, fill_one, has_room}
use http2rtsp.Session.System.{World, session, no_clients, new_filler, filling, filled}
use http2rtsp.Session.Dispatch.{Watch, Loop, Given, first_watch}
use http2rtsp.Session.Dispatch.Order.{ready_list}
use http2rtsp.Session.Dispatch.Turns.{AreFresh}
use http2rtsp.Session.Rounds.{Selected, interrupted, timed_out, reported, Round, one_round}

-- What `select` promises: it reports as many descriptors as it leaves, one at least, up to `maxfd`.
-- With an interruption nothing is ready, and descriptor 0 belongs to the standard input.
abbrev pub IsReport : Selected → Watch → Type 0
IsReport interrupted w = w.masterfds 0 ≡ false
IsReport timed_out w = Unit
IsReport (reported readfds n) w =
    (n ≡ length (ready_list readfds 0 (suc (pos_part w.maxfd)))) × (0 < n)

module _ (program : Program) (listenfd siplistenfd : ℕ) where
  -- The addresses that `malloc` gives are not in use at that time.
  abbrev pub IsFreshFor : Selected → Outside → (ℕ → Given) → Loop → Type 0
  IsFreshFor interrupted o given l = Unit
  IsFreshFor timed_out o given l = IsFresh o l.theatre.session.store
  IsFreshFor (reported readfds n) o given l =
      AreFresh program listenfd siplistenfd given
        (ready_list readfds 0 (suc (pos_part l.watch.maxfd))) l

module _ (program : Program) (listenfd siplistenfd : ℕ) (add_ticks : ℤ → ℕ → ℤ)
    (video_idx : ℤ) where
  -- A turn of the queue thread.
  pub data ThreadStep (w : World) : World → Type 0 where
    thread_begins : ThreadStep w (record w { filler = new_filler })
    woken : (now : Timeval) → ThreadStep w (record w { filler = set_base now w.filler })
    filled_one :
        (supply : Supply) {f : Filling}
        → IsFreshSupply supply (session w).store
        → has_room (filling w) ≡ true
        → fill_one add_ticks video_idx supply (filling w) ≡ some f
        → ThreadStep w (filled w f)

  -- What the main loop and the thread come to, with the set that is watched.
  pub data Runs : World → Watch → Type 0 where
    begin :
        (msg : RtspMsg) (old : SipMsg) (size left : ℤ) (random_video random_audio : ℕ) (h : Store)
        → Runs
            (record {
              theatre = record {
                session = first_state msg size left random_video random_audio h;
                sip = no_clients;
                sipmsg = old;
              };
              filler = new_filler;
            })
            (first_watch program listenfd siplistenfd)
    round :
        {w : World} {watch : Watch} (selected : Selected) (o : Outside) (given : ℕ → Given)
        (now : Timeval) {r : Round}
        → Runs w watch
        → IsReport selected watch
        → IsFreshFor program listenfd siplistenfd selected o given
            (record { theatre = w.theatre; watch = watch })
        → one_round program listenfd siplistenfd selected o given now
            (record { theatre = w.theatre; watch = watch })
          ≡ some r
        → Runs (record w { theatre = r.loop.theatre }) r.loop.watch
    thread : {w w' : World} {watch : Watch} → Runs w watch → ThreadStep w w' → Runs w' watch
