-- ===== src/Session/System.antt =====
-- A server as a whole: the main loop and the queue thread take turns, each branch of the loop and each
-- round of the thread at one go, as the lock makes them.
pub mod Safety
use http2rtsp.Prelude.{ℕ, ◌≡◌, replicate, true, false, Option, none, some, List, []}
use http2rtsp.Prelude.Int.{ℤ, pos}
use http2rtsp.Time.{Timeval}
use http2rtsp.Text.{Bytes}
use http2rtsp.Queue.{Store}
use http2rtsp.Rtsp.{RtspMsg}
use http2rtsp.Sip.{SipMsg, SipClient}
use http2rtsp.Sip.Clients.{SipServer, maxclients}
use http2rtsp.Session.{
  Program, server, mt_server, Action, State, Outside, on_connection, first_state,
}
use http2rtsp.Session.Requests.{on_client}
use http2rtsp.Session.Media.{on_media}
use http2rtsp.Session.Events.{Fired, on_timeout, on_event}
use http2rtsp.Session.Filler.{Filler, Supply, Filling, set_base, fill_one, has_room}
use http2rtsp.Session.Theatre.{Theatre, theatre_timeout, theatre_sip}
use http2rtsp.Session.Memory.{IsFresh}
use http2rtsp.Session.Memory.Filling.{IsFreshSupply}

-- The variables of the loop, those of SIP in mt_server.c only, and of the thread.
pub record World : Type 0 where
  pub theatre : Theatre
  pub filler : Filler

abbrev pub session : World → State
session w = w.theatre.session

abbrev pub with_state : World → State → World
with_state w s = record w { theatre = record w.theatre { session = s } }

-- The thread starts with no time base.
unfoldable pub new_filler : Filler
new_filler = record { basetime = none; prev_timestamp = none; quitflag = false }

-- The table before the loop.
unfoldable pub no_clients : SipServer
no_clients = record { clientlist = replicate maxclients none; nclients = pos 0 }

abbrev pub filling : World → Filling
filling w = record {
  filler = w.filler;
  queue = w.theatre.session.queue;
  store = w.theatre.session.store;
}

abbrev pub filled : World → Filling → World
filled w f = record {
  theatre = record w.theatre {
    session = record w.theatre.session { queue = f.queue; store = f.store };
  };
  filler = f.filler;
}

abbrev pub serve_timeout : Program → Outside → Theatre → Option Fired
serve_timeout server o t = on_timeout (on_event o) t.session
serve_timeout mt_server o t = theatre_timeout o t

module _ (program : Program) (add_ticks : ℤ → ℕ → ℤ) (video_idx : ℤ) where
  -- One turn. The addresses that `malloc` gives are not in use at that time.
  pub data Step (w : World) : World → Type 0 where
    timeout :
        (o : Outside) {fired : Fired}
        → IsFresh o (session w).store
        → serve_timeout program o w.theatre ≡ some fired
        → Step w (with_state w fired.state)
    connection : (fd : ℤ) → Step w (with_state w (on_connection fd (session w)).0)
    client :
        (o : Outside) (i : ℤ) {s : State} {actions : List Action}
        → IsFresh o (session w).store
        → on_client program o i (session w) ≡ some (s, actions)
        → Step w (with_state w s)
    media :
        (o : Outside) {s : State} {actions : List Action}
        → IsFresh o (session w).store
        → on_media o (session w) ≡ some (s, actions)
        → Step w (with_state w s)
    sip :
        (text : Bytes) (cliaddr rtpfd : ℕ) (fresh : SipClient) {t : Theatre} {actions : List Action}
        → theatre_sip text cliaddr rtpfd fresh w.theatre ≡ some (t, actions)
        → Step w (record w { theatre = t })
    thread_start : Step w (record w { filler = new_filler })
    wake : (now : Timeval) → Step w (record w { filler = set_base now w.filler })
    fill :
        (supply : Supply) {f : Filling}
        → IsFreshSupply supply (session w).store
        → has_room (filling w) ≡ true
        → fill_one add_ticks video_idx supply (filling w) ≡ some f
        → Step w (filled w f)

  -- What can be reached from the start.
  pub data Reach : World → Type 0 where
    start :
        (msg : RtspMsg) (old : SipMsg) (size left : ℤ) (random_video random_audio : ℕ) (h : Store)
        → Reach (record {
          theatre = record {
            session = first_state msg size left random_video random_audio h;
            sip = no_clients;
            sipmsg = old;
          };
          filler = new_filler;
        })
    later : {w w' : World} → Reach w → Step w w' → Reach w'
