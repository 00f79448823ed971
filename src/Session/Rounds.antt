-- ===== src/Session/Rounds.antt =====
-- The body of the main loops of server.c and mt_server.c as a whole: what `select` gives, the branch of
-- the timeouts or the loop over the descriptors, and the timeout of the next `select`.
pub mod Runs
pub mod Sound
use http2rtsp.Prelude.{ℕ, Bool, Option, some, ◌>>=◌, List}
use http2rtsp.Prelude.Int.{pos, negsuc}
use http2rtsp.Time.{Timeval}
use http2rtsp.Session.{Program, Action, Outside}
use http2rtsp.Session.Events.{next_timeout}
use http2rtsp.Session.System.{serve_timeout}
use http2rtsp.Session.Dispatch.{fd_setsize, Loop, Given, for_loop}

-- What `Select` returns: -1, 0, or the number of the descriptors that it leaves in `readfds`.
pub data Selected : Type 0 where
  interrupted timed_out : Selected
  reported : (ℕ → Bool) → ℕ → Selected

-- The variables after the body; `timeind` is NULL or points to the timeout.
pub record Round : Type 0 where
  pub loop : Loop
  pub timeind : Option Timeval
  pub actions : List Action

-- The timeout is set again behind the loop over the descriptors.
abbrev pub set_timeout : Timeval → Loop × List Action → Option Round
set_timeout now (l, actions) =
    next_timeout now l.theatre.session.queue l.theatre.session.store >>= λ timeind.
    some (record { loop = l; timeind = timeind; actions = actions })

module _ (program : Program) (listenfd siplistenfd : ℕ) where
  -- A `select` that is interrupted leaves the descriptors in `readfds` that it was asked for.
  unfoldable pub one_round : Selected → Outside → (ℕ → Given) → Timeval → Loop → Option Round
  one_round interrupted o given now l =
      for_loop program listenfd siplistenfd l.watch.masterfds given fd_setsize 0 (negsuc 0) l
      >>= set_timeout now
  one_round timed_out o given now l = serve_timeout program o l.theatre >>= λ fired. some (record {
    loop = record l { theatre = record l.theatre { session = fired.state } };
    timeind = fired.delay;
    actions = fired.actions;
  })
  one_round (reported readfds n) o given now l =
      for_loop program listenfd siplistenfd readfds given fd_setsize 0 (pos n) l >>= set_timeout now
