-- ===== src/Session/Rounds/Sound.antt =====
-- What holds in every run of a server.
use http2rtsp.Prelude.{
  ℕ, suc, ◌<◌, ◌≤◌, ◌≡◌, refl, sym, ap, ◌∙◌, subst, Bool, true, false, some, Option-cases, Every,
  Every->>=, Every-then, Every-elim, List, [], length, arith, inl, inr,
}
use http2rtsp.Prelude.Int.{ℤ, pos, negsuc, pos_part, leb_ℤ}
use http2rtsp.Time.{Timeval}
use http2rtsp.Session.{Program, Action, Outside}
use http2rtsp.Session.Events.{next_timeout}
use http2rtsp.Session.Filler.{Filler}
use http2rtsp.Session.System.{
  World, serve_timeout, timeout, thread_start, wake, fill, Reach, start, later,
}
use http2rtsp.Session.System.Safety.{IsWorld, Reach-IsWorld}
use http2rtsp.Session.Dispatch.{fd_setsize, Watch, Loop, Given, for_loop}
use http2rtsp.Session.Dispatch.Watched.{IsWatch}
use http2rtsp.Session.Dispatch.Branches.{for_loop-Kept, first_watch-IsWatch}
use http2rtsp.Session.Dispatch.Order.{ready_list}
use http2rtsp.Session.Dispatch.Turns.{world, AreFresh, for_loop-Reach}
use http2rtsp.Session.Rounds.{
  Selected, interrupted, timed_out, reported, Round, set_timeout, one_round,
}
use http2rtsp.Session.Rounds.Runs.{
  IsReport, IsFreshFor, ThreadStep, thread_begins, woken, filled_one, Runs, begin, round, thread,
}

module _ (program : Program) (listenfd siplistenfd : ℕ) (add_ticks : ℤ → ℕ → ℤ)
    (video_idx : ℤ) where
  abbrev Reaches : World → Watch → Type 0
  Reaches w watch = Reach program add_ticks video_idx w × IsWatch watch

  ThreadStep-Reach :
      (w w' : World)
      → Reach program add_ticks video_idx w
      → ThreadStep program listenfd siplistenfd add_ticks video_idx w w'
      → Reach program add_ticks video_idx w'
  ThreadStep-Reach w w' reach thread_begins = later reach thread_start
  ThreadStep-Reach w w' reach (woken now) = later reach (wake now)
  ThreadStep-Reach w w' reach (filled_one supply unused room e) =
      later reach (fill supply unused room e)

  abbrev AfterRound : Filler → Round → Type 0
  AfterRound f r = Reaches (world f r.loop) r.loop.watch

  set_timeout-Reaches :
      (f : Filler) (now : Timeval) (l : Loop) (actions : List Action)
      → Reaches (world f l) l.watch
      → Every (AfterRound f) (set_timeout now (l, actions))
  set_timeout-Reaches f now l actions reaches =
      Every-then (AfterRound f) (next_timeout now l.theatre.session.queue l.theatre.session.store) _
        (λ timeind. reaches)

  -- The loop over the descriptors that `select` reports, as the loop serves them.
  reported-Reaches :
      (f : Filler) (readfds : ℕ → Bool) (n : ℕ) (given : ℕ → Given) (l : Loop)
      → Reaches (world f l) l.watch
      → IsReport (reported readfds n) l.watch
      → AreFresh program listenfd siplistenfd given
          (ready_list readfds 0 (suc (pos_part l.watch.maxfd)))
          l
      → Every
          (λ r. Reaches (world f r.0) r.0.watch)
          (for_loop program listenfd siplistenfd readfds given fd_setsize 0 (pos n) l)
  reported-Reaches f readfds n given l (reach, v) (e, some_ready) fresh =
      let same : pos_part l.watch.maxfd ≡ v.last = ap pos_part v.last_is in
      let count : length (ready_list readfds 0 (suc v.last)) ≡ n =
        sym (e ∙ ap (λ k. length (ready_list readfds 0 (suc k))) same) in
      let unused =
        subst
          (λ (k : ℕ). AreFresh program listenfd siplistenfd given (ready_list readfds 0 (suc k)) l)
          same fresh in
      let reached =
        for_loop-Reach program add_ticks video_idx f listenfd siplistenfd given readfds l v
          (omega (arith, count, some_ready)) reach unused in
      let kept =
        for_loop-Kept program listenfd siplistenfd readfds given fd_setsize 0 (pos n) l v in
      elim (Option-cases
        (for_loop program listenfd siplistenfd readfds given fd_setsize 0 (pos n) l)) [
          | inl fault ↦ rw fault tt
          | inr (r, done) ↦ rw done (
            Every-elim _ _ r reached (
                ap
                  (λ (k : ℕ).
                    for_loop program listenfd siplistenfd readfds given fd_setsize 0 (pos k) l)
                  count
                ∙ done),
            (Every-elim _ _ r kept done).0,
          )
        ]

  -- Nothing is served.
  for_loop-interrupted :
      (fuel : ℕ) (given : ℕ → Given) (l : Loop)
      → IsWatch l.watch
      → l.watch.masterfds 0 ≡ false
      → for_loop program listenfd siplistenfd l.watch.masterfds given (suc fuel) 0 (negsuc 0) l
        ≡ some (l, [])
  unfolding for_loop
  for_loop-interrupted fuel given l v none_at_zero =
      let inside : leb_ℤ (pos 0) l.watch.maxfd ≡ true = rw v.last_is (ground arith) in
      rw (inside, none_at_zero) refl

  -- A round from a state that is reached.
  one_round-Reaches :
      (f : Filler) (selected : Selected) (o : Outside) (given : ℕ → Given) (now : Timeval)
      (l : Loop)
      → Reaches (world f l) l.watch
      → IsReport selected l.watch
      → IsFreshFor program listenfd siplistenfd selected o given l
      → Every (AfterRound f) (one_round program listenfd siplistenfd selected o given now l)
  unfolding one_round
  one_round-Reaches f interrupted o given now l (reach, v) report fresh =
      rw (for_loop-interrupted 1023 given l v report) (set_timeout-Reaches f now l [] (reach, v))
  one_round-Reaches f timed_out o given now l (reach, v) report fresh =
      elim (Option-cases (serve_timeout program o l.theatre)) [
        | inl fault ↦ rw fault tt
        | inr (fired, e) ↦ rw e (later reach (timeout o fresh e), v)
      ]
  one_round-Reaches f (reported readfds n) o given now l (reach, v) (e, some_ready) fresh =
      Every->>= (λ r. Reaches (world f r.0) r.0.watch) (AfterRound f) _ (set_timeout now)
        (reported-Reaches f readfds n given l (reach, v) (e, some_ready) fresh)
        (λ (l', actions) reaches. set_timeout-Reaches f now l' actions reaches)

  -- In every run the state is one that the turns of the system reach, and the set that is watched has
  -- only descriptors that the loop reaches.
  Runs-Reaches :
      (w : World) (watch : Watch)
      → listenfd < fd_setsize
      → siplistenfd ≤ listenfd
      → Runs program listenfd siplistenfd add_ticks video_idx w watch
      → Reaches w watch
  Runs-Reaches w watch room below (begin msg old size left random_video random_audio h) = (
    start msg old size left random_video random_audio h,
    first_watch-IsWatch program listenfd siplistenfd room below,
  )
  Runs-Reaches w watch room below
        (round {w = w1} {watch = watch1} selected o given now {r = r} before report fresh e) =
      Every-elim (AfterRound w1.filler) _ r
        (one_round-Reaches w1.filler selected o given now
          (record { theatre = w1.theatre; watch = watch1 })
          (Runs-Reaches w1 watch1 room below before) report fresh)
        e
  Runs-Reaches w watch room below (thread {w = w1} before step) =
      let (reach, v) = Runs-Reaches w1 watch room below before in
      (ThreadStep-Reach w1 w reach step, v)

  -- In every state that a server comes to by rounds of its main loop and turns of its queue thread
  -- between them, the queue is a well-formed list that owns its frames, the table of SIP clients counts
  -- what it holds, and every watched descriptor is at most maxfd, which is less than FD_SETSIZE. The RTSP
  -- socket is less than FD_SETSIZE and the SIP socket has a smaller number or the same, select reports as
  -- many descriptors as are set up to maxfd, one at least, malloc gives addresses that are not in use, and
  -- standard input is not watched where select is interrupted.
  pub Runs-IsSound :
      (w : World) (watch : Watch)
      → listenfd < fd_setsize
      → siplistenfd ≤ listenfd
      → Runs program listenfd siplistenfd add_ticks video_idx w watch
      → IsWorld w × IsWatch watch
  Runs-IsSound w watch room below runs =
      let (reach, v) = Runs-Reaches w watch room below runs in
      (Reach-IsWorld program add_ticks video_idx w reach, v)
