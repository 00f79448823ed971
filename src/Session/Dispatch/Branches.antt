-- ===== src/Session/Dispatch/Branches.antt =====
-- What each branch of the main loops does to the descriptors that are watched.
use http2rtsp.Prelude.{
  ℕ, zero, suc, ◌<◌, ◌≤◌, ◌≡◌, refl, ◌||◌, Bool, true, false, List, ◌==◌, arith, Bool-cases, inl,
  inr, Every, Every->>=, Every-then, Every-if,
}
use http2rtsp.Prelude.Int.{ℤ, pos, leb_ℤ}
use http2rtsp.Session.{Program, server, mt_server, Action}
use http2rtsp.Session.Requests.{on_receive, maybe_teardown, on_request}
use http2rtsp.Session.Theatre.{theatre_media, theatre_sip}
use http2rtsp.Session.Dispatch.{
  fd_setsize, Loop, Given, connection_watch, connection_branch, media_fd_branch, client_fd_branch,
  sip_branch, is_fd, is_sip_fd, first_watch, serve, serve_set, for_loop,
}
use http2rtsp.Session.Dispatch.Watched.{
  IsWatch, Kept, Kept-refl, Kept-trans, connection_watch-Kept, media_watch-Kept,
  received_watch-Kept, torn_watch-Kept, request_watch-Kept,
}

module _ (c : ℕ → Bool) where
  abbrev Leaves : Loop → Loop × List Action → Type 0
  Leaves l (l', actions) = Kept c l.watch l'.watch

  connection_branch-Kept :
      (g : Given) (l : Loop) → IsWatch l.watch → Every (Leaves l) (connection_branch g l)
  unfolding connection_branch
  connection_branch-Kept g l v =
      Every->>= (Kept c l.watch) (Leaves l)
        (connection_watch l.theatre.session.client.state g.accepted l.watch) _
        (connection_watch-Kept c l.theatre.session.client.state g.accepted l.watch v)
        (λ w kept. kept)

  media_fd_branch-Kept :
      (g : Given) (i : ℕ) (l : Loop)
      → c i ≡ false
      → IsWatch l.watch
      → Every (Leaves l) (media_fd_branch g i l)
  unfolding media_fd_branch
  media_fd_branch-Kept g i l other v =
      Every-then (Leaves l) (theatre_media g.outside l.theatre) _
        (λ (t, actions). media_watch-Kept c _ i l.watch other v)

  sip_branch-Kept : (g : Given) (l : Loop) → IsWatch l.watch → Every (Leaves l) (sip_branch g l)
  unfolding sip_branch
  sip_branch-Kept g l v =
      Every-then (Leaves l) (theatre_sip g.sip_text g.cliaddr g.rtpfd g.fresh l.theatre) _
        (λ (t, actions). Kept-refl c l.watch v)

  client_fd_branch-Kept :
      (program : Program) (g : Given) (i : ℕ) (l : Loop)
      → c i ≡ false
      → IsWatch l.watch
      → Every (Leaves l) (client_fd_branch program g i l)
  unfolding client_fd_branch
  client_fd_branch-Kept program g i l other v =
      Every-then (Leaves l) (on_receive g.outside (pos i) l.theatre.session) _ (λ (s, received).
        let heard = received_watch-Kept c g.outside.received i l.watch other v in
        let torn = torn_watch-Kept c s.rtspmsg.type i _ other heard.0 in
        let cleared = Kept-trans c l.watch _ _ heard torn in
        Every-then (Leaves l) (maybe_teardown s.rtspmsg.type g.outside (pos i) s) _ (λ (s, actions).
          Every->>= (Kept c _) (Leaves l) _ _
            (request_watch-Kept c s.client.state s.rtspmsg.type g.outside s _ torn.0)
            (λ w asked.
              Every-then (Leaves l) (on_request program g.outside s.client.state s.rtspmsg.type s) _
                (λ (s, replied). Kept-trans c l.watch _ w cleared asked))))

pub first_reached :
    (program : Program) (listenfd siplistenfd n : ℕ)
    → siplistenfd ≤ listenfd
    → ((n == listenfd) || is_sip_fd program siplistenfd n) ≡ true
    → n ≤ listenfd
first_reached server listenfd siplistenfd n below set = ground (arith, set)
first_reached mt_server listenfd siplistenfd n below set = ground (arith, set, below)

module _ (program : Program) (listenfd siplistenfd : ℕ) where
  -- The sockets that take what is new.
  abbrev pub listening : ℕ → Bool
  listening n = (n == listenfd) || is_sip_fd program siplistenfd n

  pub serve-Kept :
      (g : Given) (i : ℕ) (l : Loop)
      → IsWatch l.watch
      → Every (Leaves listening l) (serve program listenfd siplistenfd g i l)
  unfolding serve
  serve-Kept g i l v = elim (Bool-cases (i == listenfd)) [
    | inl new ↦ rw new (connection_branch-Kept listening g l v)
    | inr old ↦
        (let sip = is_sip_fd program siplistenfd i in
          rw old (elim (Bool-cases sip) [
            | inl message ↦ rw message (sip_branch-Kept listening g l v)
            | inr other ↦
                let heard : listening i ≡ false = rw (old, other) refl in
                rw other (
                  Every-if (Leaves listening l) (is_fd i l.theatre.session.mediafd) _ _
                    (media_fd_branch-Kept listening g i l heard v)
                    (client_fd_branch-Kept listening program g i l heard v))
          ]))
  ]

  serve_set-Kept :
      (ready : Bool) (g : Given) (i : ℕ) (nready : ℤ) (l : Loop)
      → IsWatch l.watch
      → Every
          (λ r. Kept listening l.watch r.1.watch)
          (serve_set program listenfd siplistenfd ready g i nready l)
  serve_set-Kept true g i nready l v =
      Every->>= (Leaves listening l) (λ r. Kept listening l.watch r.1.watch)
        (serve program listenfd siplistenfd g i l) _ (serve-Kept g i l v) (λ r kept. kept)
  serve_set-Kept false g i nready l v = Kept-refl listening l.watch v

  pub for_loop-Kept :
      (readfds : ℕ → Bool) (given : ℕ → Given) (fuel i : ℕ) (nready : ℤ) (l : Loop)
      → IsWatch l.watch
      → Every
          (Leaves listening l)
          (for_loop program listenfd siplistenfd readfds given fuel i nready l)
  unfolding for_loop
  for_loop-Kept readfds given zero i nready l v = tt
  for_loop-Kept readfds given (suc fuel) i nready l v =
      Every-if (Leaves listening l) (leb_ℤ (pos i) l.watch.maxfd) _ _
        (Every->>= (λ r. Kept listening l.watch r.1.watch) (Leaves listening l) _ _
          (serve_set-Kept (readfds i) (given i) i nready l v)
          (λ (nready', l', actions) kept.
            Every-if (Leaves listening l) (leb_ℤ nready' (pos 0)) _ _ kept (
              Every->>= (Leaves listening l') (Leaves listening l) _ _
                (for_loop-Kept readfds given fuel (suc i) nready' l' kept.0)
                (λ (l'', more) later. Kept-trans listening l.watch l'.watch l''.watch kept later))))
        (Kept-refl listening l.watch v)

  -- Before the first round.
  pub first_watch-IsWatch :
      listenfd < fd_setsize
      → siplistenfd ≤ listenfd
      → IsWatch (first_watch program listenfd siplistenfd)
  unfolding first_watch
  first_watch-IsWatch room below = record {
    last = listenfd;
    last_is = refl;
    room = room;
    reached = λ n set. first_reached program listenfd siplistenfd n below set;
  }
