-- ===== src/Session/Dispatch/Turns.antt =====
-- A round of the loop over the descriptors is a sequence of turns of the whole system.
use http2rtsp.Prelude.{
  ℕ, ◌≡◌, refl, Bool, Option, none, some, ◌>>=◌, Option-cases, Every, Every->>=, Every-if,
  Every-elim, Every-then, List, [], ◌∷◌, ◌++◌, ◌==◌, inl, inr, suc, ◌<◌, length,
}
use http2rtsp.Prelude.Int.{ℤ, pos}
use http2rtsp.Session.{Program, Action, State}
use http2rtsp.Session.Requests.{on_receive, maybe_teardown, on_request, on_client}
use http2rtsp.Session.Media.{on_media}
use http2rtsp.Session.Theatre.{theatre_connection, theatre_media, theatre_sip}
use http2rtsp.Session.Memory.{IsFresh}
use http2rtsp.Session.Filler.{Filler}
use http2rtsp.Session.System.{World, Step, connection, client, media, sip, Reach, later}
use http2rtsp.Session.Dispatch.{
  Watch, Loop, Given, connection_watch, connection_branch, media_fd_branch, client_fd_branch,
  sip_branch, is_fd, is_sip_fd, serve, for_loop, fd_setsize,
}
use http2rtsp.Session.Dispatch.Watched.{IsWatch}
use http2rtsp.Session.Dispatch.Order.{ready_list, serve_each, for_loop-each}

-- The system with the loop's variables, and the thread's.
abbrev pub world : Filler → Loop → World
world f l = record { theatre = l.theatre; filler = f }

module _ (program : Program) (listenfd siplistenfd : ℕ) (given : ℕ → Given) where
  -- The addresses that `malloc` gives to a branch are not in use when it runs.
  abbrev pub AreFresh : List ℕ → Loop → Type 0
  AreFresh [] l = Unit
  AreFresh (i ∷ rest) l =
      IsFresh (given i).outside l.theatre.session.store
      × Every (λ r. AreFresh rest r.0) (serve program listenfd siplistenfd (given i) i l)

module _ (program : Program) (add_ticks : ℤ → ℕ → ℤ) (video_idx : ℤ) (f : Filler) where
  abbrev Turns : Loop → Loop × List Action → Type 0
  Turns l (l', actions) = Step program add_ticks video_idx (world f l) (world f l')

  connection_branch-Step : (g : Given) (l : Loop) → Every (Turns l) (connection_branch g l)
  unfolding connection_branch theatre_connection
  connection_branch-Step g l =
      Every-then (Turns l) (connection_watch l.theatre.session.client.state g.accepted l.watch) _
        (λ w. connection g.accepted)

  sip_branch-Step : (g : Given) (l : Loop) → Every (Turns l) (sip_branch g l)
  unfolding sip_branch
  sip_branch-Step g l =
      elim (Option-cases (theatre_sip g.sip_text g.cliaddr g.rtpfd g.fresh l.theatre)) [
        | inl fault ↦ rw fault tt
        | inr (r, e) ↦ rw e (sip g.sip_text g.cliaddr g.rtpfd g.fresh e)
      ]

  media_fd_branch-Step :
      (g : Given) (i : ℕ) (l : Loop)
      → IsFresh g.outside l.theatre.session.store
      → Every (Turns l) (media_fd_branch g i l)
  unfolding media_fd_branch theatre_media
  media_fd_branch-Step g i l unused = elim (Option-cases (on_media g.outside l.theatre.session)) [
    | inl fault ↦ rw fault tt
    | inr (r, e) ↦ rw e (media g.outside unused e)
  ]

  -- The end of the branch, with the set that `w` gives.
  replied-Step :
      (g : Given) (i : ℕ) (l : Loop) (s : State) (received torn : List Action) (w : Option Watch)
      → ((s' : State) (replied : List Action)
          → on_request program g.outside s.client.state s.rtspmsg.type s ≡ some (s', replied)
          → (watch : Watch)
          → Turns l (
            record { theatre = record l.theatre { session = s' }; watch = watch },
            received ++ (torn ++ replied),
          ))
      → Every (Turns l) (
          w >>= λ w.
          on_request program g.outside s.client.state s.rtspmsg.type s >>= λ (s, replied). some (
            record { theatre = record l.theatre { session = s }; watch = w },
            received ++ (torn ++ replied),
          ))
  replied-Step g i l s received torn none turn = tt
  replied-Step g i l s received torn (some w) turn =
      elim (Option-cases (on_request program g.outside s.client.state s.rtspmsg.type s)) [
        | inl fault ↦ rw fault tt
        | inr ((s', replied), e) ↦ rw e (turn s' replied e w)
      ]

  client_fd_branch-Step :
      (g : Given) (i : ℕ) (l : Loop)
      → IsFresh g.outside l.theatre.session.store
      → Every (Turns l) (client_fd_branch program g i l)
  unfolding client_fd_branch
  client_fd_branch-Step g i l unused =
      elim (Option-cases (on_receive g.outside (pos i) l.theatre.session)) [
        | inl fault ↦ rw fault tt
        | inr ((s, received), e) ↦
            rw e (elim (Option-cases (maybe_teardown s.rtspmsg.type g.outside (pos i) s)) [
              | inl fault ↦ rw fault tt
              | inr ((s', torn), e') ↦ rw e' (
                  replied-Step g i l s' received torn _ (λ s'' replied e'' watch.
                    client g.outside (pos i) {s = s''} {actions = received ++ (torn ++ replied)}
                      unused (unfold on_client in rw (e, e', e'') refl)))
            ])
      ]

  serve-Step :
      (listenfd siplistenfd : ℕ) (g : Given) (i : ℕ) (l : Loop)
      → IsFresh g.outside l.theatre.session.store
      → Every (Turns l) (serve program listenfd siplistenfd g i l)
  unfolding serve
  serve-Step listenfd siplistenfd g i l unused =
      Every-if (Turns l) (i == listenfd) _ _ (connection_branch-Step g l) (
        Every-if (Turns l) (is_sip_fd program siplistenfd i) _ _ (sip_branch-Step g l) (
          Every-if (Turns l) (is_fd i l.theatre.session.mediafd) _ _
            (media_fd_branch-Step g i l unused) (client_fd_branch-Step g i l unused)))

  module _ (listenfd siplistenfd : ℕ) (given : ℕ → Given) where
    abbrev Reaches : Loop × List Action → Type 0
    Reaches (l, actions) = Reach program add_ticks video_idx (world f l)

    serve_each-Reach :
        (readfds : ℕ → Bool) (list : List ℕ) (l : Loop)
        → Reach program add_ticks video_idx (world f l)
        → AreFresh program listenfd siplistenfd given list l
        → Every Reaches (serve_each program listenfd siplistenfd readfds given list l)
    serve_each-Reach readfds [] l reach fresh = reach
    serve_each-Reach readfds (i ∷ rest) l reach (unused, more) =
        elim (Option-cases (serve program listenfd siplistenfd (given i) i l)) [
          | inl fault ↦ rw fault tt
          | inr ((l', actions), e) ↦
              let step =
                Every-elim (Turns l) _ _ (serve-Step listenfd siplistenfd (given i) i l unused) e in
              let fresh =
                Every-elim (λ r. AreFresh program listenfd siplistenfd given rest r.0) _ _ more e in
              rw e (
                Every->>= Reaches Reaches _ _
                  (serve_each-Reach readfds rest l' (later reach step) fresh)
                  (λ (l'', actions) reached. reached))
        ]

    -- A round of the loop that does not fault, over what `select` reports, with addresses of malloc that
    -- are not in use, leads from a state that the main loop and the queue thread reach to another one.
    pub for_loop-Reach :
        (readfds : ℕ → Bool) (l : Loop) (v : IsWatch l.watch)
        → 0 < length (ready_list readfds 0 (suc v.last))
        → Reach program add_ticks video_idx (world f l)
        → AreFresh program listenfd siplistenfd given (ready_list readfds 0 (suc v.last)) l
        → Every Reaches (
            for_loop program listenfd siplistenfd readfds given fd_setsize 0
              (pos (length (ready_list readfds 0 (suc v.last))))
              l)
    for_loop-Reach readfds l v some_ready reach fresh =
        rw (for_loop-each program listenfd siplistenfd readfds given l v some_ready)
          (serve_each-Reach readfds (ready_list readfds 0 (suc v.last)) l reach fresh)
