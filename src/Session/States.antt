-- ===== src/Session/States.antt =====
-- The states that the client of the servers goes through, and a message that outlives its client.
use http2rtsp.Prelude.{
  ◌≡◌, Option, none, some, List, [], ◌∷◌, refl, subst, ap, ◌∙◌, ◌⊎◌, inl, inr, Option-cases,
}
use http2rtsp.Prelude.Int.{ℤ}
use http2rtsp.Queue.{empty_queue}
use http2rtsp.Rtsp.{
  teardown, RtspMsg, ClientState, noclient, cliconnected, sdpsent, setupcomplete, streaming,
}
use http2rtsp.Session.{
  Program, State, Action, Outside, ThreadInfo, no_info, info_live, info_freed, closed,
  on_connection, accepted_state,
}
use http2rtsp.Session.Requests.{on_receive, on_teardown, maybe_teardown, on_client, free_info}

on_teardown-freed :
    (o : Outside) (i : ℤ) (s : State) → s.tinfo ≡ info_freed → on_teardown o i s ≡ none
unfolding on_teardown
on_teardown-freed o i s freed = elim (Option-cases (empty_queue s.queue s.store)) [
  | inl fault ↦ rw fault refl
  | inr (p, e) ↦ rw (e, freed) refl
]

-- What a TEARDOWN leaves, if it is answered.
abbrev Leaves : Option (State × List Action) → RtspMsg → Type 0
Leaves none msg = Unit
Leaves (some (s, a)) msg = (s.tinfo ≡ info_freed) × (s.rtspmsg ≡ msg) × (s.client.state ≡ noclient)

free_info-cases : (t : ThreadInfo) → (free_info t ≡ none) ⊎ (free_info t ≡ some info_freed)
free_info-cases no_info = inl refl
free_info-cases info_live = inr refl
free_info-cases info_freed = inl refl

on_teardown-Leaves : (o : Outside) (i : ℤ) (s : State) → Leaves (on_teardown o i s) s.rtspmsg
unfolding on_teardown
on_teardown-Leaves o i s = elim (Option-cases (empty_queue s.queue s.store)) [
  | inl fault ↦ rw fault tt
  | inr (p, e) ↦ elim (free_info-cases s.tinfo) [
    | inl fault ↦ rw (e, fault) tt
    | inr freed ↦ rw (e, freed) (refl, refl, refl)
  ]
]

-- A connection changes neither the message nor the thread's record.
accepted_state-keeps :
    (c : ClientState) (fd : ℤ) (s : State)
    → ((accepted_state c fd s).0.rtspmsg ≡ s.rtspmsg) × ((accepted_state c fd s).0.tinfo ≡ s.tinfo)
accepted_state-keeps noclient fd s = (refl, refl)
accepted_state-keeps cliconnected fd s = (refl, refl)
accepted_state-keeps sdpsent fd s = (refl, refl)
accepted_state-keeps setupcomplete fd s = (refl, refl)
accepted_state-keeps streaming fd s = (refl, refl)

on_receive-nil :
    (o : Outside) (i : ℤ) (s : State)
    → o.received ≡ []
    → on_receive o i s
      ≡ some (record s { client = record s.client { state = noclient } }, closed i ∷ [])
unfolding on_receive
on_receive-nil o i s silent = rw silent refl

maybe_teardown-freed :
    (o : Outside) (i : ℤ) (s : State)
    → s.rtspmsg.type ≡ teardown
    → s.tinfo ≡ info_freed
    → maybe_teardown s.rtspmsg.type o i s ≡ none
maybe_teardown-freed o i s type freed =
    ap (λ t. maybe_teardown t o i s) type ∙ on_teardown-freed o i s freed

on_client-freed :
    (program : Program) (o : Outside) (i : ℤ) (s : State)
    → o.received ≡ []
    → s.rtspmsg.type ≡ teardown
    → s.tinfo ≡ info_freed
    → on_client program o i s ≡ none
unfolding on_client
on_client-freed program o i s silent type freed =
    let gone = record s { client = record s.client { state = noclient } } in
    rw (on_receive-nil o i s silent, maybe_teardown-freed o i gone type freed) refl

-- After a TEARDOWN that was answered, a client that connects and closes its connection without having
-- sent a message is a fault: the message of the old client is handled again, and frees the thread's
-- record again.
pub on_client-stale :
    (program : Program) (o o' : Outside) (i fd : ℤ) (s s' : State) (a : List Action)
    → s.rtspmsg.type ≡ teardown
    → on_teardown o i s ≡ some (s', a)
    → o'.received ≡ []
    → on_client program o' fd (on_connection fd s').0 ≡ none
unfolding on_connection
on_client-stale program o o' i fd s s' a type torn silent =
    let (freed, kept, left) = subst (λ r. Leaves r s.rtspmsg) torn (on_teardown-Leaves o i s) in
    let (same, info) = accepted_state-keeps s'.client.state fd s' in
    on_client-freed program o' fd (accepted_state s'.client.state fd s').0 silent
      (ap (λ m. m.type) (same ∙ kept) ∙ type) (info ∙ freed)
