-- ===== src/Session/Memory/Hangup.antt =====
-- The sockets that two SETUPs open, and those that a later TEARDOWN closes.
use http2rtsp.Prelude.{
  ℕ, ◌≡◌, refl, ap, ◌∙◌, some, Every, Every->>=, Every-then, Every-elim, List, [], ◌∷◌, ◌++◌,
}
use http2rtsp.Prelude.Int.{ℤ, pos, negsuc}
use http2rtsp.Text.{codes, fits, print_int, Bytes}
use http2rtsp.Queue.{Ptr}
use http2rtsp.Queue.Grow.{IsSound}
use http2rtsp.Rtsp.{Client, rtsp_setup}
use http2rtsp.Session.{
  Program, server, mt_server, info_live, info_freed, Action, closed, State, Outside,
}
use http2rtsp.Session.Requests.{answer_setup, on_setup, on_teardown}
use http2rtsp.Session.Memory.Teardown.{on_teardown-frees}

-- What is stored for the video and the audio, each with the socket for RTP first.
abbrev pub media_fds : Client → List ℤ
media_fds c = c.videofd_rtp ∷ c.videofd_rtcp ∷ c.audiofd_rtp ∷ c.audiofd_rtcp ∷ []

-- The descriptors that are closed, in order.
abbrev pub closed_fds : List Action → List ℤ
closed_fds [] = []
closed_fds (closed fd ∷ actions) = fd ∷ closed_fds actions
closed_fds (action ∷ actions) = closed_fds actions

-- What is stored after two SETUPs of a new client: the second of server.c puts its RTCP socket over that
-- of the first.
abbrev pub opened_fds : Program → Outside → Outside → List ℤ
opened_fds server first second =
    second.socket_rtp ∷ negsuc 0 ∷ first.socket_rtp ∷ second.socket_rtcp ∷ []
opened_fds mt_server first second =
    second.socket_rtp ∷ second.socket_rtcp ∷ first.socket_rtp ∷ first.socket_rtcp ∷ []

abbrev Holds : ℕ → List ℤ → Client → Type 0
Holds n fds c = (c.setupsreceived ≡ n) × (media_fds c ≡ fds)

answer_setup-Holds :
    (o : Outside) (rtp rtcp : ℕ) (s : State) (c : Client)
    → Every (λ r. Holds c.setupsreceived (media_fds c) r.0) (answer_setup o rtp rtcp s c)
unfolding rtsp_setup
answer_setup-Holds o rtp rtcp s c =
    Every-then (λ (r : Client × Bytes). Holds c.setupsreceived (media_fds c) r.0)
      (fits _ (
        s.rtspmsg.transport
        ++ (codes ";server_port=" ++ (print_int (pos rtp) ++ (45 ∷ print_int (pos rtcp))))))
      _ (λ transport. (refl, refl))

-- The first SETUP is for the audio, the second for the video.
first-Holds :
    (program : Program) (o : Outside) (s : State)
    → s.client.setupsreceived ≡ 0
    → Every
        (λ r.
          Holds 1
            (s.client.videofd_rtp ∷ s.client.videofd_rtcp ∷ o.socket_rtp ∷ o.socket_rtcp ∷ [])
            r.0.client)
        (on_setup program o s)
unfolding on_setup
first-Holds program o s none_yet = rw none_yet (
    Every->>= _ _ (answer_setup o _ _ s _) _ (answer_setup-Holds o _ _ s _)
      (λ r (n, fds). (n, fds)))

second-Holds :
    (program : Program) (first second : Outside) (v : ℤ) (s : State)
    → Holds 1 (v ∷ negsuc 0 ∷ first.socket_rtp ∷ first.socket_rtcp ∷ []) s.client
    → Every
        (λ r. media_fds r.0.client ≡ opened_fds program first second)
        (on_setup program second s)
unfolding on_setup
second-Holds server first second v s (one, fds) = rw one (
    Every->>= _ _ (answer_setup second _ _ s _) _ (answer_setup-Holds second _ _ s _)
      (λ r (n, same). cc (same, fds)))
second-Holds mt_server first second v s (one, fds) = rw one (
    Every->>= _ _ (answer_setup second _ _ s _) _ (answer_setup-Holds second _ _ s _)
      (λ r (n, same). cc (same, fds)))

-- A new client makes two SETUPs that are answered, and later, with the same descriptors stored and the
-- thread there, a TEARDOWN. The queue is well formed and owns its frames then. The TEARDOWN ends without
-- a fault and leaves an empty queue and the record of the thread freed. mt_server.c closes the client's
-- socket and the four sockets that the SETUPs opened; server.c closes -1 and three of them, and the RTCP
-- socket of the first SETUP stays open.
pub on_teardown-closes :
    (program : Program) (first second o : Outside) (i : ℤ) (s s1 t s2 s3 : State)
    (a1 a2 : List Action) (xs : List Ptr)
    → s.client.setupsreceived ≡ 0
    → s.client.videofd_rtcp ≡ negsuc 0
    → on_setup program first s ≡ some (s1, a1)
    → t.client ≡ s1.client
    → on_setup program second t ≡ some (s2, a2)
    → media_fds s3.client ≡ media_fds s2.client
    → IsSound s3.store s3.queue xs
    → s3.tinfo ≡ info_live
    → (s' : State) × (actions : List Action) × (on_teardown o i s3 ≡ some (s', actions))
      × (closed_fds actions ≡ i ∷ opened_fds program first second)
      × IsSound s'.store s'.queue []
      × (s'.tinfo ≡ info_freed)
on_teardown-closes program first second o i s s1 t s2 s3 a1 a2 xs none_yet unset e1 same e2 kept v
      live =
    let one = Every-elim _ _ (s1, a1) (first-Holds program first s none_yet) e1 in
    let two =
      Every-elim _ _ (s2, a2)
        (second-Holds program first second s.client.videofd_rtp t (rw (same, ← unset) one)) e2 in
    let (s', done, client, freed, sound, lives, frames) = on_teardown-frees o i s3 xs v live in
    (s', _, done, ap (◌∷◌ i) (kept ∙ two), sound, freed)
