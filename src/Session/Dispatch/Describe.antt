-- ===== src/Session/Dispatch/Describe.antt =====
-- A second DESCRIBE while the media is being fetched: the first connection to the media source stays
-- watched, and nothing says any more that it is one.
use http2rtsp.Prelude.{
  ℕ, ◌<◌, ◌≡◌, ◌≢◌, refl, ◌∙◌, Bool, true, false, some, List, [], ◌∷◌, ◌==◌, arith, lt→ltb,
  Bool-cases, inl, inr,
}
use http2rtsp.Prelude.Int.{ℤ, pos}
use http2rtsp.Text.{Bytes, c_string}
use http2rtsp.Rtsp.{RtspMsg, describe, noclient, cliconnected, sdpsent, parse_rtsp, rtsp_describe}
use http2rtsp.Rtsp.Url.{http_get}
use http2rtsp.Session.{Program, Action, Outside, getsent, closed}
use http2rtsp.Session.Requests.{on_receive, on_request, on_describe}
use http2rtsp.Session.Dispatch.{
  fd_setsize, fd_set, watch_fd, Loop, Given, client_fd_branch, is_fd, is_sip_fd, serve,
}
use http2rtsp.Session.Dispatch.Branches.{listening}

module _ (program : Program) (listenfd siplistenfd : ℕ) where
  -- A descriptor that is neither a listening socket nor the current media source is the client's.
  serve-client :
      (g : Given) (i : ℕ) (l : Loop)
      → listening program listenfd siplistenfd i ≡ false
      → is_fd i l.theatre.session.mediafd ≡ false
      → serve program listenfd siplistenfd g i l ≡ client_fd_branch program g i l
  unfolding serve
  serve-client g i l old other =
      let old_fd : (i == listenfd) ≡ false = ground (arith, old) in
      let no_sip : is_sip_fd program siplistenfd i ≡ false = ground (arith, old) in
      rw (old_fd, no_sip, other) refl

  -- The loop after the DESCRIBE.
  abbrev asked : Outside → RtspMsg → Bytes → (ℕ → Bool) → ℤ → Loop → Loop
  asked o msg get fds maxfd l =
      let s = l.theatre.session in
      record {
        theatre = record l.theatre {
          session = record s {
            rtspmsg = msg;
            mediafd = o.media_socket;
            mediastate = getsent;
            client = (rtsp_describe o.date (record s.client { state = sdpsent })).0;
          };
        };
        watch = record { maxfd = maxfd; masterfds = fds };
      }

  client_fd_branch-asked :
      (g : Given) (i k c : ℕ) (text get : Bytes) (code : ℤ) (msg : RtspMsg) (l : Loop)
      → g.outside.received ≡ c ∷ text
      → parse_rtsp (c_string (c ∷ text)) ≡ some (code, msg)
      → msg.type ≡ describe
      → l.theatre.session.client.state ≡ cliconnected
      → l.theatre.session.media_downloaded ≡ false
      → http_get g.outside.url ≡ some get
      → g.outside.media_socket ≡ pos k
      → k < fd_setsize
      → (fds : ℕ → Bool) × (maxfd : ℤ) × (actions : List Action) × (client_fd_branch program g i l
          ≡ some (asked g.outside msg get fds maxfd l, actions))
        × ((n : ℕ) → l.watch.masterfds n ≡ true → fds n ≡ true)
  unfolding client_fd_branch on_receive on_request on_describe watch_fd fd_set
  client_fd_branch-asked g i k c text get code msg l bytes parsed_msg type state fetched url socket
        room =
      rw (bytes, parsed_msg, type, state, fetched, url, socket, lt→ltb k fd_setsize room)
        (
          _,
          _,
          _,
          refl,
          λ n set. elim (Bool-cases (n == k)) [
            | inl same ↦ rw same refl
            | inr different ↦ rw different set
          ],
        )

  -- The peer of a descriptor that is taken for the client's closes its connection.
  client_fd_branch-closed :
      (g : Given) (m : ℕ) (l : Loop)
      → g.outside.received ≡ []
      → l.theatre.session.rtspmsg.type ≡ describe
      → (l' : Loop) × (client_fd_branch program g m l ≡ some (l', closed (pos m) ∷ []))
        × (l'.theatre.session.client.state ≡ noclient)
        × ((n : ℕ) → n ≢ m → l'.watch.masterfds n ≡ l.watch.masterfds n)
  unfolding client_fd_branch on_receive on_request
  client_fd_branch-closed g m l bytes type =
      rw (bytes, type)
        (
          _,
          refl,
          refl,
          λ n other. let differs : (n == m) ≡ false = ground (arith, other) in rw differs refl,
        )

  -- With a DESCRIBE that comes while the media is being fetched, a new connection to the source is
  -- opened and the old one stays watched; when the source closes the old one, the client counts as gone,
  -- though its own socket is still watched.
  pub serve-abandoned :
      (g closing : Given) (i m k c : ℕ) (text get : Bytes) (code : ℤ) (msg : RtspMsg) (l : Loop)
      → g.outside.received ≡ c ∷ text
      → parse_rtsp (c_string (c ∷ text)) ≡ some (code, msg)
      → msg.type ≡ describe
      → l.theatre.session.client.state ≡ cliconnected
      → l.theatre.session.media_downloaded ≡ false
      → l.theatre.session.mediafd ≡ pos m
      → http_get g.outside.url ≡ some get
      → g.outside.media_socket ≡ pos k
      → k < fd_setsize
      → k ≢ m
      → i ≢ m
      → listening program listenfd siplistenfd i ≡ false
      → listening program listenfd siplistenfd m ≡ false
      → l.watch.masterfds i ≡ true
      → l.watch.masterfds m ≡ true
      → closing.outside.received ≡ []
      → (l1 l2 : Loop) × (actions : List Action) × (serve program listenfd siplistenfd g i l
          ≡ some (l1, actions))
        × (l1.watch.masterfds m ≡ true)
        × (l1.theatre.session.client.state ≡ sdpsent)
        × (serve program listenfd siplistenfd closing m l1 ≡ some (l2, closed (pos m) ∷ []))
        × (l2.theatre.session.client.state ≡ noclient)
        × (l2.watch.masterfds i ≡ true)
  serve-abandoned g closing i m k c text get code msg l bytes parsed_msg type state fetched media
        url socket room new_socket own old_i old_m watched_i watched_m gone =
      let (fds, maxfd, actions, e, kept) =
        client_fd_branch-asked g i k c text get code msg l bytes parsed_msg type state fetched url
          socket room in
      let l1 = asked g.outside msg get fds maxfd l in
      let (l2, e2, no_client, others) = client_fd_branch-closed closing m l1 gone type in
      let first : is_fd i l.theatre.session.mediafd ≡ false = rw media (ground (arith, own)) in
      let second : is_fd m g.outside.media_socket ≡ false =
        rw socket (ground (arith, new_socket)) in
      (
        l1,
        l2,
        actions,
        serve-client g i l old_i first ∙ e,
        kept m watched_m,
        unfold rtsp_describe in refl,
        serve-client closing m l1 old_m second ∙ e2,
        no_client,
        others i own ∙ kept i watched_i,
      )
