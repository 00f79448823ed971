-- ===== src/Session/Moves.antt =====
-- The steps of the client's state machine that a turn of the client's branch can make.
use http2rtsp.Prelude.{
  ℕ, suc, ◌≡◌, ◌⊎◌, inl, inr, refl, sym, subst, ◌∙◌, Option, none, some, List, [], ◌∷◌, ◌++◌, ltb,
  Every, Every->>=, Every-then, Every-if, Every-mono,
}
use http2rtsp.Prelude.Int.{ℤ, pos}
use http2rtsp.Text.{Bytes, codes, fits, print_int, c_string}
use http2rtsp.Queue.{Ptr, check_media_state, push_timeout, empty_queue}
use http2rtsp.Rtp.{checked_video_frame}
use http2rtsp.Rtsp.{
  RtspType, options, describe, setup, play, teardown, ClientState, noclient, cliconnected, sdpsent,
  setupcomplete, Client, parse_rtsp, fieldlen, rtsp_setup, rtsp_options, rtsp_describe,
}
use http2rtsp.Rtsp.Url.{http_get}
use http2rtsp.Session.{Program, info_live, Action, State, Outside}
use http2rtsp.Session.Requests.{
  on_bytes, on_receive, on_teardown, free_info, maybe_teardown, on_describe, answer_setup, on_setup,
  send_sprop, push_check, create_sprop_frame, start_stream, on_play, on_request, on_client,
}

-- The steps: to stay, DESCRIBE, the second SETUP, and a TEARDOWN or the end of the connection.
pub data Moves : ClientState → ClientState → Type 0 where
  stays : {c : ClientState} → Moves c c
  describes : Moves cliconnected sdpsent
  sets_up : Moves sdpsent setupcomplete
  leaves : {c : ClientState} → Moves c noclient

from_noclient : (c : ClientState) → Moves noclient c → c ≡ noclient
from_noclient c stays = refl
from_noclient c leaves = refl

abbrev pub MovesTo : ClientState → State × List Action → Type 0
MovesTo c (s, a) = Moves c s.client.state

-- The client stays, or is gone.
abbrev Left : ClientState → State × List Action → Type 0
Left c (s, a) = (s.client.state ≡ c) ⊎ (s.client.state ≡ noclient)

abbrev SameState : ClientState → Client × Bytes → Type 0
SameState c (client, text) = client.state ≡ c

answer_setup-SameState :
    (o : Outside) (rtp rtcp : ℕ) (s : State) (c : Client)
    → Every (SameState c.state) (answer_setup o rtp rtcp s c)
unfolding rtsp_setup
answer_setup-SameState o rtp rtcp s c =
    Every-then (SameState c.state)
      (fits fieldlen (
        s.rtspmsg.transport
        ++ (codes ";server_port=" ++ (print_int (pos rtp) ++ (45 ∷ print_int (pos rtcp))))))
      _ (λ transport. refl)

abbrev SameClientState : ClientState → State × List Action → Type 0
SameClientState c (s, a) = s.client.state ≡ c

SameClientState-MovesTo :
    (c : ClientState) (m : Option (State × List Action))
    → Every (SameClientState c) m
    → Every (MovesTo c) m
SameClientState-MovesTo c none same = tt
SameClientState-MovesTo c (some (s, a)) same = subst (λ d. Moves c d) (sym same) stays

on_describe-MovesTo : (o : Outside) (s : State) → Every (MovesTo cliconnected) (on_describe o s)
unfolding on_describe rtsp_describe
on_describe-MovesTo o s =
    Every-if (MovesTo cliconnected) s.media_downloaded _ _ describes
      (Every-then (MovesTo cliconnected) (http_get o.url) _ (λ get. describes))

on_setup-MovesTo :
    (program : Program) (o : Outside) (s : State)
    → s.client.state ≡ sdpsent
    → Every (MovesTo sdpsent) (on_setup program o s)
unfolding on_setup
on_setup-MovesTo program o s here =
    let c = record s.client { setupsreceived = suc s.client.setupsreceived } in
    let first = record c { audiofd_rtp = o.socket_rtp; audiofd_rtcp = o.socket_rtcp } in
    Every-if (MovesTo sdpsent) (ltb (suc s.client.setupsreceived) 2) _ _
      (Every->>= (SameState s.client.state) (MovesTo sdpsent)
        (answer_setup o c.server_rtp_audio_port c.server_rtcp_audio_port s first) _
        (answer_setup-SameState o c.server_rtp_audio_port c.server_rtcp_audio_port s first)
        (λ (d, text) same. subst (λ e. Moves sdpsent e) (sym (same ∙ here)) stays))
      (Every-then (MovesTo sdpsent) (answer_setup o _ _ s _) _ (λ (d, text). sets_up))

send_sprop-SameClientState :
    (o : Outside) (ps : Bytes) (s : State)
    → Every (SameClientState s.client.state) (send_sprop o ps s)
send_sprop-SameClientState o ps s =
    Every-then (SameClientState s.client.state)
      (checked_video_frame o.beyond (create_sprop_frame ps 0) s.rtpseqno_video) _ (λ sent. refl)

abbrev StateIs : ClientState → State → Type 0
StateIs c s = s.client.state ≡ c

push_check-StateIs :
    (event : Ptr) (o : Outside) (ms : ℕ) (s : State)
    → Every (StateIs s.client.state) (push_check event o ms s)
push_check-StateIs event o ms s =
    Every-then (StateIs s.client.state)
      (push_timeout event o.now ms check_media_state s.queue s.store) _ (λ r. refl)

start_stream-SameClientState :
    (o : Outside) (s : State) → Every (SameClientState s.client.state) (start_stream o s)
unfolding start_stream
start_stream-SameClientState o s =
    let c = s.client.state in
    let s0 : State = record s { tinfo = info_live } in
    Every->>= (SameClientState c) (SameClientState c) (send_sprop o o.sps s0) _
      (send_sprop-SameClientState o o.sps s0)
      (λ (s1, a1) e1.
        Every->>= (SameClientState s1.client.state) (SameClientState c) (send_sprop o o.pps s1) _
          (send_sprop-SameClientState o o.pps s1)
          (λ (s2, a2) e2.
            Every->>= (StateIs s2.client.state) (SameClientState c) (push_check o.event1 o 100 s2) _
              (push_check-StateIs o.event1 o 100 s2)
              (λ s3 e3.
                Every->>= (StateIs s3.client.state) (SameClientState c)
                  (push_check o.event2 o 2000 s3) _ (push_check-StateIs o.event2 o 2000 s3)
                  (λ s4 e4. e4 ∙ e3 ∙ e2 ∙ e1))))

on_play-SameClientState :
    (o : Outside) (s : State) → Every (SameClientState s.client.state) (on_play o s)
unfolding on_play
on_play-SameClientState o s =
    let c = s.client.state in
    Every-if (SameClientState c) s.media_downloaded _ _
      (Every->>= (SameClientState c) (SameClientState c) (start_stream o s) _
        (start_stream-SameClientState o s) (λ r e. e))
      (Every->>= (StateIs c) (SameClientState c) (push_check o.event1 o 100 s) _
        (push_check-StateIs o.event1 o 100 s) (λ s' e. e))

on_request-MovesTo :
    (program : Program) (o : Outside) (c : ClientState) (type : RtspType) (s : State)
    → s.client.state ≡ c
    → Every (MovesTo c) (on_request program o c type s)
unfolding on_request rtsp_options
on_request-MovesTo program o cliconnected options s here =
    subst (λ d. Moves cliconnected d) (sym here) stays
on_request-MovesTo program o cliconnected describe s here = on_describe-MovesTo o s
on_request-MovesTo program o sdpsent setup s here = on_setup-MovesTo program o s here
on_request-MovesTo program o setupcomplete play s here =
    SameClientState-MovesTo setupcomplete (on_play o s)
      (subst (λ c. Every (SameClientState c) (on_play o s)) here (on_play-SameClientState o s))
on_request-MovesTo program o c type s here = subst (λ d. Moves c d) (sym here) stays

on_bytes-Left : (text : Bytes) (i : ℤ) (s : State) → Every (Left s.client.state) (on_bytes text i s)
on_bytes-Left [] i s = inr refl
on_bytes-Left (c ∷ text) i s =
    Every-then (Left s.client.state) (parse_rtsp (c_string (c ∷ text))) _ (λ r. inl refl)

on_teardown-Left :
    (o : Outside) (i : ℤ) (s : State) → Every (Left s.client.state) (on_teardown o i s)
unfolding on_teardown
on_teardown-Left o i s =
    Every-then (Left s.client.state) (empty_queue s.queue s.store) _
      (λ r. Every-then (Left s.client.state) (free_info s.tinfo) _ (λ tinfo. inr refl))

maybe_teardown-Left :
    (type : RtspType) (o : Outside) (i : ℤ) (s : State)
    → Every (Left s.client.state) (maybe_teardown type o i s)
maybe_teardown-Left teardown o i s = on_teardown-Left o i s
maybe_teardown-Left options o i s = inl refl
maybe_teardown-Left describe o i s = inl refl
maybe_teardown-Left setup o i s = inl refl
maybe_teardown-Left play o i s = inl refl
maybe_teardown-Left RtspType.ok o i s = inl refl

Left-trans :
    (c d : ClientState) (r : State × List Action) → (d ≡ c) ⊎ (d ≡ noclient) → Left d r → Left c r
Left-trans c d r (inl same) (inl same') = inl (same' ∙ same)
Left-trans c d r (inr gone) (inl same') = inr (same' ∙ gone)
Left-trans c d r before (inr gone) = inr gone

Moves-Left : (c d e : ClientState) → (d ≡ c) ⊎ (d ≡ noclient) → Moves d e → Moves c e
Moves-Left c d e (inl same) move = subst (λ b. Moves b e) same move
Moves-Left c d e (inr gone) move =
    subst (λ b. Moves c b) (sym (from_noclient e (subst (λ b. Moves b e) gone move))) leaves

-- In a turn of the client's branch that does not fault, for any message and whatever is received, the
-- client stays in its state, goes from CLICONNECTED to SDPSENT, from SDPSENT to SETUPCOMPLETE, or is
-- gone: no state is skipped, and STREAMING is never entered.
pub on_client-MovesTo :
    (program : Program) (o : Outside) (i : ℤ) (s : State)
    → Every (MovesTo s.client.state) (on_client program o i s)
unfolding on_client on_receive
on_client-MovesTo program o i s =
    let c = s.client.state in
    Every->>= (Left c) (MovesTo c) (on_bytes o.received i s) _ (on_bytes-Left o.received i s)
      (λ (s1, a1) left1.
        Every->>= (Left c) (MovesTo c) (maybe_teardown s1.rtspmsg.type o i s1) _
          (Every-mono (Left s1.client.state) (Left c) (maybe_teardown s1.rtspmsg.type o i s1)
            (maybe_teardown-Left s1.rtspmsg.type o i s1)
            (λ r left. Left-trans c s1.client.state r left1 left))
          (λ (s2, a2) left2.
            Every->>= (MovesTo s2.client.state) (MovesTo c)
              (on_request program o s2.client.state s2.rtspmsg.type s2) _
              (on_request-MovesTo program o s2.client.state s2.rtspmsg.type s2 refl)
              (λ (s3, a3) move. Moves-Left c s2.client.state s3.client.state left2 move)))
