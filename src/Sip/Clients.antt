-- ===== src/Sip/Clients.antt =====
-- The SIP clients that mt_server.c serves: the table of ten slots, what each message does to it, the
-- audio frames and the final BYE.
pub mod Table
pub mod Visits
pub mod Audio
use http2rtsp.Prelude.{
  ℕ, ◌+◌, Bool, true, false, Option, none, some, ◌>>=◌, List, [], ◌∷◌, if◌then◌else◌,
}
use http2rtsp.Prelude.Int.{ℤ, pos, ◌+ℤ◌, ◌-ℤ◌, ltb_ℤ}
use http2rtsp.Text.{Bytes, streq}
use http2rtsp.Frame.{Frame}
use http2rtsp.Rtp.{send_audio_frame, buffer_prefix, u16}
use http2rtsp.Sip.{
  SipType, invite, sipok, ack, bye, SipMsg, SipClient, buflen, parsesipmsg, create_ok, create_bye,
  write_sip,
}

abbrev pub maxclients : ℕ
maxclients = 10

abbrev pub Slots : Type 0
Slots = List (Option SipClient)

-- `clientlist` and `nclients`
pub record SipServer : Type 0 where
  pub clientlist : Slots
  pub nclients : ℤ

-- What a handler sends to an address, and the sockets that it closes.
pub record Reply : Type 0 where
  pub sent : List (ℕ × Bytes)
  pub closed : List ℕ

-- The first free slot is taken; `none` if there is none.
unfoldable pub place : SipClient → Slots → Option Slots
place client [] = none
place client (none ∷ slots) = some (some client ∷ slots)
place client (some c ∷ slots) = place client slots >>= λ rest. some (some c ∷ rest)

abbrev pub has_callid : Bytes → Option SipClient → Bool
has_callid callid none = false
has_callid callid (some c) = streq c.callid callid

-- The first client with the Call-ID gets the ACK.
abbrev pub acked : SipMsg → ℕ → Option SipClient → Option SipClient
acked msg cliaddr none = none
acked msg cliaddr (some c) =
    some (record c { ackrecvd = true; from = msg.from; to = msg.to; cliaddr = cliaddr })

unfoldable pub mark_acked : SipMsg → ℕ → Slots → Slots
mark_acked msg cliaddr [] = []
mark_acked msg cliaddr (c ∷ slots) =
    let rest = mark_acked msg cliaddr slots in
    if has_callid msg.callid c then acked msg cliaddr c ∷ slots else c ∷ rest

-- The first client with the Call-ID goes, and its socket is closed; `none` if there is none.
unfoldable pub remove_client : Bytes → Slots → Option (ℕ × Slots)
remove_client callid [] = none
remove_client callid (none ∷ slots) =
    remove_client callid slots >>= λ (fd, rest). some (fd, none ∷ rest)
remove_client callid (some c ∷ slots) =
    let further = remove_client callid slots >>= λ (fd, rest). some (fd, some c ∷ rest) in
    if streq c.callid callid then some (c.sockfd, none ∷ slots) else further

abbrev pub removed : SipServer → List (ℕ × Bytes) → Option (ℕ × Slots) → SipServer × Reply
removed s sent none = (s, record { sent = sent; closed = [] })
removed s sent (some (fd, slots)) = (
  record { clientlist = slots; nclients = s.nclients -ℤ pos 1 },
  record { sent = sent; closed = fd ∷ [] },
)

abbrev pub placed_client : SipServer → Option Slots → SipServer
placed_client s none = s
placed_client s (some slots) = record { clientlist = slots; nclients = s.nclients +ℤ pos 1 }

-- The new client; `rtpfd` is the socket that `udp_connected` gives, `fresh` what `malloc` leaves.
abbrev pub new_client : SipMsg → ℕ → SipClient → SipClient
new_client msg rtpfd fresh = record fresh { callid = msg.callid; sockfd = rtpfd; ackrecvd = false }

unfoldable pub on_invite : SipMsg → ℕ → ℕ → SipClient → SipServer → Option (SipServer × Reply)
unfolding place
on_invite msg cliaddr rtpfd fresh s =
    let answered =
      (write_sip (create_ok msg) >>= λ text. some (
        placed_client s (place (new_client msg rtpfd fresh) s.clientlist),
        record { sent = (cliaddr, text) ∷ []; closed = [] },
      )) in
    if ltb_ℤ s.nclients (pos maxclients)
    then answered
    else some (s, record { sent = []; closed = [] })

unfoldable pub on_ack : SipMsg → ℕ → SipServer → SipServer × Reply
unfolding mark_acked
on_ack msg cliaddr s = (
  record s { clientlist = mark_acked msg cliaddr s.clientlist },
  record { sent = []; closed = [] },
)

-- The answer to a BYE has `buflen` bytes, the text and zeros.
unfoldable pub on_bye : SipMsg → ℕ → SipServer → Option (SipServer × Reply)
unfolding remove_client
on_bye msg cliaddr s = write_sip (create_ok msg) >>= λ text.
    some (
      removed s ((cliaddr, buffer_prefix buflen text) ∷ []) (remove_client msg.callid s.clientlist))

unfoldable pub on_sipok : SipMsg → SipServer → SipServer × Reply
unfolding remove_client
on_sipok msg s = removed s [] (remove_client msg.callid s.clientlist)

-- The dispatch on the type, whatever `parsesipmsg` returned.
unfoldable pub on_message :
    SipType → SipMsg → ℕ → ℕ → SipClient → SipServer → Option (SipServer × Reply)
on_message invite msg cliaddr rtpfd fresh s = on_invite msg cliaddr rtpfd fresh s
on_message ack msg cliaddr rtpfd fresh s = some (on_ack msg cliaddr s)
on_message bye msg cliaddr rtpfd fresh s = on_bye msg cliaddr s
on_message sipok msg cliaddr rtpfd fresh s = some (on_sipok msg s)

unfoldable pub on_sip : Bytes → ℕ → ℕ → SipClient → SipServer → Option (SipServer × Reply)
unfolding on_message
on_sip sip_inbuf cliaddr rtpfd fresh s =
    parsesipmsg sip_inbuf >>= λ (code, msg). on_message msg.type msg cliaddr rtpfd fresh s

-- An audio frame goes to each client that sent its ACK: the packets with their sockets, and the
-- sequence number afterwards.
unfoldable pub send_audio : Frame → Slots → ℕ → Option (List (ℕ × List Bytes) × ℕ)
send_audio frame [] seqnum = some ([], seqnum)
send_audio frame (none ∷ slots) seqnum = send_audio frame slots seqnum
send_audio frame (some c ∷ slots) seqnum =
    let skipped = send_audio frame slots seqnum in
    let served =
      (send_audio_frame frame seqnum >>= λ s.
      send_audio frame slots (u16 (seqnum + s.numpkts)) >>= λ (rest, after).
      some ((c.sockfd, s.packets) ∷ rest, after)) in
    if c.ackrecvd then served else skipped

-- The end of the stream: a BYE to each client that sent its ACK. `old` is `sipmsg` before.
unfoldable pub send_byes : SipMsg → Slots → Option (List (ℕ × Bytes))
send_byes old [] = some []
send_byes old (none ∷ slots) = send_byes old slots
send_byes old (some c ∷ slots) =
    let skipped = send_byes old slots in
    let served =
      (create_bye old c >>= λ msg.
      write_sip msg >>= λ text. send_byes msg slots >>= λ rest. some ((c.cliaddr, text) ∷ rest)) in
    if c.ackrecvd then served else skipped
