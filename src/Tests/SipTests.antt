-- ===== src/Tests/SipTests.antt =====
-- SIP messages and clients.
use http2rtsp.Prelude.{
  length, ◌≤◌, ◌<◌, ◌⊎◌, none, ℕ, ◌+◌, ◌≡◌, refl, true, false, some, [], ◌∷◌, ◌++◌, arith,
  replicate,
}
use http2rtsp.Prelude.Int.{pos}
use http2rtsp.Frame.{Frame, audio_frame}
use http2rtsp.Rtp.{u16}
use http2rtsp.Text.{Bytes, streq, codes, crlf, starts_with, strstr, skip_space, take_while}
use http2rtsp.Text.Message.{parse_lines, parse_message}
use http2rtsp.Text.Lines.{Ends, parse_message-Ends}
use http2rtsp.Sip.{
  create_bye, write_sip, invite, ack, bye, SipMsg, SipClient, zero_msg, parse_type, parse_header,
  parse_body, finish_sip, parsesipmsg,
}
use http2rtsp.Sip.Clients.{Slots, SipServer, Reply, on_message, on_sip, on_invite, send_audio}
use http2rtsp.Sip.Clients.Table.{IsNew, IsTable, count, on_message-IsTable}
use http2rtsp.Sip.Clients.Visits.{on_bye-on_invite}
use http2rtsp.Sip.Clients.Audio.{audio_for, send_audio-audio_for}
use http2rtsp.Sip.Bye.{create_bye-fits}
use http2rtsp.Sip.Rejected.{on_sip-rejected}

abbrev ack_text : Bytes
ack_text = codes "ACK sip:a SIP/2.0\r\nVia: v\r\nCall-ID: 17\r\n\r\n"

ack_parsed :
    parsesipmsg ack_text
    ≡ some
        (pos 0, record zero_msg { fields = 0x43; type = ack; via = codes "v"; callid = codes "17" })
unfolding parsesipmsg finish_sip parse_body parse_message parse_lines parse_type parse_header
    starts_with strstr skip_space take_while
ack_parsed = refl

parse_message-Ends_example :
    Ends parse_type parse_header zero_msg ack_text
      (parse_message parse_type parse_header zero_msg ack_text)
parse_message-Ends_example = parse_message-Ends parse_type parse_header zero_msg ack_text

abbrev fresh : SipClient
fresh = record { callid = []; sockfd = 0; ackrecvd = false; from = []; to = []; cliaddr = 0 }

abbrev listener : SipClient
listener = record fresh { callid = codes "1"; sockfd = 8; ackrecvd = true; from = codes "1" }

abbrev other : SipClient
other = record fresh { callid = codes "2"; sockfd = 9; ackrecvd = true }

abbrev slots : Slots
slots = some listener ∷ none ∷ some other ∷ replicate 7 none

abbrev two_clients : SipServer
two_clients = record { clientlist = slots; nclients = pos 2 }

abbrev message : SipMsg
message = record zero_msg { callid = codes "17"; via = codes "v" }

on_message-IsTable_example :
    (s : SipServer) × (r : Reply) × (on_message bye message 5 11 fresh two_clients ≡ some (s, r))
    × IsTable s
on_message-IsTable_example = on_message-IsTable bye message 5 11 fresh two_clients (refl, refl)

two_clients-IsNew : IsNew message.callid two_clients.clientlist
unfolding streq
two_clients-IsNew =
    (refl, (refl, (refl, (refl, (refl, (refl, (refl, (refl, (refl, (refl, tt))))))))))

on_bye-on_invite_example :
    (joined : SipServer) × (first last : Reply) × (on_message invite message 5 11 fresh two_clients
      ≡ some (joined, first))
    × (count joined.clientlist ≡ 3)
    × (on_message bye message 5 11 fresh joined ≡ some (two_clients, last))
    × (last.closed ≡ 11 ∷ [])
on_bye-on_invite_example =
    on_bye-on_invite message message 5 11 fresh two_clients (refl, refl) (omega arith)
      two_clients-IsNew refl

abbrev sound : Frame
sound = record { bytes = 1 ∷ 2 ∷ []; timestamp = 160; frametype = audio_frame }

send_audio-audio_for_example :
    (after : ℕ) × (send_audio sound slots 65535 ≡ some (audio_for sound slots 65535, after))
    × (u16 after ≡ u16 (65535 + 2))
send_audio-audio_for_example = send_audio-audio_for sound slots 65535 (omega arith)

abbrev register : Bytes
register = codes "REGISTER a\r\n\r\n"

on_sip-rejected_example :
    on_sip register 5 11 fresh two_clients ≡ on_invite zero_msg 5 11 fresh two_clients
unfolding strstr starts_with parse_type
on_sip-rejected_example =
    on_sip-rejected register (crlf ++ crlf) 5 11 fresh two_clients refl (omega arith) refl

create_bye-fits_example :
    ((61 < length (codes "1")) × (create_bye message listener ≡ none))
    ⊎ ((length (codes "1") ≤ 61)
        × ((msg : SipMsg) × (text : Bytes) × (create_bye message listener ≡ some msg)
            × (write_sip msg ≡ some text)))
create_bye-fits_example = create_bye-fits message listener
