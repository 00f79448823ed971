-- ===== src/Sip/Rejected.antt =====
-- A SIP message with a method that is not supported.
use http2rtsp.Prelude.{◌≡◌, ◌<◌, ◌++◌, ap, refl, ℕ, none, some, length, ◌>>=◌}
use http2rtsp.Prelude.Int.{negsuc}
use http2rtsp.Text.{Bytes, crlf, strstr}
use http2rtsp.Text.Lines.{parse_message-rejected}
use http2rtsp.Sip.{SipClient, parse_type, parse_header, zero_msg, parsesipmsg, finish_sip}
use http2rtsp.Sip.Clients.{SipServer, on_sip, on_message, on_invite}

parsesipmsg-rejected :
    (buffer end : Bytes)
    → strstr (crlf ++ crlf) buffer ≡ some end
    → length end < length buffer
    → parse_type zero_msg buffer ≡ none
    → parsesipmsg buffer ≡ some (negsuc 0, zero_msg)
unfolding parsesipmsg finish_sip
parsesipmsg-rejected buffer end found before unknown =
    ap (λ p. p >>= finish_sip)
      (parse_message-rejected parse_type parse_header zero_msg buffer end found before unknown)

-- A message with an empty line in it whose first line has no supported method is handled as an INVITE
-- without any field, from whatever address and in whatever state of the table.
pub on_sip-rejected :
    (buffer end : Bytes) (cliaddr rtpfd : ℕ) (fresh : SipClient) (s : SipServer)
    → strstr (crlf ++ crlf) buffer ≡ some end
    → length end < length buffer
    → parse_type zero_msg buffer ≡ none
    → on_sip buffer cliaddr rtpfd fresh s ≡ on_invite zero_msg cliaddr rtpfd fresh s
unfolding on_sip on_message
on_sip-rejected buffer end cliaddr rtpfd fresh s found before unknown =
    rw (parsesipmsg-rejected buffer end found before unknown) refl
