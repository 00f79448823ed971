-- ===== src/Sip/Readback.antt =====
-- The messages that sipfunctions.c makes are read back by its own parser.
use http2rtsp.Prelude.{
  ◌<◌, ◌≡◌, refl, ap, ◌∙◌, some, ◌>>=◌, List, [], ◌∷◌, ◌++◌, length, Bool-cases, inl, inr,
  if◌then◌else◌, arith,
}
use http2rtsp.Prelude.Int.{pos}
use http2rtsp.Text.{
  Bytes, codes, crlf, starts_with, streq, strstr, print_int, skip_space, take_while,
}
use http2rtsp.Text.Words.{IsWord, NoCr-word, IsLine-clean_line, NoCr-print_int}
use http2rtsp.Sip.{
  invite, sipok, bye, SipMsg, SipClient, zero_msg, fieldlen, parse_body, parsesipmsg, create_ok,
  write_content, write_sip, sdp,
}
use http2rtsp.Sip.Bye.{via_of}
use http2rtsp.Sip.Rows.{
  Header, put_all, AreHeaders, read_lines-contenttype, read_lines-contentlen, read_lines-nothing,
}
use http2rtsp.Sip.Heard.{IsReadable, headers, heard, parse_heard, Named-sipok}

-- What a BYE says to the client.
abbrev pub bye_of : SipClient → SipMsg
bye_of client = record zero_msg {
  fields = 0x6f;
  type = bye;
  via = via_of client.from;
  from = client.to;
  to = client.from;
  callid = client.callid;
  cseq = codes "20 BYE";
}

-- What the answer to an INVITE says.
abbrev pub answered : SipMsg → SipMsg
answered msg = record (heard sipok msg) {
  fields = 0x3ef;
  contenttype = msg.contenttype;
  contentlen = pos (length sdp);
  clirtpport = if streq msg.contenttype (codes "application/sdp") then codes "47522" else [];
}

abbrev content_headers : SipMsg → List Header
content_headers msg =
    (codes "Content-Type: ", msg.contenttype)
    ∷ (codes "Content-Length: ", print_int (pos (length sdp)))
    ∷ []

content_headers-AreHeaders :
    (msg : SipMsg) → IsWord msg.contenttype → AreHeaders (content_headers msg)
content_headers-AreHeaders msg word = (
  IsLine-clean_line (codes "Content-Type: ") refl,
  NoCr-word msg.contenttype word,
  (IsLine-clean_line (codes "Content-Length: ") refl, NoCr-print_int (length sdp), tt),
)

abbrev ok_text : SipMsg → Bytes
ok_text msg =
    codes "SIP/2.0 200 OK"
    ++ (crlf ++ put_all (headers msg (content_headers msg)) (crlf ++ (sdp ++ crlf)))

write_sip-ok_text :
    (msg : SipMsg) → msg.type ≡ invite → write_sip (create_ok msg) ≡ some (ok_text msg)
unfolding write_sip create_ok write_content
write_sip-ok_text msg e = rw e refl

parse_body-sdp :
    (msg : SipMsg)
    → parse_body
        (record (heard sipok msg) {
          fields = 0x3ef;
          contenttype = msg.contenttype;
          contentlen = pos (length sdp);
        })
        (crlf ++ (sdp ++ crlf))
      ≡ some (answered msg)
unfolding parse_body strstr starts_with skip_space take_while
parse_body-sdp msg = elim (Bool-cases (streq msg.contenttype (codes "application/sdp"))) [
  | inl sdp_type ↦ rw sdp_type refl
  | inr other ↦ rw other refl
]

-- The answer to an INVITE is written and read back, with the port of the server's audio in it if the
-- client named the type of its body as SDP.
pub create_ok-parsesipmsg :
    (msg : SipMsg)
    → msg.type ≡ invite
    → IsReadable msg
    → IsWord msg.contenttype
    → length msg.contenttype < fieldlen
    → (text : Bytes) × (write_sip (create_ok msg) ≡ some text)
      × (parsesipmsg text ≡ some (pos 0, answered msg))
create_ok-parsesipmsg msg e h word short = (
  ok_text msg,
  write_sip-ok_text msg e,
  parse_heard sipok (codes "SIP/2.0 200 OK") msg _ (content_headers msg) (sdp ++ crlf) refl
        Named-sipok h (content_headers-AreHeaders msg word)
        (read_lines-contenttype (crlf ++ (sdp ++ crlf)) _ _ msg.contenttype word short
          ∙ read_lines-contentlen (crlf ++ (sdp ++ crlf)) _ _ (length sdp) (omega arith)
          ∙ read_lines-nothing (crlf ++ (sdp ++ crlf)) _)
      ∙ ap (λ m. m >>= λ read. some (pos 0, read)) (parse_body-sdp msg),
)
