-- ===== src/Sip/Heard.antt =====
-- What the parser of sipfunctions.c knows behind the headers that each written message has.
use http2rtsp.Prelude.{◌≡◌, refl, ◌∙◌, true, some, ◌>>=◌, List, [], ◌∷◌, ◌++◌}
use http2rtsp.Prelude.Int.{pos}
use http2rtsp.Text.{Bytes, codes, crlf, starts_with}
use http2rtsp.Text.Rows.{unlines, AreLines, read_lines, parse_message-read_lines}
use http2rtsp.Text.Words.{clean_line, IsLine-clean_line}
use http2rtsp.Sip.{
  SipType, sipok, bye, SipMsg, zero_msg, parse_type, parse_header, parse_body, finish_sip,
  parsesipmsg,
}
use http2rtsp.Sip.Rows.{
  Header, rows_of, put_all, put_all-rows_of, AreHeaders, AreLines-rows_of, IsField, NoCr-IsText,
  read_lines-via, read_lines-from, read_lines-to, read_lines-callid, read_lines-cseq,
  read_lines-contact, read_lines-forwards,
}

-- The fields that each message is written with can be read.
pub record IsReadable (msg : SipMsg) : Type 0 where
  pub via_is : IsField msg.via
  pub from_is : IsField msg.from
  pub to_is : IsField msg.to
  pub callid_is : IsField msg.callid
  pub cseq_is : IsField msg.cseq

abbrev pub headers : SipMsg → List Header → List Header
headers msg hs =
    (codes "Via: ", msg.via)
    ∷ (codes "From: ", msg.from)
    ∷ (codes "To: ", msg.to)
    ∷ (codes "Call-ID: ", msg.callid)
    ∷ (codes "CSeq: ", msg.cseq)
    ∷ (codes "Contact: ", msg.to)
    ∷ (codes "Max-Forwards: 70", [])
    ∷ hs

headers-AreHeaders :
    (msg : SipMsg) (hs : List Header) → IsReadable msg → AreHeaders hs → AreHeaders (headers msg hs)
headers-AreHeaders msg hs h all =
    let name = λ (s : Bytes) (c : clean_line s ≡ true). IsLine-clean_line s c in
    let to = NoCr-IsText msg.to h.to_is.0 in
    (
      name (codes "Via: ") refl,
      NoCr-IsText msg.via h.via_is.0,
      (
        name (codes "From: ") refl,
        NoCr-IsText msg.from h.from_is.0,
        (
          name (codes "To: ") refl,
          to,
          (
            name (codes "Call-ID: ") refl,
            NoCr-IsText msg.callid h.callid_is.0,
            (
              name (codes "CSeq: ") refl,
              NoCr-IsText msg.cseq h.cseq_is.0,
              (name (codes "Contact: ") refl, to, (name (codes "Max-Forwards: 70") refl, tt, all)),
            ),
          ),
        ),
      ),
    )

-- What the parser knows behind the headers that each message has.
abbrev pub heard : SipType → SipMsg → SipMsg
heard t msg = record zero_msg {
  fields = 0x6f;
  type = t;
  via = msg.via;
  from = msg.from;
  to = msg.to;
  callid = msg.callid;
  cseq = msg.cseq;
}

read_lines-heard :
    (t : SipType) (msg : SipMsg) (hs : List Header) (rest : Bytes)
    → IsReadable msg
    → read_lines parse_type parse_header
        (rows_of (headers msg hs))
        rest
        (record zero_msg { fields = 1; type = t })
      ≡ read_lines parse_type parse_header (rows_of hs) rest (heard t msg)
read_lines-heard t msg hs rest h =
    read_lines-via rest _ _ msg.via h.via_is
    ∙ read_lines-from rest _ _ msg.from h.from_is
    ∙ read_lines-to rest _ _ msg.to h.to_is
    ∙ read_lines-callid rest _ _ msg.callid h.callid_is
    ∙ read_lines-cseq rest _ _ msg.cseq h.cseq_is
    ∙ read_lines-contact rest _ _ msg.to
    ∙ read_lines-forwards rest _ _

-- The first line names the type, and is no header.
abbrev pub Named : SipType → Bytes → Type 0
Named t status =
    (rest : Bytes) (rows : List Bytes)
    → (parse_type zero_msg (unlines (status ∷ rows) rest)
        ≡ some (record zero_msg { fields = 1; type = t }))
      × (read_lines parse_type parse_header (status ∷ rows) rest
            (record zero_msg { fields = 1; type = t })
          ≡ read_lines parse_type parse_header rows rest (record zero_msg { fields = 1; type = t }))

-- The text of a message that is written, parsed up to its body.
pub parse_heard :
    (t : SipType) (status : Bytes) (msg read : SipMsg) (hs : List Header) (rest : Bytes)
    → clean_line status ≡ true
    → Named t status
    → IsReadable msg
    → AreHeaders hs
    → read_lines parse_type parse_header (rows_of hs) (crlf ++ rest) (heard t msg) ≡ some read
    → parsesipmsg (status ++ (crlf ++ put_all (headers msg hs) (crlf ++ rest)))
      ≡ (parse_body read (crlf ++ rest) >>= λ m. some (pos 0, m))
unfolding parsesipmsg finish_sip
parse_heard t status msg read hs rest line named h all e =
    let rows = rows_of (headers msg hs) in
    let lines : AreLines (status ∷ rows) = (
      IsLine-clean_line status line,
      AreLines-rows_of (headers msg hs) (headers-AreHeaders msg hs h all),
    ) in
    let done =
      parse_message-read_lines parse_type parse_header status rows rest zero_msg _ lines
        (named (crlf ++ rest) rows).0 in
    rw
      (
        put_all-rows_of (headers msg hs) (crlf ++ rest),
        done,
        (named (crlf ++ rest) rows).1,
        read_lines-heard t msg hs (crlf ++ rest) h,
        e,
      )
      refl

pub Named-bye : Named bye (codes "BYE sip:kaisa@localhost SIP/2.0")
unfolding parse_type parse_header starts_with read_lines
Named-bye rest rows = (refl, refl)

pub Named-sipok : Named sipok (codes "SIP/2.0 200 OK")
unfolding parse_type parse_header starts_with read_lines
Named-sipok rest rows = (refl, refl)
