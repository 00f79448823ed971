-- ===== src/Sip.antt =====
-- sipfunctions.c: SIP messages parsed, made and written. A character array holds the bytes before the
-- zero; `none` is a write behind the end of an array or a read through a null pointer.
pub mod Clients
pub mod Rejected
pub mod Bye
pub mod Rows
pub mod Heard
pub mod Readback
use Prim.Native.Nat.{bit_and, bit_or}
use http2rtsp.Prelude.{
  ℕ, ◌+◌, Bool, not, ◌&&◌, Option, none, some, ◌>>=◌, [], ◌++◌, ◌==◌, if◌then◌else◌, length, drop,
}
use http2rtsp.Prelude.Int.{ℤ, pos, negsuc, ltb_ℤ}
use http2rtsp.Text.{
  Bytes, codes, crlf, starts_with, streq, strstr, skip_space, scan_line, scan_word, scan_int,
  print_int, fits,
}
use http2rtsp.Text.Message.{Parsed, rejected, parsed, parse_message}

-- `enum sipmsgtypes`: `invite` is the zero that `memset` leaves.
pub data SipType : Type 0 where
  invite sipok ack bye : SipType

abbrev pub fieldlen : ℕ
fieldlen = 100

abbrev pub portlen : ℕ
portlen = 10

abbrev pub buflen : ℕ
buflen = 5000

-- `enum sipfields`
abbrev pub sip_type : ℕ
sip_type = 0x1

abbrev pub sip_via : ℕ
sip_via = 0x2

abbrev pub sip_from : ℕ
sip_from = 0x4

abbrev pub sip_to : ℕ
sip_to = 0x8

abbrev pub sip_cseq : ℕ
sip_cseq = 0x20

abbrev pub sip_callid : ℕ
sip_callid = 0x40

abbrev pub sip_contentlen : ℕ
sip_contentlen = 0x80

abbrev pub sip_contents : ℕ
sip_contents = 0x100

abbrev pub sip_clirtpport : ℕ
sip_clirtpport = 0x200

abbrev pub sip_contenttype : ℕ
sip_contenttype = 0x300

pub record SipMsg : Type 0 where
  pub fields : ℕ
  pub type : SipType
  pub to : Bytes
  pub from : Bytes
  pub clirtpport : Bytes
  pub via : Bytes
  pub callid : Bytes
  pub cseq : Bytes
  pub contentlen : ℤ
  pub contenttype : Bytes
  pub contents : Bytes

-- `SIPClient`; the address of the peer is a number.
pub record SipClient : Type 0 where
  pub callid : Bytes
  pub sockfd : ℕ
  pub ackrecvd : Bool
  pub from : Bytes
  pub to : Bytes
  pub cliaddr : ℕ

-- `memset(msg, 0, sizeof(SIPMsg))`
abbrev pub zero_msg : SipMsg
zero_msg = record {
  fields = 0;
  type = invite;
  to = [];
  from = [];
  clirtpport = [];
  via = [];
  callid = [];
  cseq = [];
  contentlen = pos 0;
  contenttype = [];
  contents = [];
}

-- `flags & flag`
abbrev pub has_flag : ℕ → ℕ → Bool
has_flag flags flag = not (bit_and flags flag == 0)

abbrev pub with_field : SipMsg → ℕ → SipMsg
with_field msg flag = record msg { fields = bit_or msg.fields flag }

-- The method of the first line; `none` is the one that is not supported.
unfoldable pub parse_type : SipMsg → Bytes → Option SipMsg
unfolding starts_with
parse_type msg temp =
    if starts_with (codes "INVITE") temp
    then some (with_field (record msg { type = invite }) sip_type)
    else if starts_with (codes "ACK") temp
    then some (with_field (record msg { type = ack }) sip_type)
    else if starts_with (codes "BYE") temp
    then some (with_field (record msg { type = bye }) sip_type)
    else if starts_with (codes "SIP/2.0 200 OK") temp
    then some (with_field (record msg { type = sipok }) sip_type)
    else none

-- `sscanf(temp, "Name: %[^\r]\r\n", field)` on a field of 100 bytes, where the name has `n` bytes
-- with the colon.
abbrev pub line_field : ℕ → Bytes → Bytes → Option Bytes
line_field n old temp = fits fieldlen (scan_line old (skip_space (drop n temp)))

-- The field is stored and its flag set.
abbrev pub store_field : Option Bytes → (Bytes → SipMsg) → ℕ → Option SipMsg
store_field none set flag = none
store_field (some v) set flag = some (with_field (set v) flag)

-- The ladder of tests for the headers.
unfoldable pub parse_header : SipMsg → Bytes → Option SipMsg
unfolding starts_with
parse_header msg temp =
    if starts_with (codes "From: ") temp
    then store_field (line_field 5 msg.from temp) (λ v. record msg { from = v }) sip_from
    else if starts_with (codes "Via: ") temp
    then store_field (line_field 4 msg.via temp) (λ v. record msg { via = v }) sip_via
    else if starts_with (codes "To:") temp
    then store_field (line_field 3 msg.to temp) (λ v. record msg { to = v }) sip_to
    else if starts_with (codes "CSeq: ") temp
    then store_field (line_field 5 msg.cseq temp) (λ v. record msg { cseq = v }) sip_cseq
    else if starts_with (codes "Call-ID: ") temp
    then store_field (line_field 8 msg.callid temp) (λ v. record msg { callid = v }) sip_callid
    else if starts_with (codes "Content-Length: ") temp
    then some (
        with_field (record msg { contentlen = scan_int msg.contentlen (drop 15 temp) })
          sip_contentlen)
    else if starts_with (codes "Content-Type: ") temp
    then store_field (fits fieldlen (scan_word msg.contenttype (drop 13 temp)))
        (λ v. record msg { contenttype = v }) sip_contenttype
    else some msg

-- The RTP port of the client from the body.
unfoldable pub parse_body : SipMsg → Bytes → Option SipMsg
unfolding streq strstr
parse_body msg temp =
    if ltb_ℤ (pos 0) msg.contentlen && streq msg.contenttype (codes "application/sdp")
    then store_field
        (strstr (codes "m=audio") temp >>= λ media.
          fits portlen (scan_word msg.clirtpport (drop 7 media)))
        (λ v. record msg { clirtpport = v }) sip_clirtpport
    else some msg

unfoldable pub finish_sip : Parsed SipMsg → Option (ℤ × SipMsg)
finish_sip (rejected msg) = some (negsuc 0, msg)
finish_sip (parsed msg temp) = parse_body msg temp >>= λ msg. some (pos 0, msg)

-- The value that is returned, and the message.
unfoldable pub parsesipmsg : Bytes → Option (ℤ × SipMsg)
parsesipmsg buffer = parse_message parse_type parse_header zero_msg buffer >>= finish_sip

-- `bzero(bye, sizeof(bye))` clears eight bytes, the fields and the type.
unfoldable pub create_bye : SipMsg → SipClient → Option SipMsg
create_bye old client =
    fits fieldlen (codes "SIP/2.0/UDP " ++ (client.from ++ codes ";rport;branch=z9hG4bK12345"))
    >>= λ via. some (record old {
      fields = 0;
      type = bye;
      from = client.to;
      to = client.from;
      callid = client.callid;
      cseq = codes "20 BYE";
      contentlen = pos 0;
      via = via;
    })

abbrev pub sdp : Bytes
sdp =
    codes "v=0\r\n"
    ++ (codes "o=kaisa 123456 654321 IN IP4 127.0.0.1\r\n"
        ++ (codes "s=SIP server\r\n"
            ++ (codes "c=IN IP4 127.0.0.1\r\n"
                ++ (codes "t=0 0\r\n"
                    ++ (codes "m=audio 47522 RTP/AVP 8\r\n"
                        ++ codes "a=rtpmap:8 PCMA/8000/1\r\n")))))

abbrev pub ok_content : SipType → SipMsg → SipMsg → SipMsg
ok_content invite msg ok = record ok {
  contenttype = msg.contenttype;
  contents = sdp;
  contentlen = pos (length sdp);
  fields = bit_or sip_contents sip_contenttype;
}
ok_content bye msg ok = record ok { contentlen = pos 0 }
ok_content sipok msg ok = ok
ok_content ack msg ok = ok

unfoldable pub create_ok : SipMsg → SipMsg
create_ok msg =
    let ok = ok_content msg.type msg (record zero_msg {
      type = sipok;
      via = msg.via;
      to = msg.to;
      from = msg.from;
      callid = msg.callid;
      cseq = msg.cseq;
    }) in
    with_field ok 0xef

-- `sprintf(temp, "Name: %s\r\n", value)`, with what is written behind it.
abbrev pub put : Bytes → Bytes → Bytes → Bytes
put name value rest = name ++ (value ++ (crlf ++ rest))

abbrev pub status_line : SipType → Option Bytes
status_line sipok = some (codes "SIP/2.0 200 OK")
status_line bye = some (codes "BYE sip:kaisa@localhost SIP/2.0")
status_line invite = none
status_line ack = none

-- The headers behind Max-Forwards that the flags choose, and the body.
unfoldable pub write_content : SipMsg → Bytes
unfolding print_int
write_content msg =
    let body =
      if has_flag msg.fields sip_contentlen && ltb_ℤ (pos 0) msg.contentlen
      then msg.contents ++ crlf
      else [] in
    let headers_end = crlf ++ body in
    let with_length =
      if has_flag msg.fields sip_contentlen
      then put (codes "Content-Length: ") (print_int msg.contentlen) headers_end
      else headers_end in
    if has_flag msg.fields sip_contenttype
    then put (codes "Content-Type: ") msg.contenttype with_length
    else with_length

-- `none` is the return value -1, for a type that is not handled.
unfoldable pub write_sip : SipMsg → Option Bytes
unfolding write_content
write_sip msg = status_line msg.type >>= λ status. some (
    status
    ++ (crlf
        ++ put (codes "Via: ") msg.via (
            put (codes "From: ") msg.from (
              put (codes "To: ") msg.to (
                put (codes "Call-ID: ") msg.callid (
                  put (codes "CSeq: ") msg.cseq (
                    put (codes "Contact: ") msg.to
                      (put (codes "Max-Forwards: 70") [] (write_content msg)))))))))
