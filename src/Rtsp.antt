-- ===== src/Rtsp.antt =====
-- httpmsg.c: RTSP messages parsed and answered, and the HTTP request. A character array holds the
-- bytes before the zero; `none` is a write behind the end of an array or a read through a null
-- pointer.
pub mod Url
pub mod Rows
pub mod Fields
pub mod Reading
pub mod Readback
use Prim.Native.Nat.{bit_and, bit_or, bit_xor}
use http2rtsp.Prelude.{
  ℕ, ◌+◌, ◌-◌, Bool, not, Option, none, some, ◌>>=◌, [], ◌∷◌, ◌++◌, ◌==◌, if◌then◌else◌, length,
  take, drop,
}
use http2rtsp.Prelude.Int.{ℤ, pos, negsuc, ◌+ℤ◌}
use http2rtsp.Text.{
  Bytes, codes, crlf, starts_with, strstr, take_while, is_digit, keep_if_empty, scan_word, scan_int,
  print_int, fits,
}
use http2rtsp.Text.Message.{Parsed, rejected, parsed, parse_message}

-- `enum rtspmsgtypes`: `options` is the zero that `memset` leaves.
pub data RtspType : Type 0 where
  options describe setup play teardown ok : RtspType

abbrev pub urlsize : ℕ
urlsize = 500

abbrev pub fieldlen : ℕ
fieldlen = 100

abbrev pub portlen : ℕ
portlen = 10

-- `enum rtspfields`
abbrev pub f_type : ℕ
f_type = 0x1

abbrev pub f_cseq : ℕ
f_cseq = 0x2

abbrev pub f_session : ℕ
f_session = 0x4

abbrev pub f_contlen : ℕ
f_contlen = 0x8

abbrev pub f_conttype : ℕ
f_conttype = 0x10

abbrev pub f_transport : ℕ
f_transport = 0x20

abbrev pub f_range : ℕ
f_range = 0x40

abbrev pub f_date : ℕ
f_date = 0x80

abbrev pub f_data : ℕ
f_data = 0x100

-- `RTSPMsg`, without `playstart` and `playend`, which nothing uses.
pub record RtspMsg : Type 0 where
  pub fields : ℕ
  pub type : RtspType
  pub cseq : ℤ
  pub session : ℤ
  pub contentlen : ℤ
  pub transport : Bytes
  pub clirtpport : Bytes
  pub clirtcpport : Bytes
  pub date : Bytes
  pub contenttype : Bytes
  pub data_text : Bytes
  pub range : Bytes

-- `memset(msg, 0, sizeof(RTSPMsg))`
abbrev pub zero_msg : RtspMsg
zero_msg = record {
  fields = 0;
  type = options;
  cseq = pos 0;
  session = pos 0;
  contentlen = pos 0;
  transport = [];
  clirtpport = [];
  clirtcpport = [];
  date = [];
  contenttype = [];
  data_text = [];
  range = [];
}

abbrev pub has_flag : ℕ → ℕ → Bool
has_flag flags flag = not (bit_and flags flag == 0)

abbrev pub with_field : RtspMsg → ℕ → RtspMsg
with_field msg flag = record msg { fields = bit_or msg.fields flag }

abbrev pub typed : RtspMsg → RtspType → Option RtspMsg
typed msg t = some (with_field (record msg { type = t }) f_type)

-- The method of the first line; `none` is the one that is not supported.
unfoldable pub parse_type : RtspMsg → Bytes → Option RtspMsg
unfolding starts_with
parse_type msg temp =
    if starts_with (codes "OPTIONS") temp
    then typed msg options
    else if starts_with (codes "DESCRIBE") temp
    then typed msg describe
    else if starts_with (codes "SETUP") temp
    then typed msg setup
    else if starts_with (codes "PLAY") temp
    then typed msg play
    else if starts_with (codes "TEARDOWN") temp
    then typed msg teardown
    else if starts_with (codes "RTSP/1.0 200 OK") temp
    then typed msg ok
    else none

-- `%[0-9]-%[0-9]`: the second port is read only behind the first and a dash.
abbrev pub second_port : Bytes → Bytes → Bytes
second_port old [] = old
second_port old (c ∷ s) = if c == 45 then keep_if_empty old (take_while is_digit s) else old

abbrev pub scan_ports : Bytes → Bytes → Bytes → Bytes × Bytes
scan_ports old_rtp old_rtcp s =
    let first = take_while is_digit s in
    if length first == 0
    then (old_rtp, old_rtcp)
    else (first, second_port old_rtcp (drop (length first) s))

-- The branch of the Transport header. `client_port=` is looked for in the whole rest of the message.
unfoldable pub parse_transport : RtspMsg → Bytes → Option RtspMsg
unfolding strstr
parse_transport msg temp = strstr (codes "client_port=") temp >>= λ a.
    fits fieldlen (scan_word msg.transport (drop 11 temp)) >>= λ transport.
    (let ports = scan_ports msg.clirtpport msg.clirtcpport (drop 12 a) in
      fits portlen ports.0 >>= λ rtp. fits portlen ports.1 >>= λ rtcp. some (
        with_field (record msg { transport = transport; clirtpport = rtp; clirtcpport = rtcp })
          f_transport))

abbrev pub store_field : Option Bytes → (Bytes → RtspMsg) → ℕ → Option RtspMsg
store_field none set flag = none
store_field (some v) set flag = some (with_field (set v) flag)

-- The ladder of tests for the headers.
unfoldable pub parse_header : RtspMsg → Bytes → Option RtspMsg
unfolding starts_with
parse_header msg temp =
    if starts_with (codes "CSeq: ") temp
    then some (with_field (record msg { cseq = scan_int msg.cseq (drop 5 temp) }) f_cseq)
    else if starts_with (codes "Session: ") temp
    then some (with_field (record msg { session = scan_int msg.session (drop 8 temp) }) f_session)
    else if starts_with (codes "Content-Length: ") temp
    then some
        (with_field (record msg { contentlen = scan_int msg.contentlen (drop 15 temp) }) f_contlen)
    else if starts_with (codes "Content-Type: ") temp
    then store_field (fits fieldlen (scan_word msg.contenttype (drop 13 temp)))
        (λ v. record msg { contenttype = v }) f_conttype
    else if starts_with (codes "Transport: ") temp
    then parse_transport msg temp
    else if starts_with (codes "Range: ") temp
    then store_field (fits fieldlen (scan_word msg.range (drop 6 temp)))
        (λ v. record msg { range = v }) f_range
    else some msg

unfoldable pub finish_rtsp : Parsed RtspMsg → ℤ × RtspMsg
finish_rtsp (rejected msg) = (negsuc 0, msg)
finish_rtsp (parsed msg temp) = (pos 1, msg)

-- The value that is returned, and the message.
unfoldable pub parse_rtsp : Bytes → Option (ℤ × RtspMsg)
parse_rtsp buffer =
    parse_message parse_type parse_header zero_msg buffer >>= λ p. some (finish_rtsp p)

-- `sprintf(temp, "Name: %s\r\n", value)` if the flag is set, with what is written behind it.
abbrev pub put_if : ℕ → ℕ → Bytes → Bytes → Bytes → Bytes
put_if flags flag name value rest =
    if has_flag flags flag then name ++ (value ++ (crlf ++ rest)) else rest

-- The text in the buffer; its length is what the function returns.
unfoldable pub write_rtsp : RtspMsg → Bytes
unfolding print_int
write_rtsp msg =
    codes "RTSP/1.0 200 OK\r\n"
    ++ put_if msg.fields f_cseq (codes "CSeq: ") (print_int msg.cseq) (
        put_if msg.fields f_date (codes "Date: ") msg.date (
          put_if msg.fields f_session (codes "Session: ") (print_int msg.session) (
            put_if msg.fields f_conttype (codes "Content-Type: ") msg.contenttype (
              put_if msg.fields f_contlen (codes "Content-Length: ") (print_int msg.contentlen) (
                put_if msg.fields f_transport (codes "Transport: ") msg.transport (
                  put_if msg.fields f_range (codes "Range: ") msg.range
                    (crlf ++ (if has_flag msg.fields f_data then msg.data_text else []))))))))

-- The `Client` of server.h.
pub data ClientState : Type 0 where
  noclient cliconnected sdpsent setupcomplete streaming : ClientState

pub record Client : Type 0 where
  pub state : ClientState
  pub rtspfd : ℤ
  pub session : ℤ
  pub cseq : ℤ
  pub server_rtp_audio_port : ℕ
  pub server_rtp_video_port : ℕ
  pub server_rtcp_audio_port : ℕ
  pub server_rtcp_video_port : ℕ
  pub setupsreceived : ℕ
  pub videofd_rtp : ℤ
  pub videofd_rtcp : ℤ
  pub audiofd_rtp : ℤ
  pub audiofd_rtcp : ℤ

abbrev pub public_line : Bytes
public_line = codes "Public: DESCRIBE, SETUP, PLAY, TEARDOWN\r\n\r\n"

-- The last two bytes of the answer give way to the line with the methods.
unfoldable pub rtsp_options : RtspMsg → Client → Client × Bytes
rtsp_options msg client =
    let text = write_rtsp msg in
    (record client { cseq = msg.cseq +ℤ pos 1 }, take (length text - 2) text ++ public_line)

abbrev pub sdp : Bytes
sdp =
    codes "v=0\r\n"
    ++ (codes "o=testi\r\n"
        ++ (codes "s=mpeg4video\r\n"
            ++ (codes "t=0 0\r\n"
                ++ (codes "a=recvonly\r\n"
                    ++ (codes "m=audio 40408 RTP/AVP 8\r\n"
                        ++ (codes "m=video 40404 RTP/AVP 96\r\n"
                            ++ (codes "a=rtpmap:96 H264/90000\r\n"
                                ++ codes "a=fmtp:96 packetization-mode=1\r\n")))))))

-- `date` is the text of `ctime_r` without its last character. What the local `newmsg` holds before
-- is not written, since the flags say which fields are.
unfoldable pub rtsp_describe : Bytes → Client → Client × Bytes
rtsp_describe date client = (
  record client { cseq = client.cseq +ℤ pos 1 },
  write_rtsp (record zero_msg {
    fields = 0x19a;
    cseq = client.cseq;
    date = date;
    contenttype = codes "application/sdp";
    data_text = sdp;
    contentlen = pos (length sdp);
  }),
)

-- `session` is `rand() % 1000000`.
unfoldable pub rtsp_setup : ℤ → RtspMsg → Client → ℕ → ℕ → Option (Client × Bytes)
rtsp_setup session msg client rtp rtcp =
    fits fieldlen (
      msg.transport
      ++ (codes ";server_port=" ++ (print_int (pos rtp) ++ (45 ∷ print_int (pos rtcp)))))
    >>= λ transport. some (
      record client { session = session },
      write_rtsp (record msg {
        session = session;
        fields = bit_or msg.fields f_session;
        transport = transport;
      }),
    )

unfoldable pub rtsp_play : Bytes → RtspMsg → Bytes
rtsp_play date msg =
    write_rtsp (record msg { date = date; fields = bit_xor (bit_or msg.fields f_date) f_session })

unfoldable pub rtsp_teardown : RtspMsg → Bytes
rtsp_teardown msg = write_rtsp (record msg { type = ok; fields = bit_or f_session f_cseq })
