-- ===== src/Rtsp/Readback.antt =====
-- The answers of httpmsg.c are read back by its own parser.
use http2rtsp.Prelude.{◌≡◌, refl, ◌∙◌, true, some, List, [], ◌∷◌, ◌++◌, if◌then◌else◌}
use http2rtsp.Prelude.Int.{pos}
use http2rtsp.Text.{Bytes, codes, crlf, starts_with}
use http2rtsp.Text.Rows.{unlines, read_lines, parse_message-read_lines}
use http2rtsp.Text.Words.{NoCr-word, clean_line, IsLine-clean_line}
use http2rtsp.Rtsp.{
  RtspMsg, ok, zero_msg, has_flag, write_rtsp, parse_type, parse_header, parse_rtsp, f_cseq,
  f_session, f_conttype, f_contlen, f_transport, f_range, f_type, finish_rtsp,
}
use http2rtsp.Rtsp.Rows.{
  headers, rows_of, body, status, write_rtsp-unlines, AreHeaders, AreLines-rows_of,
}
use http2rtsp.Rtsp.Fields.{IsReadable, NoCr-IsCount}
use http2rtsp.Rtsp.Reading.{
  noted, read_lines-cseq, read_lines-date, read_lines-session, read_lines-conttype,
  read_lines-contlen, read_lines-range, read_lines-transport,
}

-- What the parser finds in the answer: that it is one, and the fields that are written but the date.
abbrev pub understood : RtspMsg → RtspMsg
understood msg =
    let flags = msg.fields in
    record zero_msg {
      type = ok;
      fields = noted flags f_range (
          noted flags f_transport (
            noted flags f_contlen
              (noted flags f_conttype (noted flags f_session (noted flags f_cseq f_type)))));
      cseq = if has_flag flags f_cseq then msg.cseq else pos 0;
      session = if has_flag flags f_session then msg.session else pos 0;
      contenttype = if has_flag flags f_conttype then msg.contenttype else [];
      contentlen = if has_flag flags f_contlen then msg.contentlen else pos 0;
      transport = if has_flag flags f_transport then msg.transport else [];
      clirtpport = if has_flag flags f_transport then msg.clirtpport else [];
      clirtcpport = if has_flag flags f_transport then msg.clirtcpport else [];
      range = if has_flag flags f_range then msg.range else [];
    }

headers-AreHeaders : (msg : RtspMsg) → IsReadable msg → AreHeaders msg.fields (headers msg)
headers-AreHeaders msg ok_fields =
    let name = λ (s : Bytes) (h : clean_line s ≡ true). IsLine-clean_line s h in
    (
      name (codes "CSeq: ") refl,
      λ set. NoCr-IsCount msg.cseq (ok_fields.cseq_is set),
      (
        name (codes "Date: ") refl,
        ok_fields.date_is,
        (
          name (codes "Session: ") refl,
          λ set. NoCr-IsCount msg.session (ok_fields.session_is set),
          (
            name (codes "Content-Type: ") refl,
            λ set. NoCr-word msg.contenttype (ok_fields.conttype_is set).0,
            (
              name (codes "Content-Length: ") refl,
              λ set. NoCr-IsCount msg.contentlen (ok_fields.contlen_is set),
              (
                name (codes "Transport: ") refl,
                λ set. NoCr-word msg.transport (ok_fields.transport_is set).0,
                (
                  name (codes "Range: ") refl,
                  λ set. NoCr-word msg.range (ok_fields.range_is set).0,
                  tt,
                ),
              ),
            ),
          ),
        ),
      ),
    )

-- The status line names the type, and is no header.
read_lines-status :
    (rows : List Bytes) (rest : Bytes) (msg : RtspMsg)
    → read_lines parse_type parse_header (status ∷ rows) rest msg
      ≡ read_lines parse_type parse_header rows rest msg
unfolding parse_header starts_with read_lines
read_lines-status rows rest msg = refl

read_lines-understood :
    (msg : RtspMsg) (rest : Bytes)
    → IsReadable msg
    → read_lines parse_type parse_header
        (rows_of msg.fields (headers msg))
        rest
        (record zero_msg { type = ok; fields = f_type })
      ≡ some (understood msg)
unfolding read_lines
read_lines-understood msg rest readable =
    read_lines-cseq msg.fields rest _ _ msg.cseq readable.cseq_is
    ∙ read_lines-date msg.fields rest _ _ msg.date
    ∙ read_lines-session msg.fields rest _ _ msg.session readable.session_is
    ∙ read_lines-conttype msg.fields rest _ _ msg.contenttype readable.conttype_is
    ∙ read_lines-contlen msg.fields rest _ _ msg.contentlen readable.contlen_is
    ∙ read_lines-transport msg.fields rest _ _ msg.transport msg.clirtpport msg.clirtcpport
        readable.transport_is readable.rtp_is readable.rtcp_is readable.ports_are
    ∙ read_lines-range msg.fields rest _ _ msg.range readable.range_is

parse_type-status :
    (rows : List Bytes) (rest : Bytes)
    → parse_type zero_msg (unlines (status ∷ rows) rest)
      ≡ some (record zero_msg { type = ok; fields = f_type })
unfolding parse_type starts_with
parse_type-status rows rest = refl

-- An answer with fields that can be read is parsed without a fault, and what is found is what was
-- written, the date left out.
pub parse_rtsp-write_rtsp :
    (msg : RtspMsg) → IsReadable msg → parse_rtsp (write_rtsp msg) ≡ some (pos 1, understood msg)
unfolding parse_rtsp finish_rtsp
parse_rtsp-write_rtsp msg readable =
    let rows = rows_of msg.fields (headers msg) in
    let read =
      parse_message-read_lines parse_type parse_header status rows (body msg) zero_msg _
        (
          IsLine-clean_line status refl,
          AreLines-rows_of msg.fields (headers msg) (headers-AreHeaders msg readable),
        )
        (parse_type-status rows (crlf ++ body msg)) in
    rw
      (
        write_rtsp-unlines msg,
        read,
        read_lines-status,
        read_lines-understood msg (crlf ++ body msg) readable,
      )
      refl
