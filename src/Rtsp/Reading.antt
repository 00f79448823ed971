-- ===== src/Rtsp/Reading.antt =====
-- How `parse_rtsp` of httpmsg.c reads the lines that `write_rtsp` writes, one after the other.
use http2rtsp.Prelude.{
  ℕ, ◌≡◌, refl, ap, ◌∙◌, true, false, Bool-cases, inl, inr, some, List, ◌++◌, if◌then◌else◌,
  append_assoc,
}
use Prim.Native.Nat.{bit_or}
use http2rtsp.Prelude.Int.{ℤ}
use http2rtsp.Text.{Bytes, codes, crlf, print_int, starts_with}
use http2rtsp.Text.Rows.{unlines, read_lines}
use http2rtsp.Rtsp.{
  RtspMsg, has_flag, parse_type, parse_header, f_cseq, f_date, f_session, f_conttype, f_contlen,
  f_transport, f_range,
}
use http2rtsp.Rtsp.Rows.{row_if}
use http2rtsp.Rtsp.Fields.{
  IsCount, IsField, IsPort, HasPorts, scan_int-IsCount, scan_word-value, parse_transport-ports,
}

-- A line that is there if its flag is set, read by its header.
read_lines-row_if :
    (flags flag : ℕ) (name value rest : Bytes) (rows : List Bytes) (msg read : RtspMsg)
    → (has_flag flags flag ≡ true
        → parse_header msg (name ++ (value ++ (crlf ++ unlines rows rest))) ≡ some read)
    → (has_flag flags flag ≡ false → msg ≡ read)
    → read_lines parse_type parse_header (row_if flags flag name value rows) rest msg
      ≡ read_lines parse_type parse_header rows rest read
unfolding read_lines
read_lines-row_if flags flag name value rest rows msg read there absent =
    elim (Bool-cases (has_flag flags flag)) [
      | inl set ↦ rw (set, append_assoc name value (crlf ++ unlines rows rest), there set) refl
      | inr clear ↦ rw (clear) (ap (read_lines parse_type parse_header rows rest) (absent clear))
    ]

abbrev pub noted : ℕ → ℕ → ℕ → ℕ
noted flags flag known = if has_flag flags flag then bit_or known flag else known

module _ (flags : ℕ) (rest : Bytes) (rows : List Bytes) (msg : RtspMsg) where
  abbrev Reads : List Bytes → RtspMsg → Type 0
  Reads rows_here read =
      read_lines parse_type parse_header rows_here rest msg
      ≡ read_lines parse_type parse_header rows rest read

  pub read_lines-cseq :
      (n : ℤ)
      → (has_flag flags f_cseq ≡ true → IsCount n)
      → Reads (row_if flags f_cseq (codes "CSeq: ") (print_int n) rows) (record msg {
        cseq = if has_flag flags f_cseq then n else msg.cseq;
        fields = noted flags f_cseq msg.fields;
      })
  unfolding parse_header starts_with
  read_lines-cseq n h =
      read_lines-row_if flags f_cseq (codes "CSeq: ") (print_int n) rest rows msg _
        (λ set. rw (set, scan_int-IsCount msg.cseq n (unlines rows rest) (h set)) refl)
        (λ clear. rw clear refl)

  pub read_lines-date : (date : Bytes) → Reads (row_if flags f_date (codes "Date: ") date rows) msg
  unfolding parse_header starts_with
  read_lines-date date =
      read_lines-row_if flags f_date (codes "Date: ") date rest rows msg msg (λ set. refl)
        (λ clear. refl)

  pub read_lines-session :
      (n : ℤ)
      → (has_flag flags f_session ≡ true → IsCount n)
      → Reads (row_if flags f_session (codes "Session: ") (print_int n) rows) (record msg {
        session = if has_flag flags f_session then n else msg.session;
        fields = noted flags f_session msg.fields;
      })
  unfolding parse_header starts_with
  read_lines-session n h =
      read_lines-row_if flags f_session (codes "Session: ") (print_int n) rest rows msg _
        (λ set. rw (set, scan_int-IsCount msg.session n (unlines rows rest) (h set)) refl)
        (λ clear. rw clear refl)

  pub read_lines-conttype :
      (s : Bytes)
      → (has_flag flags f_conttype ≡ true → IsField s)
      → Reads (row_if flags f_conttype (codes "Content-Type: ") s rows) (record msg {
        contenttype = if has_flag flags f_conttype then s else msg.contenttype;
        fields = noted flags f_conttype msg.fields;
      })
  unfolding parse_header starts_with
  read_lines-conttype s h =
      read_lines-row_if flags f_conttype (codes "Content-Type: ") s rest rows msg _
        (λ set. rw (set, scan_word-value msg.contenttype s (unlines rows rest) (h set)) refl)
        (λ clear. rw clear refl)

  pub read_lines-contlen :
      (n : ℤ)
      → (has_flag flags f_contlen ≡ true → IsCount n)
      → Reads (row_if flags f_contlen (codes "Content-Length: ") (print_int n) rows) (record msg {
        contentlen = if has_flag flags f_contlen then n else msg.contentlen;
        fields = noted flags f_contlen msg.fields;
      })
  unfolding parse_header starts_with
  read_lines-contlen n h =
      read_lines-row_if flags f_contlen (codes "Content-Length: ") (print_int n) rest rows msg _
        (λ set. rw (set, scan_int-IsCount msg.contentlen n (unlines rows rest) (h set)) refl)
        (λ clear. rw clear refl)

  pub read_lines-range :
      (s : Bytes)
      → (has_flag flags f_range ≡ true → IsField s)
      → Reads (row_if flags f_range (codes "Range: ") s rows) (record msg {
        range = if has_flag flags f_range then s else msg.range;
        fields = noted flags f_range msg.fields;
      })
  unfolding parse_header starts_with
  read_lines-range s h =
      read_lines-row_if flags f_range (codes "Range: ") s rest rows msg _
        (λ set. rw (set, scan_word-value msg.range s (unlines rows rest) (h set)) refl)
        (λ clear. rw clear refl)

  pub read_lines-transport :
      (transport rtp rtcp : Bytes)
      → (has_flag flags f_transport ≡ true → IsField transport)
      → (has_flag flags f_transport ≡ true → IsPort rtp)
      → (has_flag flags f_transport ≡ true → IsPort rtcp)
      → (has_flag flags f_transport ≡ true → HasPorts transport rtp rtcp)
      → Reads (row_if flags f_transport (codes "Transport: ") transport rows) (record msg {
        transport = if has_flag flags f_transport then transport else msg.transport;
        clirtpport = if has_flag flags f_transport then rtp else msg.clirtpport;
        clirtcpport = if has_flag flags f_transport then rtcp else msg.clirtcpport;
        fields = noted flags f_transport msg.fields;
      })
  unfolding parse_header starts_with
  read_lines-transport transport rtp rtcp field first second ports =
      read_lines-row_if flags f_transport (codes "Transport: ") transport rest rows msg _
        (λ set.
          parse_transport-ports msg transport rtp rtcp (unlines rows rest) (field set) (first set)
            (second set) (ports set)
          ∙ rw set refl)
        (λ clear. rw clear refl)
