-- ===== src/Rtsp/Rows.antt =====
-- The lines of the answers that `write_rtsp` of httpmsg.c writes.
use http2rtsp.Prelude.{
  ℕ, ◌≡◌, refl, ap, ◌∙◌, sym, append_assoc, true, Bool-cases, inl, inr, List, [], ◌∷◌, ◌++◌,
  if◌then◌else◌,
}
use http2rtsp.Text.{Bytes, codes, crlf, print_int}
use http2rtsp.Text.Rows.{unlines, NoCr, NoCr-append, IsLine, AreLines}
use http2rtsp.Rtsp.{
  RtspMsg, has_flag, put_if, write_rtsp, f_cseq, f_date, f_session, f_conttype, f_contlen,
  f_transport, f_range, f_data,
}

-- A line that is there if its flag is set.
abbrev pub row_if : ℕ → ℕ → Bytes → Bytes → List Bytes → List Bytes
row_if flags flag name value rows = if has_flag flags flag then (name ++ value) ∷ rows else rows

-- The flag, the name and the value of a header.
abbrev pub Header : Type 0
Header = ℕ × Bytes × Bytes

abbrev pub headers : RtspMsg → List Header
headers msg =
    (f_cseq, codes "CSeq: ", print_int msg.cseq)
    ∷ (f_date, codes "Date: ", msg.date)
    ∷ (f_session, codes "Session: ", print_int msg.session)
    ∷ (f_conttype, codes "Content-Type: ", msg.contenttype)
    ∷ (f_contlen, codes "Content-Length: ", print_int msg.contentlen)
    ∷ (f_transport, codes "Transport: ", msg.transport)
    ∷ (f_range, codes "Range: ", msg.range)
    ∷ []

abbrev pub rows_of : ℕ → List Header → List Bytes
rows_of flags [] = []
rows_of flags ((flag, name, value) ∷ hs) = row_if flags flag name value (rows_of flags hs)

abbrev put_all : ℕ → List Header → Bytes → Bytes
put_all flags [] rest = rest
put_all flags ((flag, name, value) ∷ hs) rest = put_if flags flag name value (put_all flags hs rest)

abbrev pub body : RtspMsg → Bytes
body msg = if has_flag msg.fields f_data then msg.data_text else []

put_all-rows_of :
    (flags : ℕ) (hs : List Header) (rest : Bytes)
    → put_all flags hs rest ≡ unlines (rows_of flags hs) rest
put_all-rows_of flags [] rest = refl
put_all-rows_of flags ((flag, name, value) ∷ hs) rest =
    let same = put_all-rows_of flags hs rest in
    elim (Bool-cases (has_flag flags flag)) [
      | inl set ↦ rw set (
          ap (λ t. name ++ (value ++ (crlf ++ t))) same
          ∙ sym (append_assoc name value (crlf ++ unlines (rows_of flags hs) rest)))
      | inr clear ↦ rw clear same
    ]

abbrev pub status : Bytes
status = codes "RTSP/1.0 200 OK"

-- The text is the status line, the lines that the flags choose, and the body behind an empty line.
pub write_rtsp-unlines :
    (msg : RtspMsg)
    → write_rtsp msg ≡ unlines (status ∷ rows_of msg.fields (headers msg)) (crlf ++ body msg)
unfolding write_rtsp
write_rtsp-unlines msg =
    ap (λ t. status ++ (crlf ++ t)) (put_all-rows_of msg.fields (headers msg) (crlf ++ body msg))

IsLine-append : (name value : Bytes) → IsLine name → NoCr value → IsLine (name ++ value)
IsLine-append [] value line clean = absurd line
IsLine-append (c ∷ name) value line clean = NoCr-append (c ∷ name) value line clean

-- What each header is that is written.
abbrev pub AreHeaders : ℕ → List Header → Type 0
AreHeaders flags [] = Unit
AreHeaders flags ((flag, name, value) ∷ hs) =
    IsLine name × (has_flag flags flag ≡ true → NoCr value) × AreHeaders flags hs

pub AreLines-rows_of :
    (flags : ℕ) (hs : List Header) → AreHeaders flags hs → AreLines (rows_of flags hs)
AreLines-rows_of flags [] all = tt
AreLines-rows_of flags ((flag, name, value) ∷ hs) (line, clean, all) =
    elim (Bool-cases (has_flag flags flag)) [
      | inl set ↦ rw set (IsLine-append name value line (clean set), AreLines-rows_of flags hs all)
      | inr clear ↦ rw clear (AreLines-rows_of flags hs all)
    ]
