-- ===== src/Sip/Rows.antt =====
-- The lines of the SIP messages that `write_sip` of sipfunctions.c writes, and how they are read.
use http2rtsp.Prelude.{
  ℕ, ◌<◌, ◌^◌, ◌≡◌, refl, sym, ap, ◌∙◌, append_assoc, false, some, List, [], ◌∷◌, ◌++◌, length,
  lt→ltb,
}
use http2rtsp.Prelude.Int.{pos}
use http2rtsp.Text.{
  Bytes, codes, crlf, not_cr, is_space, skip_space, scan_line, take_while, starts_with, print_int,
  fits,
}
use http2rtsp.Text.Numbers.{scan_int-print_int}
use http2rtsp.Text.Rows.{unlines, NoCr, NoCr-append, IsLine, AreLines, read_lines}
use http2rtsp.Text.Words.{
  AllPass, NoCr-AllPass, take_while-stops, IsWord, scan_word-word, scan_word-space,
}
use http2rtsp.Sip.{
  SipMsg, fieldlen, put, with_field, parse_type, parse_header, sip_via, sip_from, sip_to,
  sip_callid, sip_cseq, sip_contentlen, sip_contenttype,
}

-- The name and the value of a header.
abbrev pub Header : Type 0
Header = Bytes × Bytes

abbrev pub rows_of : List Header → List Bytes
rows_of [] = []
rows_of ((name, value) ∷ hs) = (name ++ value) ∷ rows_of hs

abbrev pub put_all : List Header → Bytes → Bytes
put_all [] rest = rest
put_all ((name, value) ∷ hs) rest = put name value (put_all hs rest)

pub put_all-rows_of :
    (hs : List Header) (rest : Bytes) → put_all hs rest ≡ unlines (rows_of hs) rest
put_all-rows_of [] rest = refl
put_all-rows_of ((name, value) ∷ hs) rest =
    ap (λ t. name ++ (value ++ (crlf ++ t))) (put_all-rows_of hs rest)
    ∙ sym (append_assoc name value (crlf ++ unlines (rows_of hs) rest))

abbrev pub AreHeaders : List Header → Type 0
AreHeaders [] = Unit
AreHeaders ((name, value) ∷ hs) = IsLine name × NoCr value × AreHeaders hs

IsLine-append : (name value : Bytes) → IsLine name → NoCr value → IsLine (name ++ value)
IsLine-append [] value line clean = absurd line
IsLine-append (c ∷ name) value line clean = NoCr-append (c ∷ name) value line clean

pub AreLines-rows_of : (hs : List Header) → AreHeaders hs → AreLines (rows_of hs)
AreLines-rows_of [] all = tt
AreLines-rows_of ((name, value) ∷ hs) (line, clean, all) =
    (IsLine-append name value line clean, AreLines-rows_of hs all)

-- A value that `%[^\r]` reads as it was printed behind a space.
abbrev pub IsText : Bytes → Type 0
IsText [] = ⊥
IsText (c ∷ s) = (is_space c ≡ false) × AllPass not_cr (c ∷ s)

abbrev pub IsField : Bytes → Type 0
IsField s = IsText s × (length s < fieldlen)

pub AllPass-IsText : (s : Bytes) → IsText s → AllPass not_cr s
AllPass-IsText [] h = absurd h
AllPass-IsText (c ∷ s) (letter, all) = all

pub NoCr-IsText : (s : Bytes) → IsText s → NoCr s
NoCr-IsText s h = NoCr-AllPass not_cr s refl (AllPass-IsText s h)

scan_line-IsText :
    (old s t : Bytes) → IsText s → scan_line old (skip_space (32 ∷ (s ++ (crlf ++ t)))) ≡ s
unfolding skip_space
scan_line-IsText old [] t h = absurd h
scan_line-IsText old (c ∷ s) t (letter, all) =
    let stops : take_while not_cr (crlf ++ t) ≡ [] = unfold take_while in refl in
    rw (letter, take_while-stops not_cr (c ∷ s) (crlf ++ t) all stops) refl

scan_line-IsField :
    (old s t : Bytes)
    → IsField s
    → fits fieldlen (scan_line old (skip_space (32 ∷ (s ++ (crlf ++ t))))) ≡ some s
scan_line-IsField old s t (text, short) = rw (scan_line-IsText old s t text, lt→ltb _ _ short) refl

module _ (rest : Bytes) (rows : List Bytes) (msg : SipMsg) where
  abbrev Reads : Bytes → Bytes → SipMsg → Type 0
  Reads name value read =
      read_lines parse_type parse_header ((name ++ value) ∷ rows) rest msg
      ≡ read_lines parse_type parse_header rows rest read

  read_lines-row :
      (name value : Bytes) (read : SipMsg)
      → parse_header msg (name ++ (value ++ (crlf ++ unlines rows rest))) ≡ some read
      → Reads name value read
  unfolding read_lines
  read_lines-row name value read there =
      rw (append_assoc name value (crlf ++ unlines rows rest), there) refl

  pub read_lines-via :
      (s : Bytes)
      → IsField s
      → Reads (codes "Via: ") s (with_field (record msg { via = s }) sip_via)
  unfolding parse_header starts_with
  read_lines-via s h =
      read_lines-row (codes "Via: ") s _
        (rw (scan_line-IsField msg.via s (unlines rows rest) h) refl)

  pub read_lines-from :
      (s : Bytes)
      → IsField s
      → Reads (codes "From: ") s (with_field (record msg { from = s }) sip_from)
  unfolding parse_header starts_with
  read_lines-from s h =
      read_lines-row (codes "From: ") s _
        (rw (scan_line-IsField msg.from s (unlines rows rest) h) refl)

  pub read_lines-to :
      (s : Bytes) → IsField s → Reads (codes "To: ") s (with_field (record msg { to = s }) sip_to)
  unfolding parse_header starts_with
  read_lines-to s h =
      read_lines-row (codes "To: ") s _ (rw (scan_line-IsField msg.to s (unlines rows rest) h) refl)

  pub read_lines-callid :
      (s : Bytes)
      → IsField s
      → Reads (codes "Call-ID: ") s (with_field (record msg { callid = s }) sip_callid)
  unfolding parse_header starts_with
  read_lines-callid s h =
      read_lines-row (codes "Call-ID: ") s _
        (rw (scan_line-IsField msg.callid s (unlines rows rest) h) refl)

  pub read_lines-cseq :
      (s : Bytes)
      → IsField s
      → Reads (codes "CSeq: ") s (with_field (record msg { cseq = s }) sip_cseq)
  unfolding parse_header starts_with
  read_lines-cseq s h =
      read_lines-row (codes "CSeq: ") s _
        (rw (scan_line-IsField msg.cseq s (unlines rows rest) h) refl)

  pub read_lines-contact : (s : Bytes) → Reads (codes "Contact: ") s msg
  unfolding parse_header starts_with
  read_lines-contact s = read_lines-row (codes "Contact: ") s _ refl

  pub read_lines-forwards : Reads (codes "Max-Forwards: 70") [] msg
  unfolding parse_header starts_with
  read_lines-forwards = read_lines-row (codes "Max-Forwards: 70") [] _ refl

  pub read_lines-contenttype :
      (s : Bytes)
      → IsWord s
      → length s < fieldlen
      → Reads
          (codes "Content-Type: ")
          s
          (with_field (record msg { contenttype = s }) sip_contenttype)
  unfolding parse_header starts_with
  read_lines-contenttype s word short = read_lines-row (codes "Content-Type: ") s _ (
      rw
        (
          scan_word-space msg.contenttype (s ++ (crlf ++ unlines rows rest)),
          scan_word-word msg.contenttype s (10 ∷ unlines rows rest) 13 word refl,
          lt→ltb _ _ short,
        )
        refl)

  pub read_lines-contentlen :
      (n : ℕ)
      → n < 2 ^ 31
      → Reads
          (codes "Content-Length: ")
          (print_int (pos n))
          (with_field (record msg { contentlen = pos n }) sip_contentlen)
  unfolding parse_header starts_with
  read_lines-contentlen n h =
      read_lines-row (codes "Content-Length: ") (print_int (pos n)) _
        (rw (scan_int-print_int msg.contentlen n 13 (10 ∷ unlines rows rest) h refl) refl)

pub read_lines-nothing :
    (rest : Bytes) (msg : SipMsg) → read_lines parse_type parse_header [] rest msg ≡ some msg
unfolding read_lines
read_lines-nothing rest msg = refl
