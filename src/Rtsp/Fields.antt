-- ===== src/Rtsp/Fields.antt =====
-- What the fields of an RTSP message hold that its parser reads as they were written.
use http2rtsp.Prelude.{
  ◌^◌, ◌<◌, ◌≡◌, refl, ap, ◌∙◌, true, false, some, [], ◌∷◌, ◌++◌, length, drop, lt→ltb, ◌==◌, arith,
  append_assoc,
}
use http2rtsp.Prelude.Int.{ℤ, pos, negsuc}
use http2rtsp.Text.{
  Bytes, codes, crlf, print_int, scan_int, scan_word, starts_with, strstr, starts_digit, is_digit,
  fits, take_while, keep_if_empty,
}
use http2rtsp.Text.Numbers.{scan_int-print_int}
use http2rtsp.Text.Rows.{NoCr}
use http2rtsp.Text.Words.{
  AllPass, IsWord, NoCr-print_int, scan_word-word, scan_word-space, take_while-stops,
  take_while-no_digit, strstr-more,
}
use http2rtsp.Rtsp.{
  RtspMsg, has_flag, with_field, parse_transport, f_cseq, f_date, f_session, f_conttype, f_contlen,
  f_transport, f_range, fieldlen, portlen, scan_ports,
}

-- A number that `%d` reads as it was printed without a sign.
abbrev pub IsCount : ℤ → Type 0
IsCount (pos n) = n < 2 ^ 31
IsCount (negsuc n) = ⊥

abbrev pub IsField : Bytes → Type 0
IsField s = IsWord s × (length s < fieldlen)

abbrev pub IsPort : Bytes → Type 0
IsPort s = AllPass is_digit s × (0 < length s) × (length s < portlen)

-- The first `client_port=` of the transport is followed by the two ports.
abbrev pub HasPorts : Bytes → Bytes → Bytes → Type 0
HasPorts transport rtp rtcp =
    (post : Bytes) × (strstr (codes "client_port=") transport
      ≡ some (codes "client_port=" ++ (rtp ++ (45 ∷ (rtcp ++ post)))))
    × (starts_digit post ≡ false)

-- What the fields that are written hold.
pub record IsReadable (msg : RtspMsg) : Type 0 where
  pub cseq_is : has_flag msg.fields f_cseq ≡ true → IsCount msg.cseq
  pub date_is : has_flag msg.fields f_date ≡ true → NoCr msg.date
  pub session_is : has_flag msg.fields f_session ≡ true → IsCount msg.session
  pub conttype_is : has_flag msg.fields f_conttype ≡ true → IsField msg.contenttype
  pub contlen_is : has_flag msg.fields f_contlen ≡ true → IsCount msg.contentlen
  pub transport_is : has_flag msg.fields f_transport ≡ true → IsField msg.transport
  pub rtp_is : has_flag msg.fields f_transport ≡ true → IsPort msg.clirtpport
  pub rtcp_is : has_flag msg.fields f_transport ≡ true → IsPort msg.clirtcpport
  pub ports_are :
      has_flag msg.fields f_transport ≡ true → HasPorts msg.transport msg.clirtpport msg.clirtcpport
  pub range_is : has_flag msg.fields f_range ≡ true → IsField msg.range

pub NoCr-IsCount : (n : ℤ) → IsCount n → NoCr (print_int n)
NoCr-IsCount (pos n) h = NoCr-print_int n
NoCr-IsCount (negsuc n) h = absurd h

pub scan_int-IsCount :
    (old n : ℤ) (t : Bytes) → IsCount n → scan_int old (32 ∷ (print_int n ++ (crlf ++ t))) ≡ n
scan_int-IsCount old (pos n) t h = scan_int-print_int old n 13 (10 ∷ t) h refl
scan_int-IsCount old (negsuc n) t h = absurd h

scan_word-IsField :
    (old s t : Bytes) → IsField s → fits fieldlen (scan_word old (s ++ (crlf ++ t))) ≡ some s
scan_word-IsField old s t (word, short) =
    rw (scan_word-word old s (10 ∷ t) 13 word refl, lt→ltb _ _ short) refl

-- The same behind a space.
pub scan_word-value :
    (old s t : Bytes) → IsField s → fits fieldlen (scan_word old (32 ∷ (s ++ (crlf ++ t)))) ≡ some s
scan_word-value old s t field =
    ap (fits fieldlen) (scan_word-space old (s ++ (crlf ++ t))) ∙ scan_word-IsField old s t field

drop-length : (s t : Bytes) → drop (length s) (s ++ t) ≡ t
drop-length [] t = refl
drop-length (c ∷ s) t = drop-length s t

starts_digit-append :
    (s t : Bytes) → starts_digit s ≡ false → starts_digit t ≡ false → starts_digit (s ++ t) ≡ false
starts_digit-append [] t here there = there
starts_digit-append (c ∷ s) t here there = here

keep_if_empty-port : (old s : Bytes) → 0 < length s → keep_if_empty old s ≡ s
keep_if_empty-port old [] h = absurd (omega (arith, h))
keep_if_empty-port old (c ∷ s) h = refl

scan_ports-ports :
    (old_rtp old_rtcp rtp rtcp t : Bytes)
    → IsPort rtp
    → IsPort rtcp
    → starts_digit t ≡ false
    → scan_ports old_rtp old_rtcp (rtp ++ (45 ∷ (rtcp ++ t))) ≡ (rtp, rtcp)
scan_ports-ports old_rtp old_rtcp rtp rtcp t (first, some_first, h) (second, some_second, k) stops =
    let dash : take_while is_digit (45 ∷ (rtcp ++ t)) ≡ [] = unfold take_while in refl in
    let e = take_while-stops is_digit rtp (45 ∷ (rtcp ++ t)) first dash in
    let f = take_while-stops is_digit rtcp t second (take_while-no_digit t stops) in
    let there : (length rtp == 0) ≡ false = ground (arith, some_first) in
    rw
      (
        e,
        there,
        drop-length rtp (45 ∷ (rtcp ++ t)),
        f,
        keep_if_empty-port old_rtcp rtcp some_second,
      )
      refl

append_ports :
    (rtp rtcp post t : Bytes)
    → (rtp ++ (45 ∷ (rtcp ++ post))) ++ t ≡ rtp ++ (45 ∷ (rtcp ++ (post ++ t)))
append_ports rtp rtcp post t =
    append_assoc rtp (45 ∷ (rtcp ++ post)) t ∙ ap (λ r. rtp ++ (45 ∷ r)) (append_assoc rtcp post t)

strstr-name :
    (s : Bytes)
    → strstr (codes "client_port=") (codes "Transport: " ++ s) ≡ strstr (codes "client_port=") s
unfolding strstr starts_with
strstr-name s = refl

pub parse_transport-ports :
    (msg : RtspMsg) (transport rtp rtcp t : Bytes)
    → IsField transport
    → IsPort rtp
    → IsPort rtcp
    → HasPorts transport rtp rtcp
    → parse_transport msg (codes "Transport: " ++ (transport ++ (crlf ++ t)))
      ≡ some (
          with_field
            (record msg { transport = transport; clirtpport = rtp; clirtcpport = rtcp })
            f_transport)
unfolding parse_transport
parse_transport-ports msg transport rtp rtcp t field first second (post, found, stops) =
    let after = starts_digit-append post (crlf ++ t) stops refl in
    let e : strstr (codes "client_port=") (codes "Transport: " ++ (transport ++ (crlf ++ t)))
        ≡ some (codes "client_port=" ++ (rtp ++ (45 ∷ (rtcp ++ (post ++ (crlf ++ t)))))) =
      strstr-name (transport ++ (crlf ++ t))
      ∙ strstr-more (codes "client_port=") transport _ (crlf ++ t) found
      ∙ ap (λ r. some (codes "client_port=" ++ r)) (append_ports rtp rtcp post (crlf ++ t)) in
    rw
      (
        e,
        scan_word-IsField msg.transport transport t field,
        scan_ports-ports msg.clirtpport msg.clirtcpport rtp rtcp (post ++ (crlf ++ t)) first second
            after,
        lt→ltb _ _ first.2,
        lt→ltb _ _ second.2,
      )
      refl
