-- ===== src/Sip/Bye.antt =====
-- The BYE that sipfunctions.c makes, and the text that is sent for it.
use http2rtsp.Prelude.{
  ◌≡◌, ◌≤◌, ◌<◌, ◌⊎◌, inl, inr, Bool-cases, ltb→lt, refl, none, some, ◌++◌, ltb, length,
  length-append, arith,
}
use http2rtsp.Text.{Bytes, codes}
use http2rtsp.Sip.{SipMsg, SipClient, fieldlen, create_bye, write_sip}

abbrev pub via_of : Bytes → Bytes
via_of from = codes "SIP/2.0/UDP " ++ (from ++ codes ";rport;branch=z9hG4bK12345")

-- A From of more than 61 bytes overflows `via`. For any other client the BYE is made and can be
-- written, whatever the message was before.
pub create_bye-fits :
    (old : SipMsg) (client : SipClient)
    → ((61 < length client.from) × (create_bye old client ≡ none))
      ⊎ ((length client.from ≤ 61)
          × ((msg : SipMsg) × (text : Bytes) × (create_bye old client ≡ some msg)
              × (write_sip msg ≡ some text)))
unfolding create_bye write_sip
create_bye-fits old client =
    let n = length-append client.from (codes ";rport;branch=z9hG4bK12345") in
    elim (Bool-cases (ltb (length (via_of client.from)) fieldlen)) [
      | inl short ↦
          let h : length (via_of client.from) < fieldlen = ltb→lt _ _ short in
          inr (omega (arith, n, h), rw short (_, _, refl, refl))
      | inr long ↦ inl (ground (arith, n), rw long refl)
    ]
