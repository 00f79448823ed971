-- ===== src/Sip/Clients/Visits.antt =====
-- A SIP client that comes with an INVITE and goes with a BYE.
use http2rtsp.Prelude.{ℕ, suc, ◌≡◌, ◌<◌, true, some, [], ◌∷◌, refl, ap, ◌∙◌, arith}
use http2rtsp.Prelude.Int.{pos, ltb_ℤ, ◌+ℤ◌, ◌-ℤ◌}
use http2rtsp.Rtp.{buffer_prefix}
use http2rtsp.Sip.{buflen, invite, bye, SipMsg, SipClient}
use http2rtsp.Sip.Clients.{
  SipServer, Reply, maxclients, new_client, remove_client, on_message, on_invite, on_bye,
}
use http2rtsp.Sip.Clients.Table.{
  IsTable, IsNew, count, place_lem, remove-place, write_sip-create_ok, add_one, sub_one,
}

-- For a table with room and an INVITE with a Call-ID that is not in it, the BYE with the same Call-ID
-- restores the table and closes the socket of the new client, whatever free slot it had; both get an
-- answer.
pub on_bye-on_invite :
    (msg leaving : SipMsg) (cliaddr rtpfd : ℕ) (fresh : SipClient) (s : SipServer)
    → IsTable s
    → count s.clientlist < maxclients
    → IsNew msg.callid s.clientlist
    → leaving.callid ≡ msg.callid
    → (joined : SipServer) × (first last : Reply) × (on_message invite msg cliaddr rtpfd fresh s
        ≡ some (joined, first))
      × (count joined.clientlist ≡ suc (count s.clientlist))
      × (on_message bye leaving cliaddr rtpfd fresh joined ≡ some (s, last))
      × (last.closed ≡ rtpfd ∷ [])
unfolding on_message on_invite on_bye
on_bye-on_invite msg leaving cliaddr rtpfd fresh s (len, n) room new same =
    let c = new_client msg rtpfd fresh in
    let (text, e) = write_sip-create_ok msg in
    let (text2, e2) = write_sip-create_ok leaving in
    let (placed, f, g, h) = place_lem c s.clientlist (omega (arith, len)) in
    let gone : remove_client leaving.callid placed ≡ some (rtpfd, s.clientlist) =
      ap (λ i. remove_client i placed) same ∙ remove-place c s.clientlist placed new f in
    let has_room : ltb_ℤ s.nclients (pos maxclients) ≡ true = rw n (ground arith) in
    let back : s.nclients +ℤ pos 1 -ℤ pos 1 ≡ s.nclients =
      rw (n, add_one (count s.clientlist)) (sub_one (count s.clientlist)) in
    (
      record { clientlist = placed; nclients = s.nclients +ℤ pos 1 },
      record { sent = (cliaddr, text) ∷ []; closed = [] },
      record { sent = (cliaddr, buffer_prefix buflen text2) ∷ []; closed = rtpfd ∷ [] },
      rw (has_room, e, f) refl,
      g,
      rw (e2, gone, back) refl,
      refl,
    )
