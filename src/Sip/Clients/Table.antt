-- ===== src/Sip/Clients/Table.antt =====
-- The table of the clients in mt_server.c: its count, and a client that comes and goes.
use http2rtsp.Prelude.{
  ℕ, suc, ◌<◌, ◌≡◌, ◌⊎◌, inl, inr, true, false, Option, none, some, List, [], ◌∷◌, refl, ap, ◌∙◌,
  length, arith, Bool-cases, Option-cases, ==_iff, tests,
}
use http2rtsp.Prelude.Int.{pos, ◌+ℤ◌, ◌-ℤ◌, ltb_ℤ}
use http2rtsp.Text.{Bytes, streq}
use http2rtsp.Rtp.{buffer_prefix}
use http2rtsp.Sip.{
  SipType, invite, sipok, ack, bye, SipMsg, SipClient, buflen, ok_content, create_ok, write_sip,
}
use http2rtsp.Sip.Clients.{
  Slots, SipServer, Reply, maxclients, place, mark_acked, has_callid, remove_client, removed,
  new_client, on_invite, on_ack, on_bye, on_sipok, on_message,
}

abbrev pub count : Slots → ℕ
count [] = 0
count (none ∷ slots) = count slots
count (some c ∷ slots) = suc (count slots)

-- Ten slots, and `nclients` counts those that are taken.
abbrev pub IsTable : SipServer → Type 0
IsTable s = (length s.clientlist ≡ maxclients) × (s.nclients ≡ pos (count s.clientlist))

pub place_lem :
    (c : SipClient) (slots : Slots)
    → count slots < length slots
    → (placed : Slots) × (place c slots ≡ some placed)
      × (count placed ≡ suc (count slots))
      × (length placed ≡ length slots)
unfolding place
place_lem c [] h = absurd (omega arith)
place_lem c (none ∷ slots) h = (some c ∷ slots, refl, refl, refl)
place_lem c (some d ∷ slots) h =
    let (placed, e, f, g) = place_lem c slots (omega arith) in
    (some d ∷ placed, rw e refl, ap suc f, ap suc g)

mark_acked_lem :
    (msg : SipMsg) (cliaddr : ℕ) (slots : Slots)
    → (count (mark_acked msg cliaddr slots) ≡ count slots)
      × (length (mark_acked msg cliaddr slots) ≡ length slots)
unfolding mark_acked
mark_acked_lem msg cliaddr [] = (refl, refl)
mark_acked_lem msg cliaddr (none ∷ slots) =
    let (e, f) = mark_acked_lem msg cliaddr slots in (e, ap suc f)
mark_acked_lem msg cliaddr (some c ∷ slots) = elim (Bool-cases (streq c.callid msg.callid)) [
  | inl found ↦ (rw found refl, rw found refl)
  | inr other ↦
      let (e, f) = mark_acked_lem msg cliaddr slots in (rw other (ap suc e), rw other (ap suc f))
]

abbrev Removes : Bytes → Slots → Type 0
Removes callid slots =
    (remove_client callid slots ≡ none)
    ⊎ ((fd : ℕ) × (rest : Slots) × (remove_client callid slots ≡ some (fd, rest))
        × (suc (count rest) ≡ count slots)
        × (length rest ≡ length slots))

remove_client_lem : (callid : Bytes) (slots : Slots) → Removes callid slots
unfolding remove_client
remove_client_lem callid [] = inl refl
remove_client_lem callid (none ∷ slots) = elim (remove_client_lem callid slots) [
  | inl e ↦ inl (rw e refl)
  | inr (fd, rest, e, f, g) ↦ inr (fd, none ∷ rest, rw e refl, f, ap suc g)
]
remove_client_lem callid (some c ∷ slots) = elim (Bool-cases (streq c.callid callid)) [
  | inl found ↦ inr (c.sockfd, none ∷ slots, rw found refl, refl, refl)
  | inr other ↦ elim (remove_client_lem callid slots) [
    | inl e ↦ inl (rw (other, e) refl)
    | inr (fd, rest, e, f, g) ↦ inr (fd, some c ∷ rest, rw (other, e) refl, ap suc f, ap suc g)
  ]
]

pub sub_one : (k : ℕ) → pos (suc k) -ℤ pos 1 ≡ pos k
unfolding ◌-ℤ◌
sub_one k = ground arith

pub add_one : (k : ℕ) → pos k +ℤ pos 1 ≡ pos (suc k)
unfolding ◌+ℤ◌
add_one k = ground arith

removed-IsTable :
    (s : SipServer) (sent : List (ℕ × Bytes)) (callid : Bytes)
    → IsTable s
    → IsTable (removed s sent (remove_client callid s.clientlist)).0
removed-IsTable s sent callid (len, n) = elim (remove_client_lem callid s.clientlist) [
  | inl e ↦ rw e (len, n)
  | inr (fd, rest, e, f, g) ↦ rw e (g ∙ len, rw (n, ← f) (sub_one (count rest)))
]

ok_content-type : (t : SipType) (msg ok : SipMsg) → (ok_content t msg ok).type ≡ ok.type
ok_content-type invite msg ok = refl
ok_content-type sipok msg ok = refl
ok_content-type ack msg ok = refl
ok_content-type bye msg ok = refl

create_ok-type : (msg : SipMsg) → (create_ok msg).type ≡ sipok
unfolding create_ok
create_ok-type msg = ok_content-type msg.type msg _

write_sip-sipok : (m : SipMsg) → m.type ≡ sipok → (text : Bytes) × (write_sip m ≡ some text)
unfolding write_sip
write_sip-sipok m e = rw e (_, refl)

-- Every answer can be written.
pub write_sip-create_ok : (msg : SipMsg) → (text : Bytes) × (write_sip (create_ok msg) ≡ some text)
write_sip-create_ok msg = write_sip-sipok (create_ok msg) (create_ok-type msg)

abbrev Handles : Option (SipServer × Reply) → Type 0
Handles result = (s : SipServer) × (r : Reply) × (result ≡ some (s, r)) × IsTable s

count-less :
    (s : SipServer)
    → IsTable s
    → ltb_ℤ s.nclients (pos maxclients) ≡ true
    → count s.clientlist < length s.clientlist
count-less s (len, n) room =
    let h : ltb_ℤ (pos (count s.clientlist)) (pos maxclients) ≡ true = rw n at room in
    omega (tests, len)

on_invite-IsTable :
    (msg : SipMsg) (cliaddr rtpfd : ℕ) (fresh : SipClient) (s : SipServer)
    → IsTable s
    → Handles (on_invite msg cliaddr rtpfd fresh s)
unfolding on_invite
on_invite-IsTable msg cliaddr rtpfd fresh s (len, n) =
    let less : ltb_ℤ s.nclients (pos maxclients) ≡ true → count s.clientlist < length s.clientlist =
      λ room. count-less s (len, n) room in
    elim (Bool-cases (ltb_ℤ s.nclients (pos maxclients))) [
      | inl room ↦
          let (text, e) = write_sip-create_ok msg in
          let (placed, f, g, h) = place_lem (new_client msg rtpfd fresh) s.clientlist (less room) in
          (
            record { clientlist = placed; nclients = s.nclients +ℤ pos 1 },
            record { sent = (cliaddr, text) ∷ []; closed = [] },
            rw (room, e, f) refl,
            (h ∙ len, rw (n, g) (add_one (count s.clientlist))),
          )
      | inr full ↦ (s, record { sent = []; closed = [] }, rw full refl, (len, n))
    ]

-- Every message is handled, and leaves a table.
pub on_message-IsTable :
    (type : SipType) (msg : SipMsg) (cliaddr rtpfd : ℕ) (fresh : SipClient) (s : SipServer)
    → IsTable s
    → Handles (on_message type msg cliaddr rtpfd fresh s)
unfolding on_message on_ack on_bye on_sipok
on_message-IsTable invite msg cliaddr rtpfd fresh s t =
    on_invite-IsTable msg cliaddr rtpfd fresh s t
on_message-IsTable ack msg cliaddr rtpfd fresh s (len, n) =
    let (e, f) = mark_acked_lem msg cliaddr s.clientlist in
    (
      record s { clientlist = mark_acked msg cliaddr s.clientlist },
      record { sent = []; closed = [] },
      refl,
      (f ∙ len, rw e n),
    )
on_message-IsTable bye msg cliaddr rtpfd fresh s t =
    let (text, e) = write_sip-create_ok msg in
    let sent = (cliaddr, buffer_prefix buflen text) ∷ [] in
    let r = removed s sent (remove_client msg.callid s.clientlist) in
    (r.0, r.1, rw e refl, removed-IsTable s sent msg.callid t)
on_message-IsTable sipok msg cliaddr rtpfd fresh s t =
    let r = removed s [] (remove_client msg.callid s.clientlist) in
    (r.0, r.1, refl, removed-IsTable s [] msg.callid t)

streq_refl : (s : Bytes) → streq s s ≡ true
unfolding streq
streq_refl [] = refl
streq_refl (c ∷ s) = rw ((==_iff c c).1 refl) (streq_refl s)

-- No client in the table has the Call-ID.
abbrev pub IsNew : Bytes → Slots → Type 0
IsNew callid [] = Unit
IsNew callid (c ∷ slots) = (has_callid callid c ≡ false) × IsNew callid slots

pub remove-place :
    (c : SipClient) (slots placed : Slots)
    → IsNew c.callid slots
    → place c slots ≡ some placed
    → remove_client c.callid placed ≡ some (c.sockfd, slots)
unfolding place remove_client
remove-place c [] placed new e = absurd (cc)
remove-place c (none ∷ slots) placed (h, new) e =
    let f : some c ∷ slots ≡ placed = cc in rw (← f, streq_refl c.callid) refl
remove-place c (some d ∷ slots) placed (h, new) e = elim (Option-cases (place c slots)) [
  | inl full ↦ let f : place c (some d ∷ slots) ≡ none = rw full refl in absurd (cc)
  | inr (rest, g) ↦
      let f : some d ∷ rest ≡ placed = cc in rw (← f, h, remove-place c slots rest new g) refl
]
