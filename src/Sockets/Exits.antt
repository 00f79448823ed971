-- ===== src/Sockets/Exits.antt =====
-- The two loops that send a whole buffer, send_all and Sendto_all.
use http2rtsp.Prelude.{
  ℕ, ◌+◌, ◌<◌, ◌≡◌, refl, Bool, false, Option, none, some, List, [], ◌∷◌, ◌++◌, arith, ltb, length,
  if◌then◌else◌, Bool-cases, inl, inr,
}
use http2rtsp.Prelude.Int.{ℤ, pos, negsuc}
use http2rtsp.Text.{Bytes}
use http2rtsp.Sockets.{
  SendResult, accepted, failed, Outcome, taking, portion, send_all, send_all_loop, Exit, returned,
  exited, exit_taking, sendto_all, sendto_all_loop,
}

-- An exit in place of a negative value.
abbrev exit_of : ℤ → Bytes → Exit
exit_of (pos n) taken = returned (record { value = pos n; taken = taken })
exit_of (negsuc n) taken = exited taken

abbrev pub exit_on_error : Option Outcome → Option Exit
exit_on_error none = none
exit_on_error (some o) = some (exit_of o.value o.taken)

exit_of-taking :
    (bytes : Bytes) (value : ℤ) (taken : Bytes)
    → exit_taking bytes (some (exit_of value taken)) ≡ some (exit_of value (bytes ++ taken))
exit_of-taking bytes (pos n) taken = refl
exit_of-taking bytes (negsuc n) taken = refl

exit_on_error-taking :
    (bytes : Bytes) (m : Option Outcome)
    → exit_taking bytes (exit_on_error m) ≡ exit_on_error (taking bytes m)
exit_on_error-taking bytes none = refl
exit_on_error-taking bytes (some o) = exit_of-taking bytes o.value o.taken

-- From the first call on the variable of `send_all` is not read before it is set.
sendto_all_loop-send_all_loop :
    (results : List SendResult) (buf : Bytes) (stale : Bool) (sent : ℕ)
    → (if ltb sent (length buf) then false else stale) ≡ false
    → sendto_all_loop results buf sent ≡ exit_on_error (send_all_loop results buf stale sent)
unfolding sendto_all_loop send_all_loop
sendto_all_loop-send_all_loop [] buf stale sent fine = elim (Bool-cases (ltb sent (length buf))) [
  | inl more ↦ rw more refl
  | inr all ↦ let clean : stale ≡ false = ground (arith, fine, all) in rw (all, clean) refl
]
sendto_all_loop-send_all_loop (failed ∷ results) buf stale sent fine =
    elim (Bool-cases (ltb sent (length buf))) [
      | inl more ↦ rw more refl
      | inr all ↦ let clean : stale ≡ false = ground (arith, fine, all) in rw (all, clean) refl
    ]
sendto_all_loop-send_all_loop (accepted n ∷ results) buf stale sent fine =
    elim (Bool-cases (ltb sent (length buf))) [
      | inl more ↦
          rw (more, sendto_all_loop-send_all_loop results buf false (sent + n) (ground arith))
            (exit_on_error-taking (portion buf sent n) (send_all_loop results buf false (sent + n)))
      | inr all ↦ let clean : stale ≡ false = ground (arith, fine, all) in rw (all, clean) refl
    ]

-- On a buffer that is not empty Sendto_all and send_all make the same calls and return the same length,
-- and where send_all returns -1 Sendto_all ends the process after the same bytes, whatever the calls
-- give; also if the calls do not come to an end.
pub sendto_all-send_all :
    (results : List SendResult) (buf : Bytes) (stale : Bool)
    → 0 < length buf
    → sendto_all results buf ≡ exit_on_error (send_all results stale buf)
unfolding sendto_all send_all
sendto_all-send_all results buf stale there =
    sendto_all_loop-send_all_loop results buf stale 0 (ground arith)
