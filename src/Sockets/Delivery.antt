-- ===== src/Sockets/Delivery.antt =====
-- What `send_all` of socketfunc.c and `writestr` of fileio.c hand to the system.
use http2rtsp.Prelude.{
  ℕ, zero, suc, ◌+◌, ◌-◌, ◌≤◌, ◌<◌, ◌≡◌, ◌⊎◌, inl, inr, true, false, some, List, [], ◌∷◌, ◌++◌,
  refl, sym, subst, ap, tests, Bool-cases, ◌==◌, ◌∙◌, arith, ltb, length, take, drop, take_add,
  length-drop,
}
use http2rtsp.Prelude.Int.{pos, negsuc}
use http2rtsp.Text.{Bytes}
use http2rtsp.Sockets.{
  SendResult, accepted, failed, Outcome, send_all, send_all_loop, WriteResult, wrote, interrupted,
  broken, writestr, writestr_loop,
}

take-drop : (n : ℕ) (xs : Bytes) → take n xs ++ drop n xs ≡ xs
take-drop zero xs = refl
take-drop (suc n) [] = refl
take-drop (suc n) (x ∷ xs) = ap (◌∷◌ x) (take-drop n xs)

drop-drop : (m n : ℕ) (xs : Bytes) → drop (m + n) xs ≡ drop n (drop m xs)
drop-drop zero n xs = let e : 0 + n ≡ n = omega arith in rw e
drop-drop (suc m) zero [] = let e : suc m + 0 ≡ suc m = omega arith in rw e
drop-drop (suc m) (suc n) [] = let e : suc m + suc n ≡ suc (m + suc n) = omega arith in rw e refl
drop-drop (suc m) n (x ∷ xs) =
    let e : suc m + n ≡ suc (m + n) = omega arith in rw e (drop-drop m n xs)

-- Calls that go on until `left` bytes are taken or one of them fails; each takes a byte at least and
-- no more than it is given.
abbrev pub Calls : List SendResult → ℕ → Type 0
Calls [] left = left ≡ 0
Calls (failed ∷ results) left = Unit
Calls (accepted n ∷ results) left = (left ≡ 0) ⊎ ((1 ≤ n) × (n ≤ left) × Calls results (left - n))

-- All was taken and its length is the value, or a part was and the value is -1.
abbrev pub Delivered : ℕ → Bytes → Outcome → Type 0
Delivered size buf o =
    ((o.value ≡ pos size) × (o.taken ≡ buf))
    ⊎ ((o.value ≡ negsuc 0) × ((k : ℕ) × (k < length buf) × (o.taken ≡ take k buf)))

taking-Delivered :
    (size n : ℕ) (buf : Bytes) (o : Outcome)
    → n ≤ length buf
    → Delivered size (drop n buf) o
    → Delivered size buf (record o { taken = take n buf ++ o.taken })
taking-Delivered size n buf o h (inl (v, t)) =
    inl (v, ap (λ b. take n buf ++ b) t ∙ take-drop n buf)
taking-Delivered size n buf o h (inr (v, (k, less, t))) = inr (
  v,
  (
    n + k,
    omega (arith, length-drop n buf),
    ap (λ b. take n buf ++ b) t ∙ take_add n k (n + k) buf refl,
  ),
)

drop-all : (n : ℕ) (xs : Bytes) → length xs ≤ n → drop n xs ≡ []
drop-all zero [] h = refl
drop-all zero (x ∷ xs) h = absurd (omega arith)
drop-all (suc n) [] h = refl
drop-all (suc n) (x ∷ xs) h = drop-all n xs (omega arith)

end-Delivered :
    (buf : Bytes) (sent : ℕ)
    → sent ≡ length buf
    → Delivered (length buf) (drop sent buf) (record { value = pos sent; taken = [] })
end-Delivered buf sent e = inl (ap pos e, sym (drop-all sent buf (omega arith)))

abbrev Sends : List SendResult → Bytes → ℕ → Type 0
Sends results buf sent =
    (o : Outcome) × (send_all_loop results buf false sent ≡ some o)
    × Delivered (length buf) (drop sent buf) o

send_all_loop-Delivered :
    (results : List SendResult) (buf : Bytes) (sent : ℕ)
    → sent ≤ length buf
    → Calls results (length buf - sent)
    → Sends results buf sent
unfolding send_all_loop
send_all_loop-Delivered [] buf sent h calls =
    let all : ltb sent (length buf) ≡ false = ground arith in
    (record { value = pos sent; taken = [] }, rw all refl, end-Delivered buf sent (omega arith))
send_all_loop-Delivered (failed ∷ results) buf sent h calls =
    elim (Bool-cases (ltb sent (length buf))) [
      | inl more ↦ (
        record { value = negsuc 0; taken = [] },
        rw more refl,
        inr (refl, (0, omega (tests, length-drop sent buf), refl)),
      )
      | inr all ↦ (
        record { value = pos sent; taken = [] },
        rw all refl,
        end-Delivered buf sent (ground arith),
      )
    ]
send_all_loop-Delivered (accepted n ∷ results) buf sent h (inl none_left) =
    let all : ltb sent (length buf) ≡ false = ground arith in
    (record { value = pos sent; taken = [] }, rw all refl, end-Delivered buf sent (omega arith))
send_all_loop-Delivered (accepted n ∷ results) buf sent h (inr (some_taken, fits, calls)) =
    let more : ltb sent (length buf) ≡ true = ground arith in
    let e : length buf - sent - n ≡ length buf - (sent + n) = omega arith in
    let (o, f, d) =
      send_all_loop-Delivered results buf (sent + n) (omega arith)
        (subst (Calls results) e calls) in
    (
      record o { taken = take n (drop sent buf) ++ o.taken },
      rw (more, f) refl,
      taking-Delivered (length buf) n (drop sent buf) o (omega (arith, length-drop sent buf))
          (subst (λ b. Delivered (length buf) b o) (drop-drop sent n buf) d),
    )

-- If the system takes a byte at least with each call until it fails or has all, `send_all` returns:
-- the length of the buffer, all of which was taken in order, or -1, and then a proper part from its
-- start was taken. The variable that is not initialised must not hold -1.
pub send_all-Delivered :
    (results : List SendResult) (buf : Bytes)
    → Calls results (length buf)
    → (o : Outcome) × (send_all results false buf ≡ some o) × Delivered (length buf) buf o
unfolding send_all
send_all-Delivered results buf calls =
    let e : length buf ≡ length buf - 0 = omega arith in
    send_all_loop-Delivered results buf 0 (omega arith) (subst (Calls results) e calls)

-- The same for `write`, which may be interrupted any number of times.
abbrev pub Writes : List WriteResult → ℕ → Type 0
Writes [] left = left ≡ 0
Writes (broken ∷ results) left = Unit
Writes (interrupted ∷ results) left = Writes results left
Writes (wrote n ∷ results) left = (left ≡ 0) ⊎ ((1 ≤ n) × (n ≤ left) × Writes results (left - n))

abbrev Written : List WriteResult → ℕ → Bytes → Type 0
Written results size ptr =
    (o : Outcome) × (writestr_loop results size ptr ≡ some o) × Delivered size ptr o

nothing_left : (results : List WriteResult) (size : ℕ) → Written results size []
unfolding writestr_loop
nothing_left [] size = (record { value = pos size; taken = [] }, refl, inl (refl, refl))
nothing_left (wrote n ∷ results) size =
    (record { value = pos size; taken = [] }, refl, inl (refl, refl))
nothing_left (interrupted ∷ results) size =
    (record { value = pos size; taken = [] }, refl, inl (refl, refl))
nothing_left (broken ∷ results) size =
    (record { value = pos size; taken = [] }, refl, inl (refl, refl))

writestr_loop-Delivered :
    (results : List WriteResult) (size : ℕ) (ptr : Bytes)
    → Writes results (length ptr)
    → Written results size ptr
unfolding writestr_loop
writestr_loop-Delivered results size [] calls = nothing_left results size
writestr_loop-Delivered [] size (c ∷ ptr) calls = absurd (omega arith)
writestr_loop-Delivered (broken ∷ results) size (c ∷ ptr) calls =
    (record { value = negsuc 0; taken = [] }, ground arith, inr (refl, (0, omega arith, refl)))
writestr_loop-Delivered (interrupted ∷ results) size (c ∷ ptr) calls =
    let (o, e, d) = writestr_loop-Delivered results size (c ∷ ptr) calls in
    let more : (length (c ∷ ptr) == 0) ≡ false = ground arith in (o, rw (more, e) refl, d)
writestr_loop-Delivered (wrote n ∷ results) size (c ∷ ptr) (inl none_left) = absurd (omega arith)
writestr_loop-Delivered (wrote n ∷ results) size (c ∷ ptr) (inr (some_taken, fits, calls)) =
    let (o, e, d) =
      writestr_loop-Delivered results size (drop n (c ∷ ptr))
        (subst (Writes results) (sym (length-drop n (c ∷ ptr))) calls) in
    let more : (length (c ∷ ptr) == 0) ≡ false = ground arith in
    (
      record o { taken = take n (c ∷ ptr) ++ o.taken },
      rw (more, e) refl,
      taking-Delivered size n (c ∷ ptr) o (omega arith) d,
    )

-- If the system takes a byte at least with each call that is not interrupted, until it fails or has
-- all, `writestr` returns: the length, with everything taken in order, or -1, and then a proper part
-- from its start was taken.
pub writestr-Delivered :
    (results : List WriteResult) (str : Bytes)
    → Writes results (length str)
    → (o : Outcome) × (writestr results str ≡ some o) × Delivered (length str) str o
unfolding writestr
writestr-Delivered results str calls = writestr_loop-Delivered results (length str) str calls
