-- ===== src/Text/Lines.antt =====
-- The loop over the lines of a message ends, and each line it is at has an end.
use http2rtsp.Prelude.{
  ℕ, zero, suc, ◌≤◌, ◌<◌, ◌≡◌, ◌>>=◌, ◌⊎◌, inl, inr, Bool, true, false, Option, none, some, [], ◌∷◌,
  ◌++◌, refl, subst, sym, ap, ap₂, ◌∙◌, ◌&&◌, ◌==◌, ==_iff, ltb, if◌then◌else◌, length, drop, arith,
  Option-cases, length-append, length-drop, Bool-cases,
}
use http2rtsp.Text.{Bytes, crlf, starts_with, strstr}
use http2rtsp.Text.Message.{Parsed, rejected, parsed, parse_lines, parse_message}

-- A line end that is in the text is found there or before it.
strstr-crlf :
    (pre rest : Bytes)
    → (p : Bytes) × (strstr crlf (pre ++ (crlf ++ rest)) ≡ some (p ++ (crlf ++ rest)))
      × (length p ≤ length pre)
unfolding strstr starts_with
strstr-crlf [] rest = ([], refl, omega arith)
strstr-crlf (c ∷ pre) rest = elim (Bool-cases (starts_with crlf ((c ∷ pre) ++ (crlf ++ rest)))) [
  | inl here ↦ (c ∷ pre, rw here refl, omega arith)
  | inr later ↦ (let (p, e, h) = strstr-crlf pre rest in (p, rw later e, omega arith))
]

starts_with-append : (p s : Bytes) → starts_with p s ≡ true → (t : Bytes) × (s ≡ p ++ t)
unfolding starts_with
starts_with-append [] s e = (s, refl)
starts_with-append (c ∷ p) [] e = absurd (cc)
starts_with-append (c ∷ p) (d ∷ s) e =
    let (same, more) = and_parts (c == d) (starts_with p s) e in
    let (t, f) = starts_with-append p s more in (t, ap₂ ◌∷◌ (sym ((==_iff c d).0 same)) f)
  where
    and_parts : (a b : Bool) → (a && b) ≡ true → (a ≡ true) × (b ≡ true)
    and_parts a b h = ground arith

-- What is found is in the text, and it begins with the pattern.
pub strstr-append :
    (p s t : Bytes)
    → strstr p s ≡ some t
    → (pre : Bytes) × (rest : Bytes) × (s ≡ pre ++ t) × (t ≡ p ++ rest)
unfolding strstr
strstr-append p [] t e = elim (Bool-cases (starts_with p [])) [
  | inl found ↦
      let h : [] ≡ t = cc in
      let (rest, f) = starts_with-append p [] found in ([], rest, h, sym h ∙ f)
  | inr not_found ↦ absurd (cc)
]
strstr-append p (c ∷ s) t e = elim (Bool-cases (starts_with p (c ∷ s))) [
  | inl found ↦
      let h : c ∷ s ≡ t = cc in
      let (rest, f) = starts_with-append p (c ∷ s) found in ([], rest, h, sym h ∙ f)
  | inr later ↦
      let further : strstr p s ≡ some t = cc in
      let (pre, rest, f, g) = strstr-append p s t further in (c ∷ pre, rest, ap (◌∷◌ c) f, g)
]

module _ {ℓ} {Msg : Type ℓ} (first_line header : Msg → Bytes → Option Msg) where
  -- What the loop needs of `temp`: the line end at `end` is in it, or it is not before `end`.
  abbrev AtLine : Bytes → Bytes → Type 0
  AtLine temp rest =
      (length temp ≤ length (crlf ++ rest)) ⊎ ((pre : Bytes) × (temp ≡ pre ++ (crlf ++ rest)))

  after-AtLine : (p rest : Bytes) → AtLine (drop 2 (p ++ (crlf ++ rest))) rest
  after-AtLine [] rest = inl (omega arith)
  after-AtLine (a ∷ []) rest = inl (omega arith)
  after-AtLine (a ∷ b ∷ p) rest = inr (p, refl)

  -- The message behind the test of the method, which is made in the first line only.
  abbrev pub named : Bool → Msg → Bytes → Option Msg
  named typeflag msg temp = if typeflag then some msg else first_line msg temp

  module _ (empty : Msg) (buffer : Bytes) where
    -- The lines that are read before `end`, from the start of the text: each begins behind the end of
    -- the line before it, with the message that the lines before it gave.
    pub data Visits (end : Bytes) : Bool → Msg → Bytes → Type ℓ where
      first_visit : Visits end false empty buffer
      next_visit :
          {typeflag : Bool} {msg : Msg} {temp : Bytes} (typed read : Msg) (line_end : Bytes)
          → Visits end typeflag msg temp
          → length end < length temp
          → named typeflag msg temp ≡ some typed
          → header typed temp ≡ some read
          → strstr crlf temp ≡ some line_end
          → Visits end true read (drop 2 line_end)

    -- Where the loop stops, and what it gives: `end` is reached, the method is not supported, or the
    -- header line is at fault.
    abbrev pub Stops : Bytes → Option (Parsed Msg) → Bool → Msg → Bytes → Type ℓ
    Stops end result typeflag msg temp =
        ((length temp ≤ length end) × (result ≡ some (parsed msg temp)))
        ⊎ ((length end < length temp)
            × (named typeflag msg temp ≡ none)
            × (result ≡ some (rejected msg)))
        ⊎ ((length end < length temp)
            × (typed : Msg) × (named typeflag msg temp ≡ some typed)
            × (header typed temp ≡ none)
            × (result ≡ none))

    abbrev pub StopsBefore : Bytes → Option (Parsed Msg) → Type ℓ
    StopsBefore end result =
        (typeflag : Bool) × (msg : Msg) × (temp : Bytes) × Visits end typeflag msg temp
        × Stops end result typeflag msg temp

    -- Without an empty line no line is read.
    abbrev pub Ends : Option (Parsed Msg) → Type ℓ
    Ends result =
        ((strstr (crlf ++ crlf) buffer ≡ none) × (result ≡ some (parsed empty buffer)))
        ⊎ ((end : Bytes) × (strstr (crlf ++ crlf) buffer ≡ some end) × StopsBefore end result)

    abbrev LinesStop : ℕ → Bytes → Type ℓ
    LinesStop fuel rest =
        (typeflag : Bool) (msg : Msg) (temp : Bytes)
        → length temp < fuel
        → AtLine temp rest
        → Visits (crlf ++ rest) typeflag msg temp
        → StopsBefore (crlf ++ rest)
            (parse_lines first_line header fuel typeflag msg temp (crlf ++ rest))

    line-StopsBefore :
        (fuel : ℕ) (typeflag : Bool) (msg typed : Msg) (pre rest : Bytes)
        → length (pre ++ (crlf ++ rest)) < suc fuel
        → length (crlf ++ rest) < length (pre ++ (crlf ++ rest))
        → named typeflag msg (pre ++ (crlf ++ rest)) ≡ some typed
        → Visits (crlf ++ rest) typeflag msg (pre ++ (crlf ++ rest))
        → LinesStop fuel rest
        → StopsBefore (crlf ++ rest) (
            header typed (pre ++ (crlf ++ rest)) >>= λ read.
            strstr crlf (pre ++ (crlf ++ rest)) >>= λ line_end.
            parse_lines first_line header fuel true read (drop 2 line_end) (crlf ++ rest))
    line-StopsBefore fuel typeflag msg typed pre rest h before type visit more =
        let temp = pre ++ (crlf ++ rest) in
        elim (Option-cases (header typed temp)) [
          | inl fault ↦
              rw fault (typeflag, msg, temp, visit, inr (inr (before, typed, type, fault, refl)))
          | inr (read, e) ↦
              let (p, found, shorter) = strstr-crlf pre rest in
              rw (e, found)
                (more true read (drop 2 (p ++ (crlf ++ rest)))
                  (omega (
                    arith,
                    length-drop 2 (p ++ (crlf ++ rest)),
                    length-append p (crlf ++ rest),
                    length-append pre (crlf ++ rest),
                  ))
                  (after-AtLine p rest)
                  (next_visit typed read (p ++ (crlf ++ rest)) visit before type e found))
        ]

    parse_lines-StopsBefore : (fuel : ℕ) (rest : Bytes) → LinesStop fuel rest
    unfolding parse_lines
    parse_lines-StopsBefore zero rest typeflag msg temp h at visit = absurd (omega arith)
    parse_lines-StopsBefore (suc fuel) rest typeflag msg temp h (inl past) visit =
        let e : ltb (length (crlf ++ rest)) (length temp) ≡ false = ground arith in
        rw e (typeflag, msg, temp, visit, inl (past, refl))
    parse_lines-StopsBefore (suc fuel) rest typeflag msg temp h (inr (pre, e)) visit =
        subst
          (λ t.
            length t < suc fuel
            → Visits (crlf ++ rest) typeflag msg t
            → StopsBefore (crlf ++ rest)
                (parse_lines first_line header (suc fuel) typeflag msg t (crlf ++ rest)))
          (sym e)
          (λ h visit.
            let t = pre ++ (crlf ++ rest) in
            elim (Bool-cases (ltb (length (crlf ++ rest)) (length t))) [
              | inl before ↦
                  let less : length (crlf ++ rest) < length t = ground (arith, before) in
                  elim (Option-cases (named typeflag msg t)) [
                    | inl unknown ↦
                        rw (before, unknown)
                          (typeflag, msg, t, visit, inr (inl (less, unknown, refl)))
                    | inr (typed, type) ↦
                        rw (before, type)
                          (line-StopsBefore fuel typeflag msg typed pre rest h less type visit
                            (parse_lines-StopsBefore fuel rest))
                  ]
              | inr past ↦ rw past (typeflag, msg, t, visit, inl (ground (arith, past), refl))
            ])
          h visit

    -- For any text: without an empty line the message stays empty. Else the loop reads lines from the
    -- start of the text, each behind the end of the one before it, and ends at one of them: behind the
    -- headers with the message of all lines before it, with a rejection if the first line has no
    -- supported method, and with a fault only if that header line is at fault. Neither a missing
    -- line end nor the fuel ends it.
    pub parse_message-Ends : Ends (parse_message first_line header empty buffer)
    unfolding parse_message
    parse_message-Ends = elim (Option-cases (strstr (crlf ++ crlf) buffer)) [
      | inl no_end ↦ rw (parse_message, no_end) (inl (refl, refl))
      | inr (end, found) ↦
          let (pre, rest, e, f) = strstr-append (crlf ++ crlf) buffer end found in
          rw (parse_message, found)
            (inr (
              end,
              refl,
              subst
                  (λ end.
                    StopsBefore end
                      (parse_lines first_line header (suc (length buffer)) false empty buffer end))
                  (sym f)
                  (parse_lines-StopsBefore (suc (length buffer)) (crlf ++ rest) false empty buffer
                    (omega arith) (inr (pre, e ∙ ap (λ t. pre ++ t) f)) first_visit),
            ))
    ]

  -- A first line that is not supported.
  pub parse_message-rejected :
      (empty : Msg) (buffer end : Bytes)
      → strstr (crlf ++ crlf) buffer ≡ some end
      → length end < length buffer
      → first_line empty buffer ≡ none
      → parse_message first_line header empty buffer ≡ some (rejected empty)
  unfolding parse_message parse_lines
  parse_message-rejected empty buffer end found before unknown =
      let less : ltb (length end) (length buffer) ≡ true = ground arith in
      rw (parse_message, found, less, unknown) refl
