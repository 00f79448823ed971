-- ===== src/Text/Rows.antt =====
-- A message that is written line by line, and how the loop over its lines reads it.
use http2rtsp.Prelude.{
  ℕ, zero, suc, ◌+◌, ◌≤◌, ◌<◌, ◌≡◌, ◌≢◌, refl, ◌∙◌, true, false, Option, some, ◌>>=◌, List, [], ◌∷◌,
  ◌++◌, ltb, ◌==◌, length, length-append, arith, inl, inr, Option-cases,
}
use http2rtsp.Text.{Bytes, crlf, starts_with, strstr}
use http2rtsp.Text.Message.{parsed, parse_lines, parse_message}

-- The lines, each with its end, and what follows them.
abbrev pub unlines : List Bytes → Bytes → Bytes
unlines [] rest = rest
unlines (l ∷ ls) rest = l ++ (crlf ++ unlines ls rest)

-- No byte of a line is a carriage return.
abbrev pub NoCr : Bytes → Type 0
NoCr [] = Unit
NoCr (c ∷ s) = (c ≢ 13) × NoCr s

-- A line of a message has a byte at least.
abbrev pub IsLine : Bytes → Type 0
IsLine [] = ⊥
IsLine (c ∷ s) = NoCr (c ∷ s)

abbrev pub AreLines : List Bytes → Type 0
AreLines [] = Unit
AreLines (l ∷ ls) = IsLine l × AreLines ls

pub NoCr-append : (s t : Bytes) → NoCr s → NoCr t → NoCr (s ++ t)
NoCr-append [] t h k = k
NoCr-append (c ∷ s) t (d, h) k = (d, NoCr-append s t h k)

pub strstr-crlf_line :
    (l rest : Bytes) → NoCr l → strstr crlf (l ++ (crlf ++ rest)) ≡ some (crlf ++ rest)
unfolding strstr starts_with
strstr-crlf_line [] rest clean = refl
strstr-crlf_line (c ∷ l) rest (other, clean) =
    let differs : (13 == c) ≡ false = ground arith in
    rw (differs, strstr-crlf_line l rest clean) refl

-- The empty line is not found in a line.
strstr-pass :
    (l rest : Bytes) → NoCr l → strstr (crlf ++ crlf) (l ++ rest) ≡ strstr (crlf ++ crlf) rest
unfolding strstr starts_with
strstr-pass [] rest clean = refl
strstr-pass (c ∷ l) rest (other, clean) =
    let differs : (13 == c) ≡ false = ground arith in rw (differs, strstr-pass l rest clean) refl

-- Nor at its end, if another line follows.
strstr-pass_end :
    (c : ℕ) (rest : Bytes)
    → c ≢ 13
    → strstr (crlf ++ crlf) (crlf ++ (c ∷ rest)) ≡ strstr (crlf ++ crlf) (c ∷ rest)
unfolding strstr starts_with
strstr-pass_end c rest other = let differs : (13 == c) ≡ false = ground arith in rw differs refl

pub strstr-empty_line :
    (l : Bytes) (ls : List Bytes) (rest : Bytes)
    → AreLines (l ∷ ls)
    → strstr (crlf ++ crlf) (unlines (l ∷ ls) (crlf ++ rest)) ≡ some (crlf ++ (crlf ++ rest))
unfolding strstr starts_with
strstr-empty_line [] ls rest all = absurd all.0
strstr-empty_line (c ∷ l) ([] ∷ ls) rest all = absurd all.1.0
strstr-empty_line (c ∷ l) [] rest (clean, all) =
    strstr-pass (c ∷ l) (crlf ++ (crlf ++ rest)) clean ∙ refl
strstr-empty_line (c ∷ l) ((d ∷ m) ∷ ls) rest (clean, (next, all)) =
    strstr-pass (c ∷ l) (crlf ++ unlines ((d ∷ m) ∷ ls) (crlf ++ rest)) clean
    ∙ strstr-pass_end d (m ++ (crlf ++ unlines ls (crlf ++ rest))) next.0
    ∙ strstr-empty_line (d ∷ m) ls rest (next, all)

length-unlines : (ls : List Bytes) (rest : Bytes) → length rest ≤ length (unlines ls rest)
length-unlines [] rest = omega arith
length-unlines (l ∷ ls) rest =
    omega (arith, length-unlines ls rest, length-append l (crlf ++ unlines ls rest))

-- The loop goes on before a line.
line-before_end :
    (l : Bytes) (ls : List Bytes) (rest : Bytes)
    → IsLine l
    → ltb (length (crlf ++ (crlf ++ rest))) (length (unlines (l ∷ ls) (crlf ++ rest))) ≡ true
line-before_end [] ls rest line = absurd line
line-before_end (c ∷ l) ls rest line =
    let long : 5 + length rest ≤ length (unlines ((c ∷ l) ∷ ls) (crlf ++ rest)) = omega (
      arith,
      length-append l (crlf ++ unlines ls (crlf ++ rest)),
      length-unlines ls (crlf ++ rest),
    ) in
    ground (arith, long)

module _ {ℓ} {Msg : Type ℓ} (first_line header : Msg → Bytes → Option Msg) where
  -- The headers, one line after the other, each with all that follows it.
  unfoldable pub read_lines : List Bytes → Bytes → Msg → Option Msg
  read_lines [] rest msg = some msg
  read_lines (l ∷ ls) rest msg =
      header msg (unlines (l ∷ ls) rest) >>= λ read. read_lines ls rest read

  parse_lines-read_lines :
      (fuel : ℕ) (ls : List Bytes) (msg : Msg) (rest : Bytes)
      → AreLines ls
      → length (unlines ls (crlf ++ rest)) < fuel
      → parse_lines first_line header fuel true msg
          (unlines ls (crlf ++ rest))
          (crlf ++ (crlf ++ rest))
        ≡ (read_lines ls (crlf ++ rest) msg >>= λ read. some (parsed read (crlf ++ rest)))
  unfolding parse_lines read_lines
  parse_lines-read_lines zero ls msg rest all h = absurd (omega arith)
  parse_lines-read_lines (suc fuel) [] msg rest all h =
      let done : ltb (length (crlf ++ (crlf ++ rest))) (length (crlf ++ rest)) ≡ false =
        ground arith in
      rw done refl
  parse_lines-read_lines (suc fuel) ([] ∷ ls) msg rest all h = absurd all.0
  parse_lines-read_lines (suc fuel) ((c ∷ l) ∷ ls) msg rest (clean, all) h =
      let text = unlines ((c ∷ l) ∷ ls) (crlf ++ rest) in
      let after = unlines ls (crlf ++ rest) in
      let left : length after < fuel = omega (arith, length-append l (crlf ++ after)) in
      elim (Option-cases (header msg text)) [
        | inl fault ↦ rw (line-before_end (c ∷ l) ls rest clean, fault) refl
        | inr (read, e) ↦
            rw (line-before_end (c ∷ l) ls rest clean, e, strstr-crlf_line (c ∷ l) after clean)
              (parse_lines-read_lines fuel ls read rest all left)
      ]

  -- The first line names the type and is then read as a header, too.
  named_first :
      (fuel : ℕ) (l : Bytes) (ls : List Bytes) (rest : Bytes) (empty named : Msg)
      → IsLine l
      → first_line empty (unlines (l ∷ ls) (crlf ++ rest)) ≡ some named
      → parse_lines first_line header
          (suc fuel)
          false
          empty
          (unlines (l ∷ ls) (crlf ++ rest))
          (crlf ++ (crlf ++ rest))
        ≡ parse_lines first_line header
            (suc fuel)
            true
            named
            (unlines (l ∷ ls) (crlf ++ rest))
            (crlf ++ (crlf ++ rest))
  unfolding parse_lines
  named_first fuel l ls rest empty named line first =
      rw (line-before_end l ls rest line, first) refl

  -- The headers are read one by one, behind a first line that names the type.
  pub parse_message-read_lines :
      (l : Bytes) (ls : List Bytes) (rest : Bytes) (empty named : Msg)
      → AreLines (l ∷ ls)
      → first_line empty (unlines (l ∷ ls) (crlf ++ rest)) ≡ some named
      → parse_message first_line header empty (unlines (l ∷ ls) (crlf ++ rest))
        ≡ (read_lines (l ∷ ls) (crlf ++ rest) named >>= λ read. some (parsed read (crlf ++ rest)))
  unfolding parse_message
  parse_message-read_lines l ls rest empty named all first =
      rw (parse_message, strstr-empty_line l ls rest all)
        (named_first (length text) l ls rest empty named all.0 first
          ∙ parse_lines-read_lines (suc (length text)) (l ∷ ls) named rest all (omega arith))
    where
      text : Bytes
      text = unlines (l ∷ ls) (crlf ++ rest)
