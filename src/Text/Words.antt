-- ===== src/Text/Words.antt =====
-- A word or a number that a message carries: where `scanf` stops, and that no line ends in it.
use http2rtsp.Prelude.{
  ℕ, zero, suc, ◌+◌, ◌/◌, ◌%◌, ◌≤◌, ◌≡◌, refl, ap, ◌∙◌, Bool, true, false, not, some, [], ◌∷◌, ◌++◌,
  ltb, length, length-append, arith, Bool-cases, inl, inr, ◌&&◌,
}
use http2rtsp.Prelude.Int.{pos}
use http2rtsp.Text.{
  Bytes, not_cr, is_space, is_digit, starts_digit, skip_space, take_while, scan_word, starts_with,
  strstr, digits, print_int,
}
use http2rtsp.Text.Lines.{strstr-append}
use http2rtsp.Text.Rows.{NoCr, NoCr-append, IsLine}

-- Every byte passes the test.
abbrev pub AllPass : (ℕ → Bool) → Bytes → Type 0
AllPass f [] = Unit
AllPass f (c ∷ s) = (f c ≡ true) × AllPass f s

abbrev pub in_word : ℕ → Bool
in_word c = not (is_space c)

-- A byte at least, and none that is a space.
abbrev pub IsWord : Bytes → Type 0
IsWord [] = ⊥
IsWord (c ∷ s) = AllPass in_word (c ∷ s)

pub NoCr-AllPass : (f : ℕ → Bool) (s : Bytes) → f 13 ≡ false → AllPass f s → NoCr s
NoCr-AllPass f [] stops all = tt
NoCr-AllPass f (c ∷ s) stops (here, all) =
    (λ e. cc (here, stops, ap f e), NoCr-AllPass f s stops all)

-- The test of a text that is known.
abbrev pub all_pass : (ℕ → Bool) → Bytes → Bool
all_pass f [] = true
all_pass f (c ∷ s) = f c && all_pass f s

pub AllPass-all_pass : (f : ℕ → Bool) (s : Bytes) → all_pass f s ≡ true → AllPass f s
AllPass-all_pass f [] h = tt
AllPass-all_pass f (c ∷ s) h =
    let (here, more) = and_parts (f c) (all_pass f s) h in (here, AllPass-all_pass f s more)
  where
    and_parts : (a b : Bool) → (a && b) ≡ true → (a ≡ true) × (b ≡ true)
    and_parts a b h = ground arith

pub AllPass-append : (f : ℕ → Bool) (s t : Bytes) → AllPass f s → AllPass f t → AllPass f (s ++ t)
AllPass-append f [] t here there = there
AllPass-append f (c ∷ s) t (first, here) there = (first, AllPass-append f s t here there)

abbrev pub clean_line : Bytes → Bool
clean_line [] = false
clean_line (c ∷ s) = all_pass not_cr (c ∷ s)

pub IsLine-clean_line : (s : Bytes) → clean_line s ≡ true → IsLine s
IsLine-clean_line [] h = absurd (cc (h))
IsLine-clean_line (c ∷ s) h = NoCr-AllPass not_cr (c ∷ s) refl (AllPass-all_pass not_cr (c ∷ s) h)

pub NoCr-word : (s : Bytes) → IsWord s → NoCr s
NoCr-word [] word = absurd word
NoCr-word (c ∷ s) word = NoCr-AllPass in_word (c ∷ s) refl word

NoCr-digits : (fuel n : ℕ) → NoCr (digits fuel n)
unfolding digits
NoCr-digits zero n = tt
NoCr-digits (suc fuel) n = elim (Bool-cases (ltb n 10)) [
  | inl small ↦ rw small (λ e. omega (arith, e), tt)
  | inr large ↦ rw large (
      NoCr-append (digits fuel (n / 10)) ((48 + n % 10) ∷ []) (NoCr-digits fuel (n / 10))
        (λ e. omega (arith, e), tt))
]

pub NoCr-print_int : (n : ℕ) → NoCr (print_int (pos n))
unfolding print_int
NoCr-print_int n = NoCr-digits 10 n

pub take_while-stops :
    (f : ℕ → Bool) (s t : Bytes) → AllPass f s → take_while f t ≡ [] → take_while f (s ++ t) ≡ s
unfolding take_while
take_while-stops f [] t all stops = stops
take_while-stops f (c ∷ s) t (here, all) stops =
    rw here (ap (◌∷◌ c) (take_while-stops f s t all stops))

-- A word is read up to the space behind it, also if a space is before it.
pub scan_word-word :
    (old s t : Bytes) (c : ℕ) → IsWord s → is_space c ≡ true → scan_word old (s ++ (c ∷ t)) ≡ s
unfolding skip_space
scan_word-word old [] t c word space = absurd word
scan_word-word old (d ∷ s) t c (here, all) space =
    let letter : is_space d ≡ false = ground (arith, here) in
    let stops : take_while in_word (c ∷ t) ≡ [] = unfold take_while in rw space refl in
    rw (letter, take_while-stops in_word (d ∷ s) (c ∷ t) (here, all) stops) refl

pub scan_word-space : (old s : Bytes) → scan_word old (32 ∷ s) ≡ scan_word old s
unfolding skip_space
scan_word-space old s = refl

pub take_while-no_digit : (t : Bytes) → starts_digit t ≡ false → take_while is_digit t ≡ []
unfolding take_while
take_while-no_digit [] h = refl
take_while-no_digit (c ∷ t) h = rw h refl

starts_with-append_le :
    (p s t : Bytes) → length p ≤ length s → starts_with p (s ++ t) ≡ starts_with p s
unfolding starts_with
starts_with-append_le [] s t h = refl
starts_with-append_le (c ∷ p) [] t h = absurd (omega (arith, h))
starts_with-append_le (c ∷ p) (d ∷ s) t h = rw (starts_with-append_le p s t (omega (arith, h))) refl

strstr-nothing : (s : Bytes) → strstr [] s ≡ some s
unfolding strstr starts_with
strstr-nothing [] = refl
strstr-nothing (c ∷ s) = refl

length-strstr : (p s t : Bytes) → strstr p s ≡ some t → length p ≤ length s
length-strstr p s t found =
    let (pre, rest, e, f) = strstr-append p s t found in
    omega (arith, ap length e, ap length f, length-append pre t, length-append p rest)

-- What is found in a text is found there when more follows.
pub strstr-more : (p s t u : Bytes) → strstr p s ≡ some t → strstr p (s ++ u) ≡ some (t ++ u)
unfolding strstr
strstr-more [] s t u found =
    let same : s ≡ t = cc (found, strstr-nothing s) in
    strstr-nothing (s ++ u) ∙ ap (λ r. some (r ++ u)) same
strstr-more (b ∷ p) [] t u found = absurd (cc (found))
strstr-more (b ∷ p) (c ∷ s) t u found =
    let same = starts_with-append_le (b ∷ p) (c ∷ s) u (length-strstr (b ∷ p) (c ∷ s) t found) in
    elim (Bool-cases (starts_with (b ∷ p) (c ∷ s))) [
      | inl here ↦ let e : c ∷ s ≡ t = cc in rw (same, here) (ap (λ r. some (r ++ u)) e)
      | inr later ↦
          let further : strstr (b ∷ p) s ≡ some t = cc in
          rw (same, later) (strstr-more (b ∷ p) s t u further)
    ]
