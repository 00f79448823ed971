-- ===== src/Text.antt =====
-- The C string functions that httpmsg.c and sipfunctions.c call, on the bytes before the terminating
-- zero. A pointer into a string is the suffix that starts there; NULL is `none`.
pub mod Message
pub mod Lines
pub mod Numbers
pub mod Rows
pub mod Words
use Prim.Native.Char.{code}
use Prim.Native.String.{String}
use http2rtsp.Prelude.{
  ℕ, zero, suc, ◌+◌, ◌-◌, ◌*◌, ◌/◌, ◌%◌, ◌^◌, Bool, true, false, not, ◌&&◌, ◌||◌, Option, none,
  some, List, [], ◌∷◌, ◌++◌, ltb, leb, ◌==◌, if◌then◌else◌, length,
}
use http2rtsp.Prelude.Int.{ℤ, pos, negsuc, ◌-ℤ◌}
use http2rtsp.Time.{to_int}

abbrev pub Bytes : Type 0
Bytes = List ℕ

-- The bytes of a literal in ASCII.
abbrev pub codes : String → Bytes
codes String.[] = []
codes (String.◌∷◌ c s) = code c ∷ codes s

abbrev pub crlf : Bytes
crlf = 13 ∷ 10 ∷ []

-- `strncmp(s, p, strlen(p)) == 0`
unfoldable pub starts_with : Bytes → Bytes → Bool
starts_with [] s = true
starts_with (c ∷ p) [] = false
starts_with (c ∷ p) (d ∷ s) = (c == d) && starts_with p s

-- `strcmp(s, t) == 0`
unfoldable pub streq : Bytes → Bytes → Bool
streq [] [] = true
streq [] (d ∷ t) = false
streq (c ∷ s) [] = false
streq (c ∷ s) (d ∷ t) = (c == d) && streq s t

-- `strstr(s, p)`
unfoldable pub strstr : Bytes → Bytes → Option Bytes
unfolding starts_with
strstr p [] = if starts_with p [] then some [] else none
strstr p (c ∷ s) = let rest = strstr p s in if starts_with p (c ∷ s) then some (c ∷ s) else rest

-- `isspace`
abbrev pub is_space : ℕ → Bool
is_space c = (c == 32) || (leb 9 c && leb c 13)

abbrev pub is_digit : ℕ → Bool
is_digit c = leb 48 c && leb c 57

-- What a directive of white space in a `scanf` format skips.
unfoldable pub skip_space : Bytes → Bytes
skip_space [] = []
skip_space (c ∷ s) = if is_space c then skip_space s else c ∷ s

unfoldable pub take_while : (ℕ → Bool) → Bytes → Bytes
take_while f [] = []
take_while f (c ∷ s) = if f c then c ∷ take_while f s else []

-- The string that starts an array: the bytes before the first zero.
abbrev pub c_string : Bytes → Bytes
c_string s = take_while (λ c. not (c == 0)) s

abbrev pub not_cr : ℕ → Bool
not_cr c = not (c == 13)

-- `%[^\r]` and `%s`: the variable keeps its value if nothing matches.
abbrev pub keep_if_empty : Bytes → Bytes → Bytes
keep_if_empty old [] = old
keep_if_empty old (c ∷ s) = c ∷ s

abbrev pub scan_line : Bytes → Bytes → Bytes
scan_line old s = keep_if_empty old (take_while not_cr s)

abbrev pub scan_word : Bytes → Bytes → Bytes
scan_word old s = keep_if_empty old (take_while (λ c. not (is_space c)) (skip_space s))

-- The value of the digits at the start, and whether there are any.
unfoldable pub digits_value : ℕ → Bytes → ℕ
digits_value acc [] = acc
digits_value acc (c ∷ s) = if is_digit c then digits_value (acc * 10 + (c - 48)) s else acc

abbrev pub starts_digit : Bytes → Bool
starts_digit [] = false
starts_digit (c ∷ s) = is_digit c

-- `strtol` stops at the bounds of `long`; the result is stored in an `int`.
abbrev pub clip : ℕ → ℕ → ℕ
clip bound n = if ltb bound n then bound else n

abbrev pub scan_digits : Bool → ℤ → Bytes → ℤ
scan_digits negative old s =
    if starts_digit s
    then (if negative
        then to_int (pos 0 -ℤ pos (clip (2 ^ 63) (digits_value 0 s)))
        else to_int (pos (clip (2 ^ 63 - 1) (digits_value 0 s))))
    else old

abbrev pub scan_sign : ℤ → Bytes → ℤ
scan_sign old [] = old
scan_sign old (c ∷ s) =
    if c == 45
    then scan_digits true old s
    else if c == 43
    then scan_digits false old s
    else scan_digits false old (c ∷ s)

-- `%d`
unfoldable pub scan_int : ℤ → Bytes → ℤ
unfolding skip_space to_int
scan_int old s = scan_sign old (skip_space s)

-- `%d` of `printf`: an `int` has ten digits at most.
unfoldable pub digits : ℕ → ℕ → Bytes
digits zero n = []
digits (suc fuel) n =
    let rest = digits fuel (n / 10) in
    if ltb n 10 then (48 + n) ∷ [] else rest ++ ((48 + n % 10) ∷ [])

unfoldable pub print_int : ℤ → Bytes
unfolding digits
print_int (pos n) = digits 10 n
print_int (negsuc n) = 45 ∷ digits 10 (suc n)

-- A string written to an array of `n` bytes; `none` is a write behind its end.
abbrev pub fits : ℕ → Bytes → Option Bytes
fits n s = if ltb (length s) n then some s else none
