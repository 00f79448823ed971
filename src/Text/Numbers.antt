-- ===== src/Text/Numbers.antt =====
-- A number that is printed is read back.
use Prim.Native.Nat.pow
use http2rtsp.Prelude.{
  ℕ, zero, suc, ◌+◌, ◌-◌, ◌*◌, ◌/◌, ◌%◌, ◌^◌, ◌<◌, ◌≡◌, ◌∙◌, refl, ap, sym, inl, inr, true, false,
  [], ◌∷◌, ◌++◌, append_assoc, ltb, arith, Bool-cases, ltb→lt, tests, ◌==◌,
}
use http2rtsp.Prelude.Int.{ℤ, pos}
use http2rtsp.Time.Laws.{to_int-id}
use http2rtsp.Text.{
  Bytes, is_digit, is_space, skip_space, digits_value, digits, print_int, scan_int,
}

is_digit-add : (d : ℕ) → d < 10 → is_digit (48 + d) ≡ true
is_digit-add d h = ground arith

digits_value-digit :
    (d acc : ℕ) (t : Bytes)
    → d < 10
    → digits_value acc ((48 + d) ∷ t) ≡ digits_value (acc * 10 + d) t
unfolding digits_value
digits_value-digit d acc t h = let e : (48 + d) - 48 ≡ d = omega arith in rw (is_digit-add d h, e)

pub digits_value-digits :
    (fuel n : ℕ) (t : Bytes)
    → n < 10 ^ fuel
    → digits_value 0 (digits fuel n ++ t) ≡ digits_value n t
unfolding digits
digits_value-digits zero n t h = let e : n ≡ 0 = omega arith in rw e
digits_value-digits (suc fuel) n t h = elim (Bool-cases (ltb n 10)) [
  | inl small ↦
      rw small ((digits_value-digit n 0 t (omega tests)) ∙ ap (λ m. digits_value m t) (omega arith))
  | inr large ↦
      let e : n / 10 * 10 + n % 10 ≡ n = omega arith in
      let less : n / 10 < 10 ^ fuel = omega (arith, pow.suc 10 fuel, ltb→lt) in
      rw (
        large,
        append_assoc (digits fuel (n / 10)) ((48 + n % 10) ∷ []) t,
        digits_value-digits fuel (n / 10) ((48 + n % 10) ∷ t) less,
        digits_value-digit (n % 10) (n / 10) t (omega arith),
        e,
      )
]

-- Something is printed, and it begins with a digit.
digits-head :
    (fuel n : ℕ) (t : Bytes)
    → (d : ℕ) × (s : Bytes) × (digits (suc fuel) n ++ t ≡ (48 + d) ∷ s) × (d < 10)
unfolding digits
digits-head zero n t = elim (Bool-cases (ltb n 10)) [
  | inl small ↦ (n, t, rw small refl, omega tests)
  | inr large ↦ (n % 10, t, rw large refl, omega arith)
]
digits-head (suc fuel) n t =
    let (d, s, e, h) = digits-head fuel (n / 10) ((48 + n % 10) ∷ t) in
    elim (Bool-cases (ltb n 10)) [
      | inl small ↦ (n, t, rw small refl, omega tests)
      | inr large ↦
          (d, s, rw (large, append_assoc (digits (suc fuel) (n / 10)) ((48 + n % 10) ∷ []) t) e, h)
    ]

scan_int-digit :
    (old : ℤ) (d n : ℕ) (s : Bytes)
    → d < 10
    → digits_value 0 ((48 + d) ∷ s) ≡ n
    → n < 2 ^ 31
    → scan_int old (32 ∷ (48 + d) ∷ s) ≡ pos n
unfolding scan_int skip_space
scan_int-digit old d n s less value h =
    let no_space : is_space (48 + d) ≡ false = ground arith in
    let no_minus : ((48 + d) == 45) ≡ false = ground arith in
    let no_plus : ((48 + d) == 43) ≡ false = ground arith in
    let no_clip : ltb (2 ^ 63 - 1) n ≡ false = ground arith in
    rw (no_space, no_minus, no_plus, is_digit-add d less, value, no_clip)
      (to_int-id (pos n) (omega arith) (omega arith))

-- A number of the type `int` that is printed behind a space, with no digit behind it.
pub scan_int-print_int :
    (old : ℤ) (n c : ℕ) (t : Bytes)
    → n < 2 ^ 31
    → is_digit c ≡ false
    → scan_int old (32 ∷ (print_int (pos n) ++ (c ∷ t))) ≡ pos n
unfolding scan_int skip_space print_int digits_value
scan_int-print_int old n c t h no_digit =
    let (d, s, e, less) = digits-head 9 n (c ∷ t) in
    let value : digits_value 0 ((48 + d) ∷ s) ≡ n =
      sym (ap (digits_value 0) e)
      ∙ digits_value-digits 10 n (c ∷ t) (omega arith)
      ∙ rw no_digit refl in
    rw e (scan_int-digit old d n s less value h)
