-- ===== src/Util/Extremes.antt =====
-- The results of max and min against all arguments.
use http2rtsp.Prelude.{
  subst, ◌≡◌, ◌⊎◌, inl, inr, refl, true, false, List, [], ◌∷◌, if◌then◌else◌, Bool-cases, arith,
}
use http2rtsp.Prelude.Int.{ℤ, pos, negsuc, ltb_ℤ}
use http2rtsp.Util.{int_min, int_max, max_loop, min_loop, max, min}

abbrev pub Any : (ℤ → Type 0) → List ℤ → Type 0
Any P [] = ⊥
Any P (a ∷ rest) = P a ⊎ Any P rest

abbrev pub All : (ℤ → Type 0) → List ℤ → Type 0
All P [] = Unit
All P (a ∷ rest) = P a × All P rest

-- The greatest of the numbers, and the least.
abbrev pub IsGreatest : ℤ → List ℤ → Type 0
IsGreatest m numbers = All (λ a. ltb_ℤ m a ≡ false) numbers × Any (λ a. m ≡ a) numbers

abbrev pub IsLeast : ℤ → List ℤ → Type 0
IsLeast m numbers = All (λ a. ltb_ℤ a m ≡ false) numbers × Any (λ a. m ≡ a) numbers

not_less_trans : (a b c : ℤ) → ltb_ℤ b a ≡ false → ltb_ℤ c b ≡ false → ltb_ℤ c a ≡ false
not_less_trans (pos a) (pos b) (pos c) p q = ground arith
not_less_trans (pos a) (pos b) (negsuc c) p q = ground arith
not_less_trans (pos a) (negsuc b) (pos c) p q = ground arith
not_less_trans (pos a) (negsuc b) (negsuc c) p q = ground arith
not_less_trans (negsuc a) (pos b) (pos c) p q = ground arith
not_less_trans (negsuc a) (pos b) (negsuc c) p q = ground arith
not_less_trans (negsuc a) (negsuc b) (pos c) p q = ground arith
not_less_trans (negsuc a) (negsuc b) (negsuc c) p q = ground arith

less_asym : (a b : ℤ) → ltb_ℤ a b ≡ true → ltb_ℤ b a ≡ false
less_asym (pos a) (pos b) p = ground arith
less_asym (pos a) (negsuc b) p = ground arith
less_asym (negsuc a) (pos b) p = ground arith
less_asym (negsuc a) (negsuc b) p = ground arith

-- An argument that is passed over.
skip : (P : ℤ → Type 0) (g a : ℤ) (rest : List ℤ) → Any P (g ∷ rest) → Any P (g ∷ a ∷ rest)
skip P g a rest (inl here) = inl here
skip P g a rest (inr there) = inr (inr there)

max_loop-IsGreatest :
    (g : ℤ) (arguments : List ℤ) → IsGreatest (max_loop g arguments) (g ∷ arguments)
unfolding max_loop
max_loop-IsGreatest g [] = ((ground arith, tt), inl refl)
max_loop-IsGreatest g (a ∷ rest) = elim (Bool-cases (ltb_ℤ g a)) [
  | inl less ↦
      let ((above, all), found) = max_loop-IsGreatest a rest in
      let now : a ≡ (if ltb_ℤ g a then a else g) = rw less refl in
      subst (λ (c : ℤ). IsGreatest (max_loop c rest) (g ∷ a ∷ rest)) now
        ((not_less_trans g a (max_loop a rest) (less_asym g a less) above, (above, all)), inr found)
  | inr more ↦
      let ((above, all), found) = max_loop-IsGreatest g rest in
      let now : g ≡ (if ltb_ℤ g a then a else g) = rw more refl in
      subst (λ (c : ℤ). IsGreatest (max_loop c rest) (g ∷ a ∷ rest)) now
        (
          (above, (not_less_trans a g (max_loop g rest) more above, all)),
          skip (λ b. max_loop g rest ≡ b) g a rest found,
        )
]

min_loop-IsLeast : (l : ℤ) (arguments : List ℤ) → IsLeast (min_loop l arguments) (l ∷ arguments)
unfolding min_loop
min_loop-IsLeast l [] = ((ground arith, tt), inl refl)
min_loop-IsLeast l (a ∷ rest) = elim (Bool-cases (ltb_ℤ a l)) [
  | inl less ↦
      let ((below, all), found) = min_loop-IsLeast a rest in
      let now : a ≡ (if ltb_ℤ a l then a else l) = rw less refl in
      subst (λ (c : ℤ). IsLeast (min_loop c rest) (l ∷ a ∷ rest)) now
        ((not_less_trans (min_loop a rest) a l below (less_asym a l less), (below, all)), inr found)
  | inr more ↦
      let ((below, all), found) = min_loop-IsLeast l rest in
      let now : l ≡ (if ltb_ℤ a l then a else l) = rw more refl in
      subst (λ (c : ℤ). IsLeast (min_loop c rest) (l ∷ a ∷ rest)) now
        (
          (below, (not_less_trans (min_loop l rest) l a below more, all)),
          skip (λ b. min_loop l rest ≡ b) l a rest found,
        )
]

-- max gives the greatest and min the least of its arguments and of INT_MIN and INT_MAX, with which the
-- loops start.
pub extremes :
    (arguments : List ℤ)
    → IsGreatest (max arguments) (int_min ∷ arguments)
      × IsLeast (min arguments) (int_max ∷ arguments)
unfolding max min
extremes arguments = (max_loop-IsGreatest int_min arguments, min_loop-IsLeast int_max arguments)
