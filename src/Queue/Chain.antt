-- ===== src/Queue/Chain.antt =====
-- Chains of pointers through one link field, and how an update elsewhere leaves them alone.
use http2rtsp.Prelude.{
  ℕ, ◌+◌, ◌<◌, ◌≡◌, refl, List, [], ◌∷◌, ◌++◌, reverse, arith, ◌==◌, if◌then◌else◌, length,
  length-append,
}
use mathlib.Core.List.{reverse-cons}
use http2rtsp.Queue.{Ptr, update}

-- From `p` the links `f` lead through `xs`, and from there to `stop`.
abbrev pub Chain : (Ptr → Ptr) → Ptr → List Ptr → Ptr → Type 0
Chain f p [] stop = p ≡ stop
Chain f p (x ∷ xs) stop = (p ≡ x) × Chain f (f x) xs stop

abbrev pub count : Ptr → List Ptr → ℕ
count a [] = 0
count a (x ∷ xs) = (if a == x then 1 else 0) + count a xs

pub count-append : (a : Ptr) (xs ys : List Ptr) → count a (xs ++ ys) ≡ count a xs + count a ys
count-append a [] ys = omega arith
count-append a (x ∷ xs) ys = ground (arith, count-append a xs ys)

pub count-reverse : (a : Ptr) (xs : List Ptr) → count a (reverse xs) ≡ count a xs
count-reverse a [] = refl
count-reverse a (x ∷ xs) =
    rw (reverse-cons x xs, count-append a (reverse xs) (x ∷ []), count-reverse a xs) (omega arith)

pub length-reverse {ℓ} : {A : Type ℓ} (xs : List A) → length (reverse xs) ≡ length xs
length-reverse [] = refl
length-reverse (x ∷ xs) =
    rw (reverse-cons x xs, length-append (reverse xs) (x ∷ []), length-reverse xs) (omega arith)

module _ (f g : Ptr → Ptr) where
  -- A chain survives a change of the links that spares its own cells.
  pub Chain-frame :
      (xs : List Ptr) (p stop : Ptr)
      → Chain f p xs stop
      → ((a : Ptr) → 0 < count a xs → g a ≡ f a)
      → Chain g p xs stop
  Chain-frame [] p stop c same = c
  Chain-frame (x ∷ xs) p stop c same = (
    c.0,
    rw (same x (ground arith)) (Chain-frame xs (f x) stop c.1 (λ a h. same a (ground arith))),
  )

pub Chain-update :
    (f : Ptr → Ptr) (q v : Ptr) (xs : List Ptr) (p stop : Ptr)
    → Chain f p xs stop
    → count q xs ≡ 0
    → Chain (update f q v) p xs stop
Chain-update f q v xs p stop c out = Chain-frame f (update f q v) xs p stop c (λ a h. ground arith)

module _ (f : Ptr → Ptr) where
  pub Chain-append :
      (xs ys : List Ptr) (p m stop : Ptr)
      → Chain f p xs m
      → Chain f m ys stop
      → Chain f p (xs ++ ys) stop
  Chain-append [] ys p m stop c d = rw c d
  Chain-append (x ∷ xs) ys p m stop c d = (c.0, Chain-append xs ys (f x) m stop c.1 d)

  -- A chain through `xs` and then `y` reaches `y` first.
  pub Chain-split :
      (xs : List Ptr) (y : Ptr) (ys : List Ptr) (p stop : Ptr)
      → Chain f p (xs ++ y ∷ ys) stop
      → Chain f p xs y × Chain f (f y) ys stop
  Chain-split [] y ys p stop c = c
  Chain-split (x ∷ xs) y ys p stop c =
      let d = Chain-split xs y ys (f x) stop c.1 in ((c.0, d.0), d.1)
