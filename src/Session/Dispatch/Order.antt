-- ===== src/Session/Dispatch/Order.antt =====
-- Which descriptors the loop of one round serves, and in which order.
use http2rtsp.Prelude.{
  ℕ, zero, suc, ◌+◌, ◌≤◌, ◌<◌, ◌≡◌, refl, sym, ap, ◌∙◌, Bool, true, false, Option, none, some,
  ◌>>=◌, Option-cases, Every-elim, List, [], ◌∷◌, ◌++◌, append-nil, if◌then◌else◌, length, arith,
  Bool-cases, inl, inr,
}
use http2rtsp.Prelude.Int.{ℤ, pos, pos_part, neg_part, ◌-ℤ◌, leb_ℤ, ◌≤ℤ◌}
use http2rtsp.Session.{Program, Action}
use http2rtsp.Session.Dispatch.{Watch, Loop, Given, serve, for_loop, fd_setsize}
use http2rtsp.Session.Dispatch.Watched.{IsWatch}
use http2rtsp.Session.Dispatch.Branches.{serve-Kept}

-- The ready descriptors among the `n` from `i` on, in ascending order.
abbrev pub ready_list : (ℕ → Bool) → ℕ → ℕ → List ℕ
ready_list readfds i zero = []
ready_list readfds i (suc n) =
    let rest = ready_list readfds (suc i) n in if readfds i then i ∷ rest else rest

last_mono :
    (w w' : Watch) (v : IsWatch w) (v' : IsWatch w') → w.maxfd ≤ℤ w'.maxfd → v.last ≤ v'.last
last_mono w w' v v' more = omega (
  arith,
  more,
  ap pos_part v.last_is,
  ap neg_part v.last_is,
  ap pos_part v'.last_is,
  ap neg_part v'.last_is,
)

module _ (program : Program) (listenfd siplistenfd : ℕ) (readfds : ℕ → Bool)
    (given : ℕ → Given) where
  -- Each of the descriptors is served once, in the order of the list.
  abbrev pub serve_each : List ℕ → Loop → Option (Loop × List Action)
  serve_each [] l = some (l, [])
  serve_each (i ∷ rest) l = serve program listenfd siplistenfd (given i) i l >>= λ (l, actions).
      serve_each rest l >>= λ (l, more). some (l, actions ++ more)

  abbrev Loops : ℕ → ℕ → ℕ → Loop → Type 0
  Loops fuel i n l =
      for_loop program listenfd siplistenfd readfds given fuel i
        (pos (length (ready_list readfds i n))) l
      ≡ serve_each (ready_list readfds i n) l

  abbrev joined : List Action → Option (Loop × List Action) → Option (Loop × List Action)
  joined actions m = m >>= λ (l, more). some (l, actions ++ more)

  joined_nothing : (m : Option (Loop × List Action)) → joined [] m ≡ m
  joined_nothing none = refl
  joined_nothing (some (l, more)) = refl

  -- The end of a round, where `loop` is what follows.
  abbrev round_end :
      ℤ → Loop → List Action → Option (Loop × List Action) → Option (Loop × List Action)
  round_end nready l actions loop =
      if leb_ℤ nready (pos 0) then some (l, actions) else joined actions loop

  -- A loop that serves the rest of the list, if there is one, serves it after what was done.
  served :
      (rest : List ℕ) (l : Loop) (actions : List Action) (loop : Option (Loop × List Action))
      → (0 < length rest → loop ≡ serve_each rest l)
      → round_end (pos (length rest)) l actions loop ≡ joined actions (serve_each rest l)
  served [] l actions loop same = ap (λ all. some (l, all)) (sym (append-nil actions))
  served (i ∷ rest) l actions loop same =
      let left : leb_ℤ (pos (length (i ∷ rest))) (pos 0) ≡ false = ground arith in
      rw left (ap (joined actions) (same (omega arith)))

  minus_one : (n : ℕ) → pos (suc n) -ℤ pos 1 ≡ pos n
  unfolding ◌-ℤ◌
  minus_one n = ground arith

  for_loop-serve_each :
      (fuel i n last : ℕ) (l : Loop) (v : IsWatch l.watch)
      → i + n ≡ suc last
      → last ≤ v.last
      → 0 < length (ready_list readfds i n)
      → n ≤ fuel
      → Loops fuel i n l
  unfolding for_loop
  for_loop-serve_each fuel i zero last l v end within some_ready h =
      absurd (omega (arith, some_ready))
  for_loop-serve_each zero i (suc n) last l v end within some_ready h = absurd (omega (arith, h))
  for_loop-serve_each (suc fuel) i (suc n) last l v end within some_ready h =
      let inside : leb_ℤ (pos i) l.watch.maxfd ≡ true =
        rw v.last_is (ground (arith, end, within)) in
      let rest = ready_list readfds (suc i) n in
      elim (Bool-cases (readfds i)) [
        | inl ready ↦ elim (Option-cases (serve program listenfd siplistenfd (given i) i l)) [
          | inl fault ↦ rw (inside, ready, fault) refl
          | inr ((l', actions), e) ↦
              let (v', more, keep) =
                Every-elim _ _ _ (serve-Kept program listenfd siplistenfd (given i) i l v) e in
              let within' : last ≤ v'.last =
                omega (arith, within, last_mono l.watch l'.watch v v' more) in
              rw (inside, ready, e, minus_one (length rest))
                (served rest l' actions _ (λ left.
                  for_loop-serve_each fuel (suc i) n last l' v' (omega (arith, end)) within' left
                    (omega (arith, h))))
        ]
        | inr idle ↦
            rw (inside, idle)
              (served rest l [] _ (λ left.
                  for_loop-serve_each fuel (suc i) n last l v (omega (arith, end)) within left
                    (omega (arith, h)))
                ∙ joined_nothing (serve_each rest l))
      ]

  -- If `select` reports as many descriptors as are ready, at least one and none behind `maxfd`, the loop
  -- serves each of them once, in ascending order, whatever the branches do to the set.
  pub for_loop-each :
      (l : Loop) (v : IsWatch l.watch)
      → 0 < length (ready_list readfds 0 (suc v.last))
      → for_loop program listenfd siplistenfd readfds given fd_setsize 0
          (pos (length (ready_list readfds 0 (suc v.last))))
          l
        ≡ serve_each (ready_list readfds 0 (suc v.last)) l
  for_loop-each l v some_ready =
      for_loop-serve_each fd_setsize 0 (suc v.last) v.last l v (omega arith) (omega arith)
        some_ready v.room
