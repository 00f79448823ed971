-- ===== src/Session/Dispatch/Watched.antt =====
-- The descriptors that the main loops wait for, whatever the branches do.
use http2rtsp.Prelude.{
  ℕ, ◌≤◌, ◌<◌, ◌≡◌, refl, ap, ◌⊎◌, inl, inr, Bool, true, false, List, [], ◌∷◌, ltb, ltb→lt, ◌==◌,
  arith, Bool-cases, Every, Every-if,
}
use http2rtsp.Prelude.Int.{ℤ, pos, negsuc, ◌≤ℤ◌, ltb_ℤ}
use http2rtsp.Util.{max, max_loop, int_min}
use http2rtsp.Text.{Bytes}
use http2rtsp.Rtsp.{
  RtspType, options, describe, setup, play, teardown, ClientState, noclient, cliconnected, sdpsent,
  setupcomplete, streaming,
}
use http2rtsp.Session.{State, Outside}
use http2rtsp.Session.Dispatch.{
  fd_setsize, Watch, fd_set, fd_clr, watch_fd, connection_watch, media_watch, received_watch,
  torn_watch, request_watch,
}

-- Every descriptor that is watched is one that the loop reaches, and the set has room for it.
pub record IsWatch (w : Watch) : Type 0 where
  pub last : ℕ
  pub last_is : w.maxfd ≡ pos last
  pub room : last < fd_setsize
  pub reached : (n : ℕ) → w.masterfds n ≡ true → n ≤ last

-- The greatest of two descriptors is one of them.
max-pos :
    (a b : ℕ)
    → (m : ℕ) × (max (pos a ∷ pos b ∷ []) ≡ pos m) × (a ≤ m) × (b ≤ m) × ((m ≡ a) ⊎ (m ≡ b))
unfolding max max_loop
max-pos a b =
    let above : ltb_ℤ int_min (pos a) ≡ true = ground arith in
    elim (Bool-cases (ltb_ℤ (pos a) (pos b))) [
      | inl less ↦ (b, rw (above, less) refl, ground (arith, less), omega arith, inr refl)
      | inr more ↦ (a, rw (above, more) refl, omega arith, ground (arith, more), inl refl)
    ]

-- What a branch leaves, if it does not clear the sockets that `c` names: every watched descriptor is
-- reached, the greatest does not decrease, and those sockets stay watched.
module _ (c : ℕ → Bool) where
  abbrev pub Kept : Watch → Watch → Type 0
  Kept w w' =
      IsWatch w'
      × (w.maxfd ≤ℤ w'.maxfd)
      × ((n : ℕ) → c n ≡ true → w.masterfds n ≡ true → w'.masterfds n ≡ true)

  pub Kept-refl : (w : Watch) → IsWatch w → Kept w w
  Kept-refl w v = (v, omega arith, λ n named set. set)

  pub Kept-trans : (w w' w'' : Watch) → Kept w w' → Kept w' w'' → Kept w w''
  Kept-trans w w' w'' (v, more, keep) (v', more', keep') =
      (v', omega (arith, more, more'), λ n named set. keep' n named (keep n named set))

  Kept-fd_clr : (i : ℕ) (w : Watch) → c i ≡ false → IsWatch w → Kept w (fd_clr i w)
  Kept-fd_clr i w other v = (
    record {
      last = v.last;
      last_is = v.last_is;
      room = v.room;
      reached = λ n set. v.reached n (ground (arith, set));
    },
    omega arith,
    λ n named set. elim (Bool-cases (n == i)) [
      | inl same ↦ let e : n ≡ i = ground (arith, same) in absurd (cc (named, other, ap c e))
      | inr different ↦ rw different set
    ],
  )

  -- A descriptor that is set, with `maxfd` raised to it.
  Kept-raised :
      (numbers : List ℤ) (n m : ℕ) (w : Watch) (v : IsWatch w)
      → max numbers ≡ pos m
      → n ≤ m
      → v.last ≤ m
      → (m ≡ n) ⊎ (m ≡ v.last)
      → Every (Kept w) (watch_fd numbers (pos n) w)
  unfolding watch_fd fd_set
  Kept-raised numbers n m w v greatest above over one = elim (Bool-cases (ltb n fd_setsize)) [
    | inl room ↦ rw room (
      record {
        last = m;
        last_is = greatest;
        room = elim one [
          | inl e ↦ omega (arith, e, ltb→lt n fd_setsize room)
          | inr e ↦ omega (arith, e, v.room)
        ];
        reached = λ k set. elim (Bool-cases (k == n)) [
          | inl same ↦ ground (arith, same, above)
          | inr different ↦
              let before : w.masterfds k ≡ true = ground (arith, set, different) in
              omega (arith, v.reached k before, over)
        ];
      },
      rw (v.last_is, greatest) (omega (arith, over)),
      λ k named set. elim (Bool-cases (k == n)) [
        | inl same ↦ rw same refl
        | inr different ↦ rw different set
      ],
    )
    | inr full ↦ rw full tt
  ]

  Kept-watch_fd :
      (fd : ℤ) (w : Watch) → IsWatch w → Every (Kept w) (watch_fd (fd ∷ w.maxfd ∷ []) fd w)
  Kept-watch_fd (pos n) w v =
      let (m, e, above, over, one) = max-pos n v.last in
      Kept-raised (pos n ∷ w.maxfd ∷ []) n m w v (rw v.last_is e) above over one
  Kept-watch_fd (negsuc n) w v = unfold watch_fd fd_set in tt

  Kept-watch_fd_last :
      (fd : ℤ) (w : Watch) → IsWatch w → Every (Kept w) (watch_fd (w.maxfd ∷ fd ∷ []) fd w)
  Kept-watch_fd_last (pos n) w v =
      let (m, e, over, above, one) = max-pos v.last n in
      Kept-raised (w.maxfd ∷ pos n ∷ []) n m w v (rw v.last_is e) above over
        (swapped m n v.last one)
    where
      swapped : (m a b : ℕ) → (m ≡ b) ⊎ (m ≡ a) → (m ≡ a) ⊎ (m ≡ b)
      swapped m a b (inl e) = inr e
      swapped m a b (inr e) = inl e
  Kept-watch_fd_last (negsuc n) w v = unfold watch_fd fd_set in tt

  pub connection_watch-Kept :
      (state : ClientState) (fd : ℤ) (w : Watch)
      → IsWatch w
      → Every (Kept w) (connection_watch state fd w)
  connection_watch-Kept noclient fd w v = Kept-watch_fd fd w v
  connection_watch-Kept cliconnected fd w v = Kept-refl w v
  connection_watch-Kept sdpsent fd w v = Kept-refl w v
  connection_watch-Kept setupcomplete fd w v = Kept-refl w v
  connection_watch-Kept streaming fd w v = Kept-refl w v

  pub media_watch-Kept :
      (ends : Bool) (i : ℕ) (w : Watch) → c i ≡ false → IsWatch w → Kept w (media_watch ends i w)
  media_watch-Kept true i w other v = Kept-fd_clr i w other v
  media_watch-Kept false i w other v = Kept-refl w v

  pub received_watch-Kept :
      (text : Bytes) (i : ℕ) (w : Watch)
      → c i ≡ false
      → IsWatch w
      → Kept w (received_watch text i w)
  received_watch-Kept [] i w other v = Kept-fd_clr i w other v
  received_watch-Kept (b ∷ text) i w other v = Kept-refl w v

  pub torn_watch-Kept :
      (type : RtspType) (i : ℕ) (w : Watch) → c i ≡ false → IsWatch w → Kept w (torn_watch type i w)
  torn_watch-Kept teardown i w other v = Kept-fd_clr i w other v
  torn_watch-Kept options i w other v = Kept-refl w v
  torn_watch-Kept describe i w other v = Kept-refl w v
  torn_watch-Kept setup i w other v = Kept-refl w v
  torn_watch-Kept play i w other v = Kept-refl w v
  torn_watch-Kept RtspType.ok i w other v = Kept-refl w v

  pub request_watch-Kept :
      (state : ClientState) (type : RtspType) (o : Outside) (s : State) (w : Watch)
      → IsWatch w
      → Every (Kept w) (request_watch state type o s w)
  request_watch-Kept cliconnected describe o s w v =
      Every-if (Kept w) s.media_downloaded _ _ (Kept-refl w v)
        (Kept-watch_fd_last o.media_socket w v)
  request_watch-Kept state type o s w v = Kept-refl w v
