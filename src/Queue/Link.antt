-- ===== src/Queue/Link.antt =====
-- The two ways in which `push_event` links an event into a well-formed queue.
use http2rtsp.Prelude.{
  ◌+◌, ◌≡◌, refl, ◌≢◌, true, false, Option, some, List, [], ◌∷◌, ◌++◌, arith, if◌then◌else◌,
  reverse, ◌==◌, append_assoc,
}
use mathlib.Core.List.{reverse-cons}
use http2rtsp.Queue.{Ptr, null, Store, Queue, valid, update, link_front, link_after, insque}
use http2rtsp.Queue.Chain.{
  Chain, count, Chain-update, Chain-frame, Chain-append, Chain-split, count-reverse,
}
use http2rtsp.Queue.Invariant.{Zip}
use http2rtsp.Queue.Walk.{head_or_null}

abbrev pub links : Store → (Ptr → Ptr) → (Ptr → Ptr) → Store
links h next prev = record h { next = next; prev = prev }

-- The backward list of the part behind a cell, with the cell at its end.
pub reverse_cons_append :
    (b : Ptr) (bs ys : List Ptr) → reverse (b ∷ bs) ++ ys ≡ reverse bs ++ b ∷ ys
reverse_cons_append b bs ys = rw (reverse-cons b bs, append_assoc)

module _ (h : Store) (q : Queue) (event b : Ptr) (bs : List Ptr) (z : Zip h q [] (b ∷ bs))
    (new : count event (b ∷ bs) ≡ 0) (ok : valid h event ≡ true) (ends : h.prev event ≡ null) where
  front : Store
  front = links h (update h.next event q.first) (update h.prev q.first event)

  link_front-front : link_front event q h ≡ some (record q { first = event }, front)
  unfolding link_front front
  link_front-front = ground (arith, z.live b (ground arith), z.forward)

  front-Zip : Zip front (record q { first = event }) [] (event ∷ b ∷ bs)
  unfolding front
  front-Zip = record {
    forward = (
      refl,
      (ground arith, (Chain-update h.next event q.first (b ∷ bs) q.first null z.forward new).1),
    );
    backward =
        let old =
          Chain-split h.prev (reverse bs) b [] q.last null
            (rw (reverse_cons_append b bs []) at z.backward) in
        let out : count q.first (reverse bs) ≡ 0 =
          rw (count-reverse q.first bs) (ground (arith, z.distinct b, z.forward)) in
        rw (reverse_cons_append event (b ∷ bs) [], reverse_cons_append b bs (event ∷ []))
          (Chain-append _ (reverse bs) (b ∷ event ∷ []) q.last b null
            (Chain-update h.prev q.first event (reverse bs) q.last b old.0 out)
            (refl, (ground (arith, z.forward), ground (arith, z.forward))));
    distinct = λ a. ground (arith, z.distinct a);
    live = λ a i. ground (arith, z.live a);
  }

-- What linking leaves: only links change, and the event stands in its place.
abbrev pub Linked : Ptr → Store → Queue → List Ptr → List Ptr → Option (Queue × Store) → Type 0
Linked event h q rs bs out =
    (n : Ptr → Ptr) × (p : Ptr → Ptr) × (q' : Queue) × (out ≡ some (q', links h n p))
    × Zip (links h n p) q' rs (event ∷ bs)
    × (q'.size ≡ q.size)

link_front-Linked :
    (h : Store) (q : Queue) (event b : Ptr) (bs : List Ptr)
    → Zip h q [] (b ∷ bs)
    → count event (b ∷ bs) ≡ 0
    → valid h event ≡ true
    → h.prev event ≡ null
    → Linked event h q [] (b ∷ bs) (link_front event q h)
unfolding front
link_front-Linked h q event b bs z new ok ends = (
  _,
  _,
  _,
  link_front-front h q event b bs z new ok ends,
  front-Zip h q event b bs z new ok ends,
  refl,
)

-- `insque` behind the last event.
module _ (h : Store) (q : Queue) (event r : Ptr) (rs : List Ptr) (z : Zip h q (r ∷ rs) [])
    (new : count event (r ∷ rs) ≡ 0) (ok : valid h event ≡ true) where
  at_end : Store
  at_end = links h (update (update h.next r event) event null) (update h.prev event r)

  last_next : Chain h.next q.first (reverse rs) r × (h.next r ≡ null)
  last_next =
      Chain-split h.next (reverse rs) r [] q.first null
        (rw (reverse_cons_append r rs []) at z.forward)

  link_after-at_end : link_after event r q h ≡ some (record q { last = event }, at_end)
  unfolding link_after insque at_end
  link_after-at_end = ground (arith, last_next, z.live r (ground arith))

  at_end-Zip : Zip at_end (record q { last = event }) (r ∷ rs) (event ∷ [])
  unfolding at_end
  at_end-Zip = record {
    forward = rw (reverse_cons_append r rs (event ∷ [])) (
        Chain-append _ (reverse rs) (r ∷ event ∷ []) q.first r null
          (Chain-frame h.next _ (reverse rs) q.first r last_next.0
            (λ a i. ground (arith, count-reverse a rs, z.distinct a, z.distinct event)))
          (refl, (ground arith, ground arith)));
    backward =
        (refl, (ground arith, (Chain-update h.prev event r (r ∷ rs) q.last null z.backward new).1));
    distinct = λ a. ground (arith, z.distinct a);
    live = λ a i. ground (arith, z.live a);
  }

-- `insque` between two events.
module _ (h : Store) (q : Queue) (event r b : Ptr) (rs bs : List Ptr)
    (z : Zip h q (r ∷ rs) (b ∷ bs)) (new : count event (r ∷ rs) + count event (b ∷ bs) ≡ 0)
    (ok : valid h event ≡ true) where
  between : Store
  between =
      links h (update (update h.next r event) event b) (update (update h.prev b event) event r)

  next_links :
      Chain h.next q.first (reverse rs) r × ((h.next r ≡ b) × Chain h.next (h.next b) bs null)
  next_links =
      Chain-split h.next (reverse rs) r (b ∷ bs) q.first null
        (rw (reverse_cons_append r rs (b ∷ bs)) at z.forward)

  prev_links :
      Chain h.prev q.last (reverse bs) b × ((h.prev b ≡ r) × Chain h.prev (h.prev r) rs null)
  prev_links =
      Chain-split h.prev (reverse bs) b (r ∷ rs) q.last null
        (rw (reverse_cons_append b bs (r ∷ rs)) at z.backward)

  link_after-between : link_after event r q h ≡ some (q, between)
  unfolding link_after insque between
  link_after-between = ground (arith, next_links, z.live r (ground arith), z.live b (ground arith))

  next_b : between.next b ≡ h.next b
  unfolding between
  next_b = ground (arith, z.distinct b)

  prev_r : between.prev r ≡ h.prev r
  unfolding between
  prev_r = ground (arith, z.distinct r)

  between-Zip : Zip between q (r ∷ rs) (event ∷ b ∷ bs)
  unfolding between
  between-Zip = record {
    forward = rw (reverse_cons_append r rs (event ∷ b ∷ bs)) (
        Chain-append _ (reverse rs) (r ∷ event ∷ b ∷ bs) q.first r null
          (Chain-frame h.next _ (reverse rs) q.first r next_links.0
            (λ a i. ground (arith, count-reverse a rs, z.distinct a, z.distinct event)))
          (
            refl,
            (
              ground arith,
              (
                ground arith,
                Chain-frame h.next _ bs _ null (rw next_b next_links.1.1)
                    (λ a i. ground (arith, z.distinct a, z.distinct event)),
              ),
            ),
          ));
    backward =
        rw (reverse_cons_append event (b ∷ bs) (r ∷ rs), reverse_cons_append b bs (event ∷ r ∷ rs))
          (Chain-append _ (reverse bs) (b ∷ event ∷ r ∷ rs) q.last b null
            (Chain-frame h.prev _ (reverse bs) q.last b prev_links.0
              (λ a i. ground (arith, count-reverse a bs, z.distinct a, z.distinct event)))
            (
              refl,
              (
                ground arith,
                (
                  ground arith,
                  Chain-frame h.prev _ rs _ null (rw prev_r prev_links.1.1)
                      (λ a i. ground (arith, z.distinct a, z.distinct event)),
                ),
              ),
            ));
    distinct = λ a. ground (arith, z.distinct a);
    live = λ a i. ground (arith, z.live a);
  }

-- The two ways to link, as `push_event` chooses between them.
pub link-Linked :
    (h : Store) (q : Queue) (event : Ptr) (rs bs : List Ptr)
    → Zip h q rs bs
    → count event rs + count event bs ≡ 0
    → valid h event ≡ true
    → h.prev event ≡ null
    → q.last ≢ null
    → let stepper = head_or_null rs in
      Linked event h q rs bs
        (if stepper == null then link_front event q h else link_after event stepper q h)
unfolding at_end between
link-Linked h q event [] [] z new ok ends ne = absurd (ne z.backward)
link-Linked h q event [] (b ∷ bs) z new ok ends ne =
    link_front-Linked h q event b bs z (omega arith) ok ends
link-Linked h q event (r ∷ rs) bs z new ok ends ne =
    let e : (r == null) ≡ false = ground (arith, z.live r (ground arith)) in rw e (inner bs z new)
  where
    inner :
        (bs : List Ptr)
        → Zip h q (r ∷ rs) bs
        → count event (r ∷ rs) + count event bs ≡ 0
        → Linked event h q (r ∷ rs) bs (link_after event r q h)
    inner [] z new = (
      _,
      _,
      _,
      link_after-at_end h q event r rs z (omega arith) ok,
      at_end-Zip h q event r rs z (omega arith) ok,
      refl,
    )
    inner (b ∷ bs) z new = (
      _,
      _,
      _,
      link_after-between h q event r b rs bs z new ok,
      between-Zip h q event r b rs bs z new ok,
      refl,
    )
