-- ===== src/Queue/Invariant.antt =====
-- When a `Queue` in memory is the doubly linked list of the events at the addresses `xs`.
use http2rtsp.Prelude.{
  ◌+◌, ◌<◌, ◌≤◌, ◌≡◌, true, List, ◌++◌, reverse, reverse-append, reverse-reverse, arith, length,
  length-append,
}
use http2rtsp.Prelude.Int.{pos}
use http2rtsp.Queue.{Ptr, null, Store, Queue, valid}
use http2rtsp.Queue.Chain.{Chain, count, count-append, count-reverse, length-reverse}

pub record IsQueue (h : Store) (q : Queue) (xs : List Ptr) : Type 0 where
  pub forward : Chain h.next q.first xs null
  pub backward : Chain h.prev q.last (reverse xs) null
  pub distinct : (a : Ptr) → count a xs ≤ 1
  pub live : (a : Ptr) → 0 < count a xs → valid h a ≡ true
  pub size_is : q.size ≡ pos (length xs)

-- The same at a place in the list: `rs` is what stands before it, read backwards.
pub record Zip (h : Store) (q : Queue) (rs bs : List Ptr) : Type 0 where
  pub forward : Chain h.next q.first (reverse rs ++ bs) null
  pub backward : Chain h.prev q.last (reverse bs ++ rs) null
  pub distinct : (a : Ptr) → count a rs + count a bs ≤ 1
  pub live : (a : Ptr) → 0 < count a rs + count a bs → valid h a ≡ true

module _ (rs bs : List Ptr) where
  count_zip : (a : Ptr) → count a (reverse rs ++ bs) ≡ count a rs + count a bs
  count_zip a = rw (count-append a (reverse rs) bs, count-reverse a rs)

  reverse_zip : reverse (reverse rs ++ bs) ≡ reverse bs ++ rs
  reverse_zip = rw (reverse-append (reverse rs) bs, reverse-reverse rs)

module _ {h : Store} {q : Queue} (rs bs : List Ptr) where
  pub zip : IsQueue h q (reverse rs ++ bs) → Zip h q rs bs
  zip v = record {
    forward = v.forward;
    backward = rw (reverse_zip rs bs) at v.backward;
    distinct = λ a. omega (arith, v.distinct a, count_zip rs bs a);
    live = λ a i. v.live a (omega (arith, count_zip rs bs a));
  }

  pub unzip : q.size ≡ pos (length rs + length bs) → Zip h q rs bs → IsQueue h q (reverse rs ++ bs)
  unzip s z = record {
    forward = z.forward;
    backward = rw (reverse_zip rs bs) z.backward;
    distinct = λ a. omega (arith, z.distinct a, count_zip rs bs a);
    live = λ a i. z.live a (omega (arith, count_zip rs bs a));
    size_is = rw (length-append (reverse rs) bs, length-reverse rs) s;
  }
