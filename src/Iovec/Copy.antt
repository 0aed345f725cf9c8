-- ===== src/Iovec/Copy.antt =====
-- `tcmu_memcpy_into_iovec` and `tcmu_memcpy_from_iovec`: how much they copy, where it lands, and what
-- is left of the vector.
use tcmu_runner.Prelude.{
  ℕ, zero, suc, ◌+◌, ◌-◌, ◌≤◌, ◌≡◌, refl, ap, sym, ◌∙◌, List, [], ◌∷◌, ◌++◌, append-nil,
  append_assoc, length, take, drop, take_all, drop_all, take-append, take-append_le, drop-append,
  drop-append_le, drop-append_self, take-add, drop-drop, drop-nil, take-nil, length-take,
  length-drop, min, length-append, arith, dec_le,
}
use native.Mathlib.Nat.{zero-add}
use tcmu_runner.Iovec.{
  Iovec, iov_len, windows, advance, fill, into_from, memcpy_into_iovec, from_from,
  memcpy_from_iovec,
}

-- What the buffers of `vs` hold in the vector `ws` that an operation made of it, from the bytes on
-- that `vs` described.
abbrev pub region : List Iovec → List Iovec → List ℕ
region [] ws = []
region (v ∷ vs) [] = []
region (v ∷ vs) (w ∷ ws) = drop (length v.behind) (w.behind ++ w.window) ++ region vs ws

-- One segment of a copy, `c` bytes of which land in the first vector.
splice_within :
    (s W R : List ℕ) (L : ℕ)
    → L ≤ length W
    → (take L s ++ drop L W) ++ (take (min 0 (length R)) (drop L s) ++ drop 0 R)
      ≡ take (min L (length (W ++ R))) s ++ drop L (W ++ R)
splice_within s W R L h =
    let all : min L (length (W ++ R)) ≡ L = omega (arith, length-append W R) in
    let nothing : min 0 (length R) ≡ 0 = omega arith in
    rw (all, nothing, drop-append_le L W R h) (append_assoc (take L s) (drop L W) R)

splice_across :
    (s W R : List ℕ) (L : ℕ)
    → length W ≤ L
    → (take (length W) s ++ drop (length W) W)
        ++ (take (min (L - length W) (length R)) (drop (length W) s) ++ drop (L - length W) R)
      ≡ take (min L (length (W ++ R))) s ++ drop L (W ++ R)
splice_across s W R L h = rw (drop_all (length W) W (omega arith), append-nil) rest
  where
    parts : min L (length (W ++ R)) ≡ length W + min (L - length W) (length R)
    parts = omega (arith, length-append W R)

    left_over : drop L (W ++ R) ≡ drop (L - length W) R
    left_over = ap (λ n. drop n (W ++ R)) (omega arith) ∙ drop-append W R (L - length W)

    rest :
        take (length W) s
          ++ (take (min (L - length W) (length R)) (drop (length W) s) ++ drop (L - length W) R)
        ≡ take (min L (length (W ++ R))) s ++ drop L (W ++ R)
    rest =
        rw (parts, left_over, take-add)
          (sym (
            append_assoc (take (length W) s)
              (take (min (L - length W) (length R)) (drop (length W) s)) (drop (L - length W) R)))

splice :
    (s W R : List ℕ) (L : ℕ)
    → (take (min (length W) L) s ++ drop (min (length W) L) W)
        ++ (take (min (L - min (length W) L) (length R)) (drop (min (length W) L) s)
            ++ drop (L - min (length W) L) R)
      ≡ take (min L (length (W ++ R))) s ++ drop L (W ++ R)
splice s W R L = elim (dec_le L (length W)) [
  | yes h ↦
      let c : min (length W) L ≡ L = omega arith in
      let z : L - L ≡ 0 = omega arith in rw (c, z) (splice_within s W R L h)
  | no h ↦
      let c : min (length W) L ≡ length W = omega arith in
      rw c (splice_across s W R L (omega arith))
]

drop-splice :
    (W R : List ℕ) (L : ℕ)
    → drop (min (length W) L) W ++ drop (L - min (length W) L) R ≡ drop L (W ++ R)
drop-splice W R L = simp (take-nil, drop-nil) at (splice [] W R L)

drop-min : (n : ℕ) (xs : List ℕ) → drop (min n (length xs)) xs ≡ drop n xs
drop-min n xs = elim (dec_le n (length xs)) [
  | yes h ↦ let e : min n (length xs) ≡ n = omega arith in rw e
  | no h ↦
      let e : min n (length xs) ≡ length xs = omega arith in
      rw (e, drop_all (length xs) xs (omega arith), drop_all n xs (omega arith))
]

-- The loop with `len` bytes to go and `copied` bytes done.
record Copied (vs : List Iovec) (src : List ℕ) (len copied : ℕ) (out : ℕ × List Iovec)
    : Type 0 where
  count : out.0 ≡ copied + min len (length (windows vs))
  stored :
      region vs out.1
      ≡ take (min len (length (windows vs))) (drop copied src) ++ drop len (windows vs)
  left : windows out.1 ≡ drop len (windows vs)

-- A copy that goes on past the first vector, put together from its rest.
Copied-cons :
    (v : Iovec) (vs ws : List Iovec) (src : List ℕ) (len copied n c : ℕ)
    → c ≡ min (iov_len v) len
    → c ≤ length (drop copied src)
    → Copied vs src (len - c) (copied + c) (n, ws)
    → Copied (v ∷ vs) src len copied (n, fill (take c (drop copied src)) v ∷ ws)
Copied-cons v vs ws src len copied n c e h r = record {
  count = omega (arith, r.count, length-append v.window (windows vs));
  stored =
      rw
        (
          append_assoc v.behind (take c (drop copied src))
              (drop (length (take c (drop copied src))) v.window),
          drop-append_self,
          taken,
          r.stored,
          ← drop-drop c copied src,
          e,
        )
        (splice (drop copied src) v.window (windows vs) len);
  left = rw (taken, r.left, e) (drop-splice v.window (windows vs) len);
}
  where
    taken : length (take c (drop copied src)) ≡ c
    taken = omega (arith, length-take c (drop copied src))

into_from-done :
    (vs : List Iovec) (src : List ℕ) (len copied : ℕ)
    → len ≡ 0
    → into_from vs src len copied ≡ (copied, vs)
unfolding into_from
into_from-done [] src len copied e = refl
into_from-done (v ∷ vs) src len copied e = rw e

fill-nil : (v : Iovec) → fill [] v ≡ v
fill-nil v = λ i. record { behind = append-nil v.behind i; window = v.window }

-- One round of the loop, whichever of its tests pass.
into_from-step :
    (v : Iovec) (vs : List Iovec) (src : List ℕ) (len copied c : ℕ)
    → c ≡ min (iov_len v) len
    → into_from (v ∷ vs) src len copied ≡ (
      (into_from vs src (len - c) (copied + c)).0,
      fill (take c (drop copied src)) v ∷ (into_from vs src (len - c) (copied + c)).1,
    )
unfolding into_from
into_from-step v vs src len copied zero e =
    ground (arith, fill-nil v, into_from-done vs src (len - zero) (copied + zero))
into_from-step v vs src len copied (suc c) e = ground arith

into_from-Copied :
    (vs : List Iovec) (src : List ℕ) (len copied : ℕ)
    → copied + len ≤ length src
    → Copied vs src len copied (into_from vs src len copied)
unfolding into_from
into_from-Copied [] src len copied h = record {
  count = omega arith;
  stored = let e : min len 0 ≡ 0 = omega arith in rw (e, drop-nil);
  left = sym (drop-nil len);
}
into_from-Copied (v ∷ vs) src len copied h = rw (into_from-step v vs src len copied c refl) (
    Copied-cons v vs _ src len copied _ c refl (omega (arith, length-drop copied src))
      (into_from-Copied vs src (len - c) (copied + c) (omega arith)))
  where
    c : ℕ
    c = min (iov_len v) len

-- `tcmu_memcpy_into_iovec` of `len` bytes, which the source holds, copies as many of them as the vector
-- has room for and returns their number; the buffers then hold those bytes and behind them what was
-- there, and the vector describes the room that is left.
pub memcpy_into_iovec_correct :
    (vs : List Iovec) (src : List ℕ) (len : ℕ)
    → len ≤ length src
    → let (n, ws) = memcpy_into_iovec vs src len in
      (n ≡ min len (length (windows vs)))
      × (region vs ws ≡ take n src ++ drop n (windows vs))
      × (windows ws ≡ drop n (windows vs))
unfolding memcpy_into_iovec
memcpy_into_iovec_correct vs src len h = rw (c.count, zero-add, drop-min) (refl, c.stored, c.left)
  where
    c : Copied vs src len 0 (into_from vs src len 0)
    c = into_from-Copied vs src len 0 (omega arith)

-- The loop of the copy out of a vector.
record Gathered (vs : List Iovec) (dest : List ℕ) (len copied : ℕ) (out : ℕ × List ℕ × List Iovec)
    : Type 0 where
  count : out.0 ≡ copied + min len (length (windows vs))
  gathered : out.1 ≡ dest ++ take len (windows vs)
  left : windows out.2 ≡ drop len (windows vs)

take-splice :
    (W R : List ℕ) (L : ℕ)
    → take (min (length W) L) W ++ take (L - min (length W) L) R ≡ take L (W ++ R)
take-splice W R L = elim (dec_le L (length W)) [
  | yes h ↦
      let c : min (length W) L ≡ L = omega arith in
      let z : L - L ≡ 0 = omega arith in rw (c, z, append-nil) (sym (take-append_le L W R h))
  | no h ↦
      let c : min (length W) L ≡ length W = omega arith in
      rw (c, take_all (length W) W (omega arith))
        (sym (take-append W R (L - length W)) ∙ ap (λ n. take n (W ++ R)) (omega arith))
]

Gathered-cons :
    (v : Iovec) (vs ws : List Iovec) (dest out : List ℕ) (len copied n c : ℕ)
    → c ≡ min (iov_len v) len
    → Gathered vs (dest ++ take c v.window) (len - c) (copied + c) (n, out, ws)
    → Gathered (v ∷ vs) dest len copied (n, out, advance c v ∷ ws)
Gathered-cons v vs ws dest out len copied n c e r = record {
  count = omega (arith, r.count, length-append v.window (windows vs));
  gathered =
      r.gathered
      ∙ append_assoc dest (take c v.window) (take (len - c) (windows vs))
      ∙ ap (λ l. dest ++ l) (rw e (take-splice v.window (windows vs) len));
  left = rw (r.left, e) (drop-splice v.window (windows vs) len);
}

from_from-done :
    (dest : List ℕ) (len : ℕ) (vs : List Iovec) (copied : ℕ)
    → len ≡ 0
    → from_from dest len vs copied ≡ (copied, dest, vs)
unfolding from_from
from_from-done dest len [] copied e = refl
from_from-done dest len (v ∷ vs) copied e = rw e

advance-zero : (v : Iovec) → advance 0 v ≡ v
advance-zero v = λ i. record { behind = append-nil v.behind i; window = v.window }

from_from-step :
    (dest : List ℕ) (len : ℕ) (v : Iovec) (vs : List Iovec) (copied c : ℕ)
    → c ≡ min (iov_len v) len
    → let r = from_from (dest ++ take c v.window) (len - c) vs (copied + c) in
      from_from dest len (v ∷ vs) copied ≡ (r.0, r.1, advance c v ∷ r.2)
unfolding from_from
from_from-step dest len v vs copied zero e = ground (
  arith,
  advance-zero v,
  append-nil dest,
  from_from-done (dest ++ []) (len - zero) vs (copied + zero),
)
from_from-step dest len v vs copied (suc c) e = ground arith

from_from-Gathered :
    (dest : List ℕ) (len : ℕ) (vs : List Iovec) (copied : ℕ)
    → Gathered vs dest len copied (from_from dest len vs copied)
unfolding from_from
from_from-Gathered dest len [] copied = record {
  count = omega arith;
  gathered = rw (take-nil, append-nil);
  left = sym (drop-nil len);
}
from_from-Gathered dest len (v ∷ vs) copied = rw (from_from-step dest len v vs copied c refl) (
    Gathered-cons v vs _ dest _ len copied _ c refl
      (from_from-Gathered (dest ++ take c v.window) (len - c) vs (copied + c)))
  where
    c : ℕ
    c = min (iov_len v) len

-- `tcmu_memcpy_from_iovec` of at most `len` bytes returns how many the vector gave, stores exactly the
-- first bytes of the vector, in order, and the vector describes the bytes that are left.
pub memcpy_from_iovec_correct :
    (vs : List Iovec) (len : ℕ)
    → let (n, dest, ws) = memcpy_from_iovec len vs in
      (n ≡ min len (length (windows vs)))
      × (dest ≡ take len (windows vs))
      × (windows ws ≡ drop len (windows vs))
unfolding memcpy_from_iovec
memcpy_from_iovec_correct vs len = (omega (arith, g.count), g.gathered, g.left)
  where
    g : Gathered vs [] len 0 (from_from [] len vs 0)
    g = from_from-Gathered [] len vs 0
