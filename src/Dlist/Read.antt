-- ===== src/Dlist/Read.antt =====
-- The methods of `List` that read, the walks that end, and what a bad position does.
use zone_buffer.Base.{
  ℕ, zero, suc, ◌+◌, ◌≡◌, ◌<◌, refl, ap, true, false, none, some, ◌==◌, [], ◌∷◌, ◌++◌, is_some, ◌⊎◌,
  inl, inr, arith, count, length, length-append, ok, fault, assert_failed, undefined, ◌>>=◌,
}
use zone_buffer.Base.Int.{ℤ, pos, negsuc, eqb_ℤ}
use zone_buffer.Dlist.{
  Ptr, Dlist, load_node, new_node, walk, link_at, l_push, l_front, l_begin, l_advance,
  distance_loop, l_distance,
}
use zone_buffer.Dlist.Cells.{Cells, addrs, first_or, last_or, head_here, once_parts, once_left}
use zone_buffer.Dlist.Seg.{first_or-append, Seg, Seg-split}
use zone_buffer.Dlist.Push.{made, not_negative}
use zone_buffer.Dlist.Inv.{all, IsList, load_node-ok}

module _ (l : Dlist) where
  -- A walk along a segment reaches what follows it.
  advance_lem :
      (before after : Ptr) (xs : Cells)
      → Seg l.cell before after xs
      → l_advance (first_or xs after) (length xs) l ≡ ok after
  unfolding l_advance
  advance_lem before after [] s = refl
  advance_lem before after ((p, v) ∷ xs) s =
      rw (load_node-ok l p _ s.0) (advance_lem (some p) after xs s.1)

  pub l_begin-first : (xs : Cells) → IsList l xs → l_begin l ≡ ok (first_or xs none)
  unfolding l_begin
  l_begin-first xs is = rw (load_node-ok l l.head _ is.chain.0) refl

  pub l_begin-l_advance :
      (ys : Cells) (x : ℕ) (v : ℤ) (zs : Cells)
      → IsList l (ys ++ (x, v) ∷ zs)
      → (l_begin l >>= λ it. l_advance it (length ys) l) ≡ ok (some x)
  l_begin-l_advance ys x v zs is =
      let (s, _) = Seg-split l.cell (some l.head) none ys ((x, v) ∷ zs) is.chain.1 in
      rw (l_begin-first (ys ++ (x, v) ∷ zs) is, first_or-append l.cell ys ((x, v) ∷ zs) none)
        (advance_lem (some l.head) (some x) ys s)

  pub l_front-first : (x : ℕ) (v : ℤ) (xs : Cells) → IsList l ((x, v) ∷ xs) → l_front l ≡ ok v
  unfolding l_front
  l_front-first x v xs is =
      rw (load_node-ok l l.head _ is.chain.0, load_node-ok l x _ is.chain.1.0) refl

  pub l_front-fault : IsList l [] → l_front l ≡ fault assert_failed
  unfolding l_front
  l_front-fault is = rw (load_node-ok l l.head _ is.chain.0) refl

  -- The loop of `L_distance`, with fuel for each node.
  distance_lem :
      (fuel i k : ℕ) (before : Ptr) (ms : Cells) (y : ℕ) (w : ℤ) (zs : Cells)
      → Seg l.cell before none (ms ++ (y, w) ∷ zs)
      → count y (addrs ms) ≡ 0
      → length ms < fuel
      → i + length ms ≡ k
      → distance_loop fuel i (first_or ms (some y)) (some y) l ≡ ok k
  unfolding distance_loop count
  distance_lem zero i k before ms y w zs s out enough e = absurd (omega arith)
  distance_lem (suc fuel) i k before [] y w zs s out enough e =
      let self : (y == y) ≡ true = ground arith in rw self (ap ok (omega (arith, e)))
  distance_lem (suc fuel) i k before ((x, v) ∷ ms) y w zs s out enough e =
      let other : (x == y) ≡ false = ground (arith, out) in
      rw (other, load_node-ok l x _ s.0, first_or-append l.cell ms ((y, w) ∷ zs) none)
        (distance_lem fuel (suc i) k (some x) ms y w zs s.1 (ground (arith, out)) (omega arith)
          (omega (arith, e)))

  first_some : (ms : Cells) (y : ℕ) → is_some (first_or ms (some y)) ≡ true
  first_some [] y = refl
  first_some (m ∷ ms) y = refl

  -- On a valid list, `L_distance` of a node and the same or a later node returns within its
  -- fuel, with the number of nodes from the first up to the second.
  pub l_distance-length :
      (ys ms : Cells) (y : ℕ) (w : ℤ) (zs : Cells)
      → IsList l (ys ++ (ms ++ (y, w) ∷ zs))
      → l_distance (first_or ms (some y)) (some y) l ≡ ok (length ms)
  unfolding l_distance
  l_distance-length ys ms y w zs is =
      let rest = ms ++ (y, w) ∷ zs in
      let (_, s) = Seg-split l.cell (some l.head) none ys rest is.chain.1 in
      let once = (once_parts (all l ys) rest is.once).1 in
      let out = once_left ms ((y, w) ∷ zs) y once (head_here y (addrs zs)) in
      let enough : length ms < suc l.fresh =
        omega (arith, is.room, length-append ys rest, length-append ms ((y, w) ∷ zs)) in
      rw (first_some ms y) (
        distance_lem (suc l.fresh) 0 (length ms) (last_or ys (some l.head)) ms y w zs s out enough
          (omega arith))

  -- A walk past the end reads through NULL.
  walk_off :
      (before : Ptr) (p : ℕ) (v : ℤ) (xs : Cells) (n : ℕ)
      → Seg l.cell before none ((p, v) ∷ xs)
      → length xs < n
      → (walk n (some p) l ≡ ok none) ⊎ (walk n (some p) l ≡ fault undefined)
  unfolding walk load_node
  walk_off before p v [] zero s h = absurd (omega arith)
  walk_off before p v [] (suc zero) s h = inl (rw (load_node-ok l p _ s.0) refl)
  walk_off before p v [] (suc (suc n)) s h = inr (rw (load_node-ok l p _ s.0) refl)
  walk_off before p v (x ∷ xs) zero s h = absurd (omega arith)
  walk_off before p v ((q, w) ∷ xs) (suc n) s h =
      rw s.0 (walk_off (some p) q w xs n s.1 (omega arith))

link_off :
    (l : Dlist) (k n : ℕ)
    → (walk k (some l.head) l ≡ ok none) ⊎ (walk k (some l.head) l ≡ fault undefined)
    → link_at k n l ≡ fault undefined
unfolding link_at load_node
link_off l k n (inl e) = rw e refl
link_off l k n (inr e) = rw e refl

-- On a valid list, `L_push` at a position that is past the end passes its assertion and is
-- undefined.
pub l_push-undefined :
    (l : Dlist) (xs : Cells) (d : ℤ) (k : ℕ)
    → IsList l xs
    → length xs < k
    → l_push d (pos k) l ≡ fault undefined
unfolding l_push
l_push-undefined l xs d k is h =
    let m = new_node d l in
    let past : eqb_ℤ (pos k) l.listsize ≡ false = rw is.size (ground arith) in
    let off = link_off m k l.fresh (walk_off m none l.head (negsuc 0) xs k (made l xs is d) h) in
    rw (not_negative k, past, off) refl
