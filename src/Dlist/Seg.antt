-- ===== src/Dlist/Seg.antt =====
-- Segments of a doubly linked list: the nodes at the addresses of `xs`, linked both ways.
use zone_buffer.Base.{
  ℕ, ◌≡◌, ◌<◌, ◌≤◌, refl, ◌∙◌, ap, sym, subst, Option, none, some, [], ◌∷◌, ◌++◌, arith, count,
  length,
}
use zone_buffer.Base.Int.{ℤ}
use zone_buffer.Dlist.{Ptr, ListNode, write_cell}
use zone_buffer.Dlist.Cells.{
  Cells, addrs, first_or, last_or, other_head, once_tail, count_cons, head_once,
}

abbrev pub node : ℤ → Ptr → Ptr → ListNode
node v next prev = record { value = v; next = next; prev = prev }

abbrev pub Seg : (ℕ → Option ListNode) → Ptr → Ptr → Cells → Type 0
Seg cell before after [] = Unit
Seg cell before after ((p, v) ∷ xs) =
    (cell p ≡ some (node v (first_or xs after) before)) × Seg cell (some p) after xs

some_injective : {x y : ListNode} → some x ≡ some y → x ≡ y
some_injective {x} e = ap (λ o. elim o [ none ↦ x | some a ↦ a ]) e

module _ (cell : ℕ → Option ListNode) where
  -- A segment stands as long as its own nodes do.
  pub Seg-frame :
      (other : ℕ → Option ListNode) (before after : Ptr) (xs : Cells)
      → Seg cell before after xs
      → ((a : ℕ) → 0 < count a (addrs xs) → other a ≡ cell a)
      → Seg other before after xs
  unfolding count
  Seg-frame other before after [] s same = tt
  Seg-frame other before after ((p, v) ∷ xs) s same = (
    same p (ground arith) ∙ s.0,
    Seg-frame other (some p) after xs s.1 λ a h. same a (ground arith),
  )

  pub Seg-write_cell :
      (p : ℕ) (c : Option ListNode) (before after : Ptr) (xs : Cells)
      → Seg cell before after xs
      → count p (addrs xs) ≡ 0
      → Seg (write_cell cell p c) before after xs
  Seg-write_cell p c before after xs s out = Seg-frame _ before after xs s λ a h. ground arith

  pub first_or-append :
      (xs ys : Cells) (after : Ptr) → first_or (xs ++ ys) after ≡ first_or xs (first_or ys after)
  first_or-append [] ys after = refl
  first_or-append (x ∷ xs) ys after = refl

  pub Seg-append :
      (before after : Ptr) (xs ys : Cells)
      → Seg cell before (first_or ys after) xs
      → Seg cell (last_or xs before) after ys
      → Seg cell before after (xs ++ ys)
  Seg-append before after [] ys s t = t
  Seg-append before after ((p, v) ∷ xs) ys s t = (
    s.0 ∙ ap (λ (q : Ptr). some (node v q before)) (sym (first_or-append xs ys after)),
    Seg-append (some p) after xs ys s.1 t,
  )

  pub Seg-split :
      (before after : Ptr) (xs ys : Cells)
      → Seg cell before after (xs ++ ys)
      → Seg cell before (first_or ys after) xs × Seg cell (last_or xs before) after ys
  Seg-split before after [] ys s = (tt, s)
  Seg-split before after ((p, v) ∷ xs) ys s =
      let (t, u) = Seg-split (some p) after xs ys s.1 in
      ((s.0 ∙ ap (λ (q : Ptr). some (node v q before)) (first_or-append xs ys after), t), u)

  -- The last node of a segment is led elsewhere.
  pub Seg-set_next :
      (before after to : Ptr) (xs : Cells) (p : ℕ)
      → Seg cell before after xs
      → ((k : ℕ) → count k (addrs xs) ≤ 1)
      → 0 < length xs
      → last_or xs before ≡ some p
      → (n : ListNode) × (cell p ≡ some n)
        × (n.next ≡ after)
        × (0 < count p (addrs xs))
        × Seg (write_cell cell p (some (record n { next = to }))) before to xs
  unfolding count
  Seg-set_next before after to [] p s once pos e = absurd (omega arith)
  Seg-set_next before after to ((q, v) ∷ []) p s once pos e =
      (node v after before, ground (arith, e), refl, ground (arith, e), (ground (arith, e), tt))
  Seg-set_next before after to ((q, v) ∷ (r, w) ∷ xs) p s once pos e =
      let (n, at, to_after, here, t) =
        Seg-set_next (some q) after to ((r, w) ∷ xs) p s.1 (once_tail q (r ∷ addrs xs) once)
          (omega arith) e in
      let other = other_head p q (r ∷ addrs xs) (once p) here in
      (n, at, to_after, count_cons p q (r ∷ addrs xs) here, (rw other s.0, t))

  -- The same for a node that has been read.
  pub Seg-set_next_at :
      (before after to : Ptr) (xs : Cells) (p : ℕ) (at : ListNode)
      → Seg cell before after xs
      → ((k : ℕ) → count k (addrs xs) ≤ 1)
      → 0 < length xs
      → last_or xs before ≡ some p
      → cell p ≡ some at
      → Seg (write_cell cell p (some (record at { next = to }))) before to xs
  Seg-set_next_at before after to xs p at s once pos e f =
      let (n, g, _, _, t) = Seg-set_next before after to xs p s once pos e in
      subst (λ (k : ListNode). Seg (write_cell cell p (some (record k { next = to }))) before to xs)
        (some_injective (sym g ∙ f)) t

  -- The first node of a segment is led back elsewhere.
  pub Seg-set_prev :
      (before after to : Ptr) (q : ℕ) (v : ℤ) (xs : Cells)
      → Seg cell before after ((q, v) ∷ xs)
      → count q (addrs xs) ≡ 0
      → Seg (write_cell cell q (some (node v (first_or xs after) to))) to after ((q, v) ∷ xs)
  Seg-set_prev before after to q v xs s out =
      (ground arith, Seg-write_cell q _ (some q) after xs s.1 out)

-- The memory in which the first node of `xs`, if there is one, is led back to `to`.
abbrev pub led_back : Cells → Ptr → (ℕ → Option ListNode) → ℕ → Option ListNode
led_back [] to cell = cell
led_back ((q, v) ∷ xs) to cell = write_cell cell q (some (node v (first_or xs none) to))

pub Seg-led_back :
    (cell : ℕ → Option ListNode) (before to : Ptr) (xs : Cells)
    → Seg cell before none xs
    → ((k : ℕ) → count k (addrs xs) ≤ 1)
    → Seg (led_back xs to cell) to none xs
Seg-led_back cell before to [] s once = tt
Seg-led_back cell before to ((q, v) ∷ xs) s once =
    Seg-set_prev cell before none to q v xs s (head_once q (addrs xs) once)

pub led_back-other :
    (cell : ℕ → Option ListNode) (to : Ptr) (xs : Cells) (a : ℕ)
    → count a (addrs xs) ≡ 0
    → led_back xs to cell a ≡ cell a
unfolding count
led_back-other cell to [] a out = refl
led_back-other cell to ((q, v) ∷ xs) a out = ground (arith, out)

-- A segment that shares no node with `xs` does not see it.
pub Seg-led_back_apart :
    (cell : ℕ → Option ListNode) (to before after : Ptr) (xs ys : Cells)
    → Seg cell before after ys
    → ((k : ℕ) → 0 < count k (addrs ys) → count k (addrs xs) ≡ 0)
    → Seg (led_back xs to cell) before after ys
Seg-led_back_apart cell to before after xs ys s out =
    Seg-frame cell (led_back xs to cell) before after ys s
      λ a h. led_back-other cell to xs a (out a h)
