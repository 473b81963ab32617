-- ===== src/Dlist/Push.antt =====
-- `L_push`.
use zone_buffer.Base.{
  ℕ, ◌≡◌, ◌<◌, refl, ◌∙◌, ap, sym, true, false, Option, none, some, ◌==◌, if◌then◌else◌, [], ◌∷◌,
  ◌++◌, append-nil, arith, count, length, length-append, ok, Returns,
}
use zone_buffer.Base.Int.{ℤ, pos, negsuc, inc_ℤ, eqb_ℤ, ltb_ℤ}
use zone_buffer.Dlist.{
  Ptr, ListNode, Dlist, write_cell, new_node, list_node, link_last, link_at, l_push, walk,
}
use zone_buffer.Dlist.Cells.{
  Cells, addrs, first_or, last_or, last_or-append, last_some, apart_of_counts, once_right,
  once_left, once_parts, out_of_parts, head_once, head_here, once_insert, known_insert,
}
use zone_buffer.Dlist.Seg.{
  node, Seg, Seg-write_cell, Seg-append, Seg-split, Seg-set_next, Seg-set_next_at, Seg-set_prev,
}
use zone_buffer.Dlist.Inv.{all, IsList, load_node-ok, set_next-ok, set_prev-ok}

module _ (l : Dlist) (xs : Cells) (is : IsList l xs) (d : ℤ) where
  pub made : Seg (new_node d l).cell none none (all l xs)
  made =
      Seg-write_cell l.cell l.fresh (some (list_node d)) none none (all l xs) is.chain
        (is.known l.fresh (omega arith))

  pub link_last-IsList :
      Returns
        (link_last l.fresh (new_node d l))
        (λ m. IsList (record m { listsize = inc_ℤ m.listsize }) (xs ++ (l.fresh, d) ∷ []))
  unfolding link_last count
  link_last-IsList =
      let m = new_node d l in
      let n = l.fresh in
      let (at, e, _, here, s) =
        Seg-set_next m.cell none none (some n) (all l xs) l.tail made is.once (omega arith)
          is.ends in
      let m1 : Dlist = record m {
        cell = write_cell m.cell l.tail (some (record at { next = some n }));
      } in
      let apart : (l.tail == n) ≡ false =
        apart_of_counts l.tail n (addrs (all l xs)) here (is.known n (omega arith)) in
      let fresh_node : m1.cell n ≡ some (list_node d) = rw apart (ground arith) in
      let new = node d none (some l.tail) in
      (
        record m1 { cell = write_cell m1.cell n (some new); tail = n },
        rw
            (
              set_next-ok m l.tail at e (some n),
              set_prev-ok m1 n (list_node d) fresh_node (some l.tail),
            )
            refl,
        record {
          chain =
              Seg-append (write_cell m1.cell n (some new)) none none (all l xs) ((n, d) ∷ [])
                (Seg-write_cell m1.cell n (some new) none (some n) (all l xs) s
                  (is.known n (omega arith)))
                (ground (arith, is.ends), tt);
          once =
              once_insert (all l xs) [] n d (rw append-nil is.once)
                (rw append-nil (is.known n (omega arith)));
          known = known_insert (all l xs) [] n d (rw append-nil is.known);
          ends = last_or-append xs n d [] (some l.head);
          size = ap inc_ℤ is.size ∙ ap pos (omega (arith, length-append xs ((n, d) ∷ [])));
          room = omega (arith, is.room, length-append xs ((n, d) ∷ []));
        },
      )

walk-last_or :
    (m : Dlist) (before after : Ptr) (p : ℕ) (v : ℤ) (ys : Cells)
    → Seg m.cell before after ((p, v) ∷ ys)
    → walk (length ys) (some p) m ≡ ok (last_or ys (some p))
unfolding walk
walk-last_or m before after p v [] s = refl
walk-last_or m before after p v ((q, w) ∷ ys) s =
    rw (load_node-ok m p _ s.0) (walk-last_or m (some p) after q w ys s.1)

write_cell-same :
    (cell : ℕ → Option ListNode) (p : ℕ) (c : Option ListNode) → write_cell cell p c p ≡ c
write_cell-same cell p c = ground arith

apart_sym : (p n : ℕ) → (p == n) ≡ false → (n == p) ≡ false
apart_sym p n e = ground (arith, e)

-- The memory after the writes of `link_at`: the new node `n` between `p` and `q`.
module _ (m : Dlist) (n p q : ℕ) (d : ℤ) (at old : ListNode) where
  new : ListNode
  new = node d (some q) (some p)

  -- Before the last write_cell, and after it.
  between : ℕ → Option ListNode
  between =
      write_cell (write_cell (write_cell m.cell n (some (node d (some q) none))) n (some new)) q
        (some (record old { prev = some n }))

  relinked : ℕ → Option ListNode
  relinked = write_cell between p (some (record at { next = some n }))

  link_at-relinked :
      (rounds : ℕ)
      → walk rounds (some m.head) m ≡ ok (some p)
      → m.cell n ≡ some (list_node d)
      → m.cell p ≡ some at
      → at.next ≡ some q
      → m.cell q ≡ some old
      → (n == p) ≡ false
      → (n == q) ≡ false
      → (q == p) ≡ false
      → link_at rounds n m ≡ ok (record m { cell = relinked })
  unfolding link_at relinked between new
  link_at-relinked rounds walked at_n at_p to_q at_q n≢p n≢q q≢p =
      let n1 = node d (some q) none in
      let m1 : Dlist = record m { cell = write_cell m.cell n (some n1) } in
      let m2 : Dlist = record m1 { cell = write_cell m1.cell n (some new) } in
      let m3 : Dlist = record m2 {
        cell = write_cell m2.cell q (some (record old { prev = some n }));
      } in
      rw
        (
          walked,
          load_node-ok m p at at_p,
          to_q,
          set_next-ok m n (list_node d) at_n (some q),
          set_prev-ok m1 n n1 (ground arith) (some p),
          load_node-ok m2 p at (rw n≢p at_p),
          to_q,
          set_prev-ok m2 q old (rw n≢q at_q) (some n),
          set_next-ok m3 p at (rw (q≢p, n≢p) at_p) (some n),
        )
        refl

module _ (l : Dlist) (ys : Cells) (q : ℕ) (b : ℤ) (zs : Cells) (is : IsList l (ys ++ (q, b) ∷ zs))
    (d : ℤ) (p : ℕ) (last : last_or ys (some l.head) ≡ some p) where
  abbrev left : Cells
  left = all l ys

  abbrev right : Cells
  right = (q, b) ∷ zs

  abbrev old_q : ListNode
  old_q = node b (first_or zs none) (some p)

  out_left : count l.fresh (addrs left) ≡ 0
  out_left = (out_of_parts left right l.fresh (is.known l.fresh (omega arith))).0

  out_right : count l.fresh (addrs right) ≡ 0
  out_right = (out_of_parts left right l.fresh (is.known l.fresh (omega arith))).1

  parts : Seg (new_node d l).cell none (some q) left × Seg (new_node d l).cell (some p) none right
  parts =
      let (s, t) = Seg-split (new_node d l).cell none none left right (made l (ys ++ right) is d) in
      (s, rw last at t)

  at_end :
      (n : ListNode) × ((new_node d l).cell p ≡ some n)
      × (n.next ≡ some q)
      × (0 < count p (addrs left))
  at_end =
      let (n, e, to_q, here, _) =
        Seg-set_next (new_node d l).cell none (some q) none left p parts.0
          (once_parts left right is.once).0 (omega arith) last in
      (n, e, to_q, here)

  module _ (at : ListNode) (here : 0 < count p (addrs left)) where
    relinked-Seg :
        (new_node d l).cell p ≡ some at
        → (l.fresh == p) ≡ false
        → (l.fresh == q) ≡ false
        → (q == p) ≡ false
        → Seg
            (relinked (new_node d l) l.fresh p q d at old_q)
            none
            none
            (left ++ (l.fresh, d) ∷ right)
    unfolding relinked between new
    relinked-Seg e n≢p n≢q q≢p =
        let m = new_node d l in
        let n = l.fresh in
        let n1 = node d (some q) none in
        let c1 = write_cell m.cell n (some n1) in
        let made_n = node d (some q) (some p) in
        let c2 = write_cell c1 n (some made_n) in
        let q3 = record old_q { prev = some n } in
        let c3 = write_cell c2 q (some q3) in
        let p4 = record at { next = some n } in
        let (once_l, once_r) = once_parts left right is.once in
        let a =
          Seg-write_cell c2 q (some q3) none (some q) left
            (Seg-write_cell c1 n (some made_n) none (some q) left
              (Seg-write_cell m.cell n (some n1) none (some q) left parts.0 out_left) out_left)
            (once_left left right q is.once (head_here q (addrs zs))) in
        let a4 =
          Seg-set_next_at c3 none (some q) (some n) left p at a once_l (omega arith) last
            (rw (q≢p, n≢p) (rw n≢p at e)) in
        let b2 =
          Seg-write_cell c1 n (some made_n) (some p) none right
            (Seg-write_cell m.cell n (some n1) (some p) none right parts.1 out_right) out_right in
        let b4 =
          Seg-write_cell c3 p (some p4) (some n) none right
            (Seg-set_prev c2 (some p) none (some n) q b zs b2 (head_once q (addrs zs) once_r))
            (once_right left right p is.once here) in
        let new4 : write_cell c3 p (some p4) n ≡ some made_n =
          rw (apart_sym n p n≢p, apart_sym n q n≢q) (write_cell-same c1 n (some made_n)) in
        Seg-append (write_cell c3 p (some p4)) none none left ((n, d) ∷ right) a4
          (rw last (new4, b4))

  pub link_at-IsList :
      Returns
        (link_at (length ys) l.fresh (new_node d l))
        (λ m. IsList (record m { listsize = inc_ℤ m.listsize }) (ys ++ (l.fresh, d) ∷ right))
  link_at-IsList =
      let m = new_node d l in
      let n = l.fresh in
      let (at, e, to_q, here) = at_end in
      let p≢n = apart_of_counts p n (addrs left) here out_left in
      let q≢n = apart_of_counts q n (addrs right) (head_here q (addrs zs)) out_right in
      let q≢p = apart_sym p q (
        apart_of_counts p q (addrs left) here
          (once_left left right q is.once (head_here q (addrs zs)))) in
      (
        record m { cell = relinked m n p q d at old_q },
        link_at-relinked m n p q d at old_q (length ys)
            (walk-last_or m none (some q) l.head (negsuc 0) ys parts.0 ∙ ap ok last) (ground arith)
            e to_q parts.1.0 (apart_sym p n p≢n) (apart_sym q n q≢n) q≢p,
        record {
          chain = relinked-Seg at here e (apart_sym p n p≢n) (apart_sym q n q≢n) q≢p;
          once = once_insert left right n d is.once (is.known n (omega arith));
          known = known_insert left right n d is.known;
          ends =
              last_or-append ys n d right (some l.head)
              ∙ (sym (last_or-append ys q b zs (some l.head)) ∙ is.ends);
          size =
              ap inc_ℤ is.size
              ∙ ap pos (omega (arith, length-append ys right, length-append ys ((n, d) ∷ right)));
          room = omega (arith, is.room, length-append ys right, length-append ys ((n, d) ∷ right));
        },
      )

-- Unless a node follows, the new one becomes the last; else it goes between its neighbours.
link_last_or_at :
    (l : Dlist) (ys zs : Cells)
    → IsList l (ys ++ zs)
    → (d : ℤ)
    → Returns
        (if eqb_ℤ (pos (length ys)) l.listsize
          then link_last l.fresh (new_node d l)
          else link_at (length ys) l.fresh (new_node d l))
        (λ m. IsList (record m { listsize = inc_ℤ m.listsize }) (ys ++ (l.fresh, d) ∷ zs))
link_last_or_at l ys [] is d =
    let here : eqb_ℤ (pos (length ys)) l.listsize ≡ true =
      rw (is.size, length-append ys []) (ground arith) in
    rw here (link_last-IsList l ys (rw append-nil at is) d)
link_last_or_at l ys ((q, b) ∷ zs) is d =
    let there : eqb_ℤ (pos (length ys)) l.listsize ≡ false =
      rw (is.size, length-append ys ((q, b) ∷ zs)) (ground arith) in
    let (p, last) = last_some ys l.head in rw there (link_at-IsList l ys q b zs is d p last)

pub not_negative : (k : ℕ) → ltb_ℤ (pos k) (pos 0) ≡ false
unfolding ltb_ℤ
not_negative k = ground arith

-- On a valid list, `L_push` at a position that is not past the end returns a valid list, with the
-- new node at that position and the other nodes as they were.
pub l_push-IsList :
    (l : Dlist) (ys zs : Cells)
    → IsList l (ys ++ zs)
    → (d : ℤ) → Returns (l_push d (pos (length ys)) l) (λ m. IsList m (ys ++ (l.fresh, d) ∷ zs))
unfolding l_push
l_push-IsList l ys zs is d =
    let (m, run, ok_m) = link_last_or_at l ys zs is d in
    (record m { listsize = inc_ℤ m.listsize }, rw (not_negative (length ys), run) refl, ok_m)
