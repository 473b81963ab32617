-- ===== src/Dlist/Erase.antt =====
-- `L_erase`, and the two pops, which are erasures of the first and of the last node.
use zone_buffer.Base.{
  ℕ, suc, ◌≡◌, ◌<◌, ◌≤◌, refl, ◌∙◌, ap, sym, subst, fun_ext, true, false, Option, none, some, ◌==◌,
  if◌then◌else◌, List, [], ◌∷◌, ◌++◌, append-nil, arith, count, length, length-append, ok, Returns,
}
use zone_buffer.Base.Int.{ℤ, pos, dec_ℤ}
use zone_buffer.Dlist.{
  Ptr, ListNode, Dlist, write_cell, link_back, l_erase, l_pop_front, l_pop_back,
}
use zone_buffer.Dlist.Cells.{
  Cells, addrs, first_or, last_or, last_or-append, last_here, last_some, apart_of_counts,
  once_right, once_left, once_parts, out_of_parts, head_once, head_here, once_delete, known_delete,
  once_tail,
}
use zone_buffer.Dlist.Seg.{
  node, Seg, Seg-write_cell, Seg-append, Seg-split, Seg-set_next, Seg-set_next_at, led_back,
  Seg-led_back, led_back-other, Seg-led_back_apart,
}
use zone_buffer.Dlist.Inv.{all, IsList, load_node-ok, set_next-ok, set_prev-ok, free-ok}

link_back-led_back :
    (m : Dlist) (x : ℕ) (v : ℤ) (before to : Ptr) (xs : Cells)
    → m.cell x ≡ some (node v (first_or xs none) before)
    → Seg m.cell (some x) none xs
    → link_back (some x) to m ≡ ok (record m { cell = led_back xs to m.cell })
unfolding link_back
link_back-led_back m x v before to [] e s = rw (load_node-ok m x _ e) refl
link_back-led_back m x v before to ((q, w) ∷ xs) e s =
    rw (load_node-ok m x _ e) (set_prev-ok m q _ s.0 to)

-- The tail after the node `x` is gone: `p`, if it was the last one.
tail_gone : {x tail p : ℕ} → some x ≡ some tail → some p ≡ some (if x == tail then p else tail)
tail_gone e = ground (arith, e)

pointer_injective : {x y : ℕ} → some x ≡ some y → x ≡ y
pointer_injective e = ground (arith, e)

apart_sym : (p n : ℕ) → (p == n) ≡ false → (n == p) ≡ false
apart_sym p n e = ground (arith, e)

tail_other :
    (x tail p : ℕ) (xs : List ℕ)
    → count x xs ≡ 0
    → 0 < count tail xs
    → (if x == tail then p else tail) ≡ tail
unfolding count
tail_other x tail p xs out here = ground (arith)

tail_stays :
    (x p : ℕ) {tail : ℕ} (q : ℕ) (w : ℤ) (xs : Cells)
    → count x (addrs ((q, w) ∷ xs)) ≡ 0
    → last_or xs (some q) ≡ some tail
    → last_or xs (some q) ≡ some (if x == tail then p else tail)
tail_stays x p {tail} q w xs out e =
    e
    ∙ ap some (
        sym (
          tail_other x tail p (q ∷ addrs xs) out
            (last_here ((q, w) ∷ xs) none tail (omega arith) e)))

module _ (l : Dlist) (ys : Cells) (x : ℕ) (v : ℤ) (zs : Cells) (is : IsList l (ys ++ (x, v) ∷ zs))
    (p : ℕ) (last : last_or ys (some l.head) ≡ some p) where
  abbrev left : Cells
  left = all l ys

  abbrev right : Cells
  right = (x, v) ∷ zs

  parts : Seg l.cell none (some x) left × Seg l.cell (some p) none right
  parts = let (s, t) = Seg-split l.cell none none left right is.chain in (s, rw last at t)

  -- What is known of the addresses.
  once_left_part : (k : ℕ) → count k (addrs left) ≤ 1
  once_left_part = (once_parts left right is.once).0

  once_right_part : (k : ℕ) → count k (addrs right) ≤ 1
  once_right_part = (once_parts left right is.once).1

  x_left : count x (addrs left) ≡ 0
  x_left = once_left left right x is.once (head_here x (addrs zs))

  x_zs : count x (addrs zs) ≡ 0
  x_zs = head_once x (addrs zs) once_right_part

  left_zs : (k : ℕ) → 0 < count k (addrs left) → count k (addrs zs) ≡ 0
  left_zs k h = (out_of_parts ((x, v) ∷ []) zs k (once_right left right k is.once h)).1

  p_left : 0 < count p (addrs left)
  p_left = last_here left none p (omega arith) last

  p≢x : (p == x) ≡ false
  p≢x = apart_of_counts p x (addrs left) p_left x_left

  module _ (at : ListNode) (e : l.cell p ≡ some at) where
    led_on : ℕ → Option ListNode
    led_on = write_cell l.cell p (some (record at { next = first_or zs none }))

    unlinked : ℕ → Option ListNode
    unlinked = write_cell (led_back zs (some p) led_on) x none

    zs_on : Seg led_on (some x) none zs
    unfolding led_on
    zs_on = Seg-write_cell l.cell p _ (some x) none zs parts.1.1 (left_zs p p_left)

    unlinked-Seg : Seg unlinked none none (left ++ zs)
    unfolding unlinked led_on
    unlinked-Seg =
        let on =
          Seg-set_next_at l.cell none (some x) (first_or zs none) left p at parts.0 once_left_part
            (omega arith) last e in
        let a = Seg-led_back_apart led_on (some p) none (first_or zs none) zs left on left_zs in
        let b =
          Seg-led_back led_on (some x) (some p) zs zs_on (once_tail x (addrs zs) once_right_part) in
        Seg-append unlinked none none left zs
          (Seg-write_cell (led_back zs (some p) led_on) x none none (first_or zs none) left a
            x_left)
          (rw last (Seg-write_cell (led_back zs (some p) led_on) x none (some p) none zs b x_zs))

    x_on : led_on x ≡ some (node v (first_or zs none) (some p))
    unfolding led_on
    x_on = rw p≢x parts.1.0

    x_back : led_back zs (some p) led_on x ≡ some (node v (first_or zs none) (some p))
    x_back = led_back-other led_on (some p) zs x x_zs ∙ x_on

    abbrev erased : Dlist
    erased = record l {
      cell = unlinked;
      tail = if x == l.tail then p else l.tail;
      listsize = dec_ℤ l.listsize;
    }

    l_erase-erased : l_erase x l ≡ ok erased
    unfolding l_erase unlinked led_on
    l_erase-erased =
        let m : Dlist = record l { tail = if x == l.tail then p else l.tail } in
        let m1 : Dlist = record m { cell = led_on } in
        let m2 : Dlist = record m1 { cell = led_back zs (some p) led_on } in
        rw
          (
            load_node-ok l x _ parts.1.0,
            set_next-ok m p at e (first_or zs none),
            link_back-led_back m1 x v (some p) (some p) zs x_on zs_on,
            free-ok m2 x _ x_back,
          )
          refl

    erased-ends : last_or (ys ++ zs) (some l.head) ≡ some (if x == l.tail then p else l.tail)
    erased-ends = ends_cases zs x_zs (last_or-append ys x v zs (some l.head)) is.ends
      where
        ends_cases :
            (zs : Cells)
            → count x (addrs zs) ≡ 0
            → last_or (ys ++ (x, v) ∷ zs) (some l.head) ≡ last_or zs (some x)
            → last_or (ys ++ (x, v) ∷ zs) (some l.head) ≡ some l.tail
            → last_or (ys ++ zs) (some l.head) ≡ some (if x == l.tail then p else l.tail)
        ends_cases [] out e f = rw (append-nil, last) (tail_gone (sym e ∙ f))
        ends_cases ((q, w) ∷ zs) out e f =
            last_or-append ys q w zs (some l.head) ∙ tail_stays x p q w zs out (sym e ∙ f)

    length-right : length (ys ++ right) ≡ suc (length (ys ++ zs))
    length-right = omega (arith, length-append ys right, length-append ys zs)

    erased-IsList : IsList erased (ys ++ zs)
    erased-IsList = record {
      chain = unlinked-Seg;
      once = (once_delete left zs x v is.once).0;
      known = λ k h. known_delete left zs x v k (is.known k h);
      ends = erased-ends;
      size = ap dec_ℤ (is.size ∙ ap pos length-right);
      room = omega (arith, is.room, length-append ys right, length-append ys zs);
    }

  at_end : (at : ListNode) × (l.cell p ≡ some at) × (at.next ≡ some x)
  at_end =
      let (at, e, to_x, _, _) =
        Seg-set_next l.cell none (some x) none left p parts.0 once_left_part (omega arith) last in
      (at, e, to_x)

module _ (l : Dlist) (ys : Cells) (x : ℕ) (v : ℤ) (zs : Cells)
    (is : IsList l (ys ++ (x, v) ∷ zs)) where
  -- On a valid list, `L_erase` of one of its nodes returns a valid list of the other nodes in
  -- their order.
  pub l_erase-IsList : Returns (l_erase x l) (λ m. IsList m (ys ++ zs))
  l_erase-IsList =
      let (p, last) = last_some ys l.head in
      let (at, e, _) = at_end l ys x v zs is p last in
      (
        erased l ys x v zs is p last at e,
        l_erase-erased l ys x v zs is p last at e,
        erased-IsList l ys x v zs is p last at e,
      )

-- `L_pop_front` does to the memory what `L_erase` of the first node does.
pub l_pop_front-l_erase :
    (l : Dlist) (x : ℕ) (v : ℤ) (zs : Cells) → IsList l ((x, v) ∷ zs) → l_pop_front l ≡ l_erase x l
unfolding l_pop_front led_on unlinked
l_pop_front-l_erase l x v zs is =
    let p = l.head in
    let (at, e, to_x) = at_end l [] x v zs is p refl in
    let m1 : Dlist = record l { cell = led_on l [] x v zs is p refl at e } in
    let m2 : Dlist = record m1 {
      cell = led_back zs (some p) m1.cell;
      tail = if x == l.tail then p else l.tail;
    } in
    rw
      (
        load_node-ok l p at e,
        to_x,
        load_node-ok l x _ is.chain.1.0,
        set_next-ok l p at e (first_or zs none),
        link_back-led_back m1 x v (some p) (some p) zs (x_on l [] x v zs is p refl at e)
            (zs_on l [] x v zs is p refl at e),
        free-ok m2 x _ (x_back l [] x v zs is p refl at e),
        l_erase-erased l [] x v zs is p refl at e,
      )
      refl

swapped :
    (cell : ℕ → Option ListNode) (p x : ℕ) (c d : Option ListNode)
    → (p == x) ≡ false
    → write_cell (write_cell cell x c) p d ≡ write_cell (write_cell cell p d) x c
swapped cell p x c d ne = fun_ext λ a. ground (arith, ne)

self : (p : ℕ) → (p == p) ≡ true
self p = ground arith

last_out :
    (l : Dlist) (ys : Cells) (v : ℤ)
    → IsList l (ys ++ (l.tail, v) ∷ [])
    → l_pop_back l ≡ l_erase l.tail l
unfolding l_pop_back led_on unlinked
last_out l ys v is =
    let x = l.tail in
    let (p, last) = last_some ys l.head in
    let (at, e, _) = at_end l ys x v [] is p last in
    let here = (parts l ys x v [] is p last).1.0 in
    let out = x_left l ys x v [] is p last in
    let other : (x == l.head) ≡ false =
      apart_sym l.head x
        (apart_of_counts l.head x (addrs (all l ys)) (head_here l.head (addrs ys)) out) in
    let ne = p≢x l ys x v [] is p last in
    let m : Dlist = record l { cell = write_cell l.cell x none; tail = p } in
    let at_p : m.cell p ≡ some at = rw (apart_sym p x ne) e in
    rw
      (
        other,
        load_node-ok l x _ here,
        free-ok l x _ here,
        set_next-ok m p at at_p none,
        l_erase-erased l ys x v [] is p last at e,
        self x,
      )
      (ap
        (λ (cell : ℕ → Option ListNode).
          ok (record l { cell = cell; tail = p; listsize = dec_ℤ l.listsize }))
        (swapped l.cell p x none (some (record at { next = none })) ne))

-- On a valid list that is not empty, `L_pop_back` does what `L_erase` of the last node does.
pub l_pop_back-l_erase :
    (l : Dlist) (ys : Cells) (x : ℕ) (v : ℤ)
    → IsList l (ys ++ (x, v) ∷ [])
    → l_pop_back l ≡ l_erase x l
l_pop_back-l_erase l ys x v is =
    let at_tail : l.tail ≡ x =
      pointer_injective (sym is.ends ∙ last_or-append ys x v [] (some l.head)) in
    subst (λ (y : ℕ). IsList l (ys ++ (y, v) ∷ []) → l_pop_back l ≡ l_erase y l) at_tail
      (last_out l ys v) is
