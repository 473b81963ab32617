-- ===== src/Dlist/Destroy.antt =====
-- The destructor of `List`.
use zone_buffer.Base.{
  ℕ, zero, suc, ◌≡◌, ◌≢◌, ◌<◌, ◌≤◌, refl, ◌∙◌, ap, sym, none, some, ◌==◌, List, [], ◌∷◌, arith,
  count, length, Returns, Bool-cases, inl, inr, ==_iff,
}
use zone_buffer.Base.Int.{ℤ, negsuc}
use zone_buffer.Dlist.{Ptr, ListNode, Dlist, write_cell, destroy, destroy_loop}
use zone_buffer.Dlist.Cells.{Cells, addrs, first_or, last_or, head_once, once_tail}
use zone_buffer.Dlist.Seg.{Seg, Seg-write_cell}
use zone_buffer.Dlist.Inv.{all, IsList, load_node-ok, free-ok}

-- After the loop only the node `t` of `addresses` is left, and no other node has changed.
pub record OnlyLast (addresses : List ℕ) (t : ℕ) (l m : Dlist) : Type 0 where
  pub left : (n : ListNode) × (m.cell t ≡ some n)
  pub freed : (a : ℕ) → 0 < count a addresses → a ≢ t → m.cell a ≡ none
  pub others : (a : ℕ) → count a addresses ≡ 0 → m.cell a ≡ l.cell a
  pub tail : m.tail ≡ l.tail

OnlyLast-one : (p : ℕ) (l : Dlist) (n : ListNode) → l.cell p ≡ some n → OnlyLast (p ∷ []) p l l
unfolding count
OnlyLast-one p l n e = record {
  left = (n, e);
  freed = λ a h ne. absurd (ground (arith, h, ne));
  others = λ a h. refl;
  tail = refl;
}

OnlyLast-cons :
    (p t : ℕ) (rest : List ℕ) (l m : Dlist)
    → count p rest ≡ 0
    → OnlyLast rest t (record l { cell = write_cell l.cell p none }) m
    → OnlyLast (p ∷ rest) t l m
unfolding count
OnlyLast-cons p t rest l m out o = record {
  left = o.left;
  freed = λ a h ne. elim (Bool-cases (p == a)) [
    | inl same ↦
        let eq = (==_iff p a).0 same in
        o.others a (ap (λ (k : ℕ). count k rest) (sym eq) ∙ out) ∙ rw same refl
    | inr other ↦ o.freed a (ground (arith, h, other)) ne
  ];
  others = λ a h. ground (arith, o.others a, h);
  tail = o.tail;
}

destroy_loop-OnlyLast :
    (fuel : ℕ) (before : Ptr) (p : ℕ) (v : ℤ) (xs : Cells) (t : ℕ) (l : Dlist)
    → Seg l.cell before none ((p, v) ∷ xs)
    → ((k : ℕ) → count k (p ∷ addrs xs) ≤ 1)
    → last_or xs (some p) ≡ some t
    → length xs < fuel
    → Returns (destroy_loop fuel p (first_or xs none) l) (OnlyLast (p ∷ addrs xs) t l)
unfolding destroy_loop
destroy_loop-OnlyLast zero before p v xs t l s once last enough = absurd (omega arith)
destroy_loop-OnlyLast (suc fuel) before p v [] t l s once last enough =
    let same : p ≡ t = ground (arith, last) in (l, refl, rw (← same) (OnlyLast-one p l _ s.0))
destroy_loop-OnlyLast (suc fuel) before p v ((q, w) ∷ xs) t l s once last enough =
    let out = head_once p (q ∷ addrs xs) once in
    let m : Dlist = record l { cell = write_cell l.cell p none } in
    let rest = Seg-write_cell l.cell p none (some p) none ((q, w) ∷ xs) s.1 out in
    let (k, run, o) =
      destroy_loop-OnlyLast fuel (some p) q w xs t m rest (once_tail p (q ∷ addrs xs) once) last
        (omega arith) in
    (
      k,
      rw (free-ok l p _ s.0, load_node-ok m q _ rest.0) run,
      OnlyLast-cons p t (q ∷ addrs xs) l k out o,
    )

-- On a valid list, the destructor returns within its fuel, and every node of the list and its head
-- have been freed.
pub destroy-frees :
    (l : Dlist) (xs : Cells)
    → IsList l xs
    → Returns (destroy l) (λ m. (a : ℕ) → 0 < count a (addrs (all l xs)) → m.cell a ≡ none)
unfolding destroy
destroy-frees l xs is =
    let (m, run, o) =
      destroy_loop-OnlyLast (suc l.fresh) none l.head (negsuc 0) xs l.tail l is.chain is.once
        is.ends (omega (arith, is.room)) in
    let (n, e) = o.left in
    (
      record m { cell = write_cell m.cell l.tail none },
      rw (load_node-ok l l.head _ is.chain.0, run) (free-ok m l.tail n e),
      λ a h. elim (Bool-cases (l.tail == a)) [
        | inl same ↦ rw same refl
        | inr other ↦ rw other (o.freed a h (ground (arith, other)))
      ],
    )
