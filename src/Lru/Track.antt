-- ===== src/Lru/Track.antt =====
-- The map of `LRU` against its list, although the map keeps the iterators of pages that have left it.
use zone_buffer.Base.{
  ℕ, ◌+◌, ◌≡◌, ◌≢◌, ◌<◌, ◌≤◌, refl, ◌∙◌, ap, sym, inl, inr, List, [], ◌∷◌, ◌++◌, Option, some,
  Option-cases, fault, undefined, Returns, ◌==◌, ltb, if◌then◌else◌, map, arith, count, remove,
  Bool-cases,
}
use zone_buffer.StdList.{Iter, Node, values, values_of, erase_node, erase, push_front}
use zone_buffer.StdList.Nodes.{
  iters_of, node_of, drop_value, node_of-some, values-drop_value, iters-drop_value,
  erase_node-drop_value,
}
use zone_buffer.Lru.{Lru, init, push, update}

-- A page in the list has its iterator in the map. What the map has for another page is the iterator
-- of a node that is gone. This holds of every page but `k`.
pub record TracksBut (k : ℕ) (l : Lru) : Type 0 where
  pub known :
      (it : Iter) → count it (iters_of l.l_list.nodes) ≤ (if ltb it l.l_list.fresh then 1 else 0)
  pub here : (j : ℕ) → j ≢ k → 0 < count j (values l.l_list) → l.l_map j ≡ node_of j l.l_list.nodes
  pub stale :
      (j : ℕ) (it : Iter)
      → j ≢ k
      → count j (values l.l_list) ≡ 0
      → l.l_map j ≡ some it
      → (count it (iters_of l.l_list.nodes) ≡ 0) × (it < l.l_list.fresh)

-- So it is with every page.
pub record Tracks (l : Lru) : Type 0 where
  pub known :
      (it : Iter) → count it (iters_of l.l_list.nodes) ≤ (if ltb it l.l_list.fresh then 1 else 0)
  pub here : (j : ℕ) → 0 < count j (values l.l_list) → l.l_map j ≡ node_of j l.l_list.nodes
  pub stale :
      (j : ℕ) (it : Iter)
      → count j (values l.l_list) ≡ 0
      → l.l_map j ≡ some it
      → (count it (iters_of l.l_list.nodes) ≡ 0) × (it < l.l_list.fresh)

pub push-Tracks : (k : ℕ) (l : Lru) → TracksBut k l → Tracks (push k l)
unfolding push push_front count node_of
push-Tracks k l t = record {
  known = λ it. ground (arith, t.known it);
  here = λ j h. ground (arith, t.here j, h);
  stale = λ j it h e. (ground (arith, t.stale j it, h, e), ground (arith, t.stale j it, h, e));
}

pub Tracks-TracksBut : (k : ℕ) (l : Lru) → Tracks l → TracksBut k l
Tracks-TracksBut k l t = record {
  known = t.known;
  here = λ j ne. t.here j;
  stale = λ j it ne. t.stale j it;
}

pub init-Tracks : Tracks init
unfolding init count node_of
init-Tracks = record {
  known = λ it. ground arith;
  here = λ j h. ground (arith, h);
  stale = λ j it h e. ground (arith, e);
}

node_of-drop_other : (j k : ℕ) (ns : List Node) → j ≢ k → node_of j (drop_value k ns) ≡ node_of j ns
unfolding drop_value node_of
node_of-drop_other j k [] ne = refl
node_of-drop_other j k (n ∷ ns) ne = ground (arith, ne, node_of-drop_other j k ns ne)

count-remove_other : (j k : ℕ) (xs : List ℕ) → j ≢ k → count j (remove k xs) ≡ count j xs
unfolding count remove
count-remove_other j k [] ne = refl
count-remove_other j k (x ∷ xs) ne = ground (arith, ne, count-remove_other j k xs ne)

erase_node-absent :
    (it : Iter) (ns : List Node) → count it (iters_of ns) ≡ 0 → erase_node it ns ≡ fault undefined
unfolding erase_node count
erase_node-absent it [] h = refl
erase_node-absent it (n ∷ ns) h = ground (arith, h, erase_node-absent it ns)

-- The list without the node of `k`, when the map still has it.
dropped-TracksBut :
    (k : ℕ) (l : Lru)
    → Tracks l
    → TracksBut k (record l { l_list = record (l.l_list) { nodes = drop_value k l.l_list.nodes } })
dropped-TracksBut k l t =
    let nodes = l.l_list.nodes in
    let fewer : (j : ℕ)
        → j ≢ k
        → count j (values_of (drop_value k nodes)) ≡ count j (values_of nodes) =
      λ j ne.
        ap (count j) (values-drop_value k nodes) ∙ count-remove_other j k (values_of nodes) ne in
    record {
      known = λ it. omega (arith, t.known it, iters-drop_value k it nodes);
      here =
          λ j ne h. t.here j (omega (arith, h, fewer j ne)) ∙ sym (node_of-drop_other j k nodes ne);
      stale = λ j it ne h e.
          let (out, old) = t.stale j it (sym (fewer j ne) ∙ h) e in
          (omega (arith, out, iters-drop_value k it nodes), old);
    }

known_once : (l : Lru) → Tracks l → (it : Iter) → count it (iters_of l.l_list.nodes) ≤ 1
known_once l t it = ground (arith, t.known it)

pub values-push : (k : ℕ) (l : Lru) → values (push k l).l_list ≡ k ∷ values l.l_list
unfolding push push_front
values-push k l = refl

pub update-Tracks :
    (k : ℕ) (l : Lru)
    → Tracks l
    → 0 < count k (values l.l_list)
    → Returns (update k l) (λ m. Tracks m × (values m.l_list ≡ k ∷ remove k (values l.l_list)))
unfolding update erase
update-Tracks k l t h =
    let (it, e) = node_of-some k l.l_list.nodes h in
    let erased = erase_node-drop_value k l.l_list.nodes it (known_once l t it) e in
    let rest : Lru = record l {
      l_list = record (l.l_list) { nodes = drop_value k l.l_list.nodes };
    } in
    (
      push k rest,
      rw (t.here k h ∙ e, erased) refl,
      (
        push-Tracks k rest (dropped-TracksBut k l t),
        values-push k rest ∙ ap (λ (xs : List ℕ). k ∷ xs) (values-drop_value k l.l_list.nodes),
      ),
    )

pub update-absent :
    (k : ℕ) (l : Lru) → Tracks l → count k (values l.l_list) ≡ 0 → update k l ≡ fault undefined
unfolding update erase
update-absent k l t h = elim (Option-cases (l.l_map k)) [
  | inl none_there ↦ rw none_there refl
  | inr (it, e) ↦ rw (e, erase_node-absent it l.l_list.nodes (t.stale k it h e).0) refl
]

-- The list without its last node.
node_of-front :
    (j : ℕ) (ms : List Node) (n : Node)
    → 0 < count j (values_of ms)
    → node_of j (ms ++ n ∷ []) ≡ node_of j ms
unfolding node_of count
node_of-front j [] n h = absurd (omega arith)
node_of-front j (m ∷ ms) n h = ground (arith, node_of-front j ms n)

node_of-last :
    (j : ℕ) (ms : List Node) (n : Node)
    → count j (values_of ms) ≡ 0
    → n.value ≡ j
    → node_of j (ms ++ n ∷ []) ≡ some n.at
unfolding node_of count
node_of-last j [] n h e = ground (arith, e)
node_of-last j (m ∷ ms) n h e = ground (arith, h, node_of-last j ms n)

count_last :
    (f : Node → ℕ) (k : ℕ) (ms : List Node) (n : Node)
    → count k (map f (ms ++ n ∷ [])) ≡ count k (map f ms) + (if f n == k then 1 else 0)
unfolding count
count_last f k [] n = ground arith
count_last f k (m ∷ ms) n = ground (arith, count_last f k ms n)

some_iter : {x y : Iter} → some x ≡ some y → x ≡ y
some_iter e = cc

last_gone :
    (c x at fresh : ℕ)
    → c + (if at == x then 1 else 0) ≤ (if ltb x fresh then 1 else 0)
    → at ≡ x
    → (c ≡ 0) × (x < fresh)
last_gone c x at fresh h e = (ground (arith, h, e), ground (arith, h, e))

module _ (ms : List Node) (n : Node) (f : ℕ) (m : ℕ → Option Iter)
    (t : Tracks (record { l_list = record { nodes = ms ++ n ∷ []; fresh = f }; l_map = m })) where
  stale_then :
      (j : ℕ) (it : Iter)
      → count j (values_of ms) ≡ 0
      → m j ≡ some it
      → (count it (iters_of ms) ≡ 0) × (it < f)
  stale_then j it h e =
      let nodes_at = count_last (λ x. x.at) it ms n in
      let pages = count_last (λ x. x.value) j ms n in
      elim (Bool-cases (n.value == j)) [
        | inl same ↦
            let at_j : n.value ≡ j = ground (arith, same) in
            let present : 0 < count j (values_of (ms ++ n ∷ [])) = rw (pages, same) (omega arith) in
            let own : n.at ≡ it =
              some_iter (sym (node_of-last j ms n h at_j) ∙ sym (t.here j present) ∙ e) in
            last_gone (count it (iters_of ms)) it n.at f (rw (← nodes_at) (t.known it)) own
        | inr other ↦
            let absent : count j (values_of (ms ++ n ∷ [])) ≡ 0 =
              rw (pages, other) (omega (arith, h)) in
            let (out, old) = t.stale j it absent e in (omega (arith, nodes_at, out), old)
      ]

  pub shortened-Tracks : Tracks (record { l_list = record { nodes = ms; fresh = f }; l_map = m })
  shortened-Tracks = record {
    known = λ it. omega (arith, t.known it, count_last (λ x. x.at) it ms n);
    here = λ j h.
        t.here j (omega (arith, h, count_last (λ x. x.value) j ms n)) ∙ node_of-front j ms n h;
    stale = stale_then;
  }
