-- ===== src/StdList/Index.antt =====
-- A list whose iterators are kept in a map from values, the way ZALP keeps its lists: the map
-- holds the iterator of every value, each value occurs once, and every iterator in it is valid.
use zone_buffer.Base.{
  ℕ, ◌+◌, ◌≤◌, ◌<◌, ◌≡◌, refl, ap, sym, ◌∙◌, [], ◌∷◌, ◌++◌, none, some, ok, ltb, if◌then◌else◌,
  arith, count, remove, count-append, count-remove,
}
use zone_buffer.Cuckoo.{Cuckoo}
use zone_buffer.StdList.{
  Iter, Node, StdList, values, size, values_of, empty, push_front, push_back, erase, back, pop_back,
  distance,
}
use zone_buffer.StdList.Nodes.{
  iters_of, node_of, drop_value, index_of, node_of-count, node_of-none, node_of-some,
  node_of-absent, values-drop_value, iters-drop_value, node_of-drop_value, erase_node-drop_value,
  distance_nodes-index_of, split_last, node_of-append, node_of-append_new, map-append_last,
}

pub values-push_back : (k : ℕ) (l : StdList) → values (push_back k l).0 ≡ values l ++ k ∷ []
unfolding push_back
values-push_back k l = map-append_last (λ n. n.value) l.nodes _

pub values-push_front : (k : ℕ) (l : StdList) → values (push_front k l).0 ≡ k ∷ values l
unfolding push_front
values-push_front k l = refl

module _ (C : Cuckoo) where
  pub record IsIndexed (m : C.Map Iter) (l : StdList) : Type 0 where
    pub known : (it : Iter) → count it (iters_of l.nodes) ≤ (if ltb it l.fresh then 1 else 0)
    pub once : (k : ℕ) → count k (values l) ≤ 1
    pub tracks : (k : ℕ) → C.find k m ≡ node_of k l.nodes

  pub empty-IsIndexed : IsIndexed C.empty empty
  unfolding count node_of
  empty-IsIndexed = record {
    known = λ it. ground arith;
    once = λ k. ground arith;
    tracks = λ k. C.find-empty k;
  }

  module _ {m : C.Map Iter} {l : StdList} (v : IsIndexed m l) (k : ℕ) where
    pub find-none : C.find k m ≡ none → count k (values l) ≡ 0
    find-none e = node_of-none k l.nodes (sym (v.tracks k) ∙ e)

    pub find-absent : count k (values l) ≡ 0 → C.find k m ≡ none
    find-absent e = v.tracks k ∙ node_of-absent k l.nodes e

    pub find-present : 0 < count k (values l) → (it : Iter) × (C.find k m ≡ some it)
    find-present h = let (it, e) = node_of-some k l.nodes h in (it, v.tracks k ∙ e)

    pub find-some : (it : Iter) → C.find k m ≡ some it → 0 < count k (values l)
    find-some it e = (node_of-count k l.nodes it (sym (v.tracks k) ∙ e)).1

    -- A new value goes to the front.
    pub push_front-IsIndexed :
        count k (values l) ≡ 0 → IsIndexed (C.insert k (push_front k l).1 m) (push_front k l).0
    unfolding push_front count node_of
    push_front-IsIndexed new = record {
      known = λ it. ground (arith, v.known it);
      once = λ j. ground (arith, v.once j);
      tracks = λ j. rw C.find-insert (ground (arith, v.tracks j, find-absent new));
    }

    pub push_back-IsIndexed :
        count k (values l) ≡ 0 → IsIndexed (C.insert k (push_back k l).1 m) (push_back k l).0
    unfolding push_back count node_of
    push_back-IsIndexed new =
        let n : Node = record { at = l.fresh; value = k } in
        record {
          known = λ it.
              rw (map-append_last (λ n. n.at) l.nodes n, count-append) (ground (arith, v.known it));
          once = λ j.
              rw (map-append_last (λ n. n.value) l.nodes n, count-append)
                (ground (arith, v.once j));
          tracks = λ j.
              rw (C.find-insert, node_of-append_new j l.nodes n new)
                (ground (arith, v.tracks j, find-absent new));
        }

    -- What an erasure through the map's iterator leaves.
    pub erase-IsIndexed :
        (it : Iter)
        → C.find k m ≡ some it
        → (l' : StdList) × (erase it l ≡ ok l')
          × IsIndexed (C.erase k m) l'
          × (values l' ≡ remove k (values l))
    unfolding erase
    erase-IsIndexed it e =
        let held = sym (v.tracks k) ∙ e in
        let bound : count it (iters_of l.nodes) ≤ 1 = ground (arith, v.known it) in
        (
          record l { nodes = drop_value k l.nodes },
          rw (erase_node-drop_value k l.nodes it bound held),
          record {
            known = λ i. omega (arith, v.known i, iters-drop_value k i l.nodes);
            once = λ j.
                rw values-drop_value
                  (omega (arith, v.once j, count-remove k j (values l) (find-some it e)));
            tracks = λ j.
                rw (C.find-erase, node_of-drop_value j k l.nodes (v.once k))
                  (ground (arith, v.tracks j));
          },
          values-drop_value k l.nodes,
        )

    -- The distance from the front to a value's iterator.
    pub distance-index_of :
        (it : Iter) → C.find k m ≡ some it → distance l it ≡ ok (index_of k (values l))
    unfolding distance
    distance-index_of it e =
        distance_nodes-index_of k l.nodes it (ground (arith, v.known it)) (sym (v.tracks k) ∙ e)

  -- `pop_back`, and the erasure of the value from the map.
  pub pop_back-IsIndexed :
      {m : C.Map Iter} {l : StdList}
      → IsIndexed m l
      → 0 < size l
      → (k : ℕ) × (l' : StdList) × (back l ≡ ok k)
        × (pop_back l ≡ ok l')
        × IsIndexed (C.erase k m) l'
        × (values l ≡ values l' ++ k ∷ [])
  unfolding back pop_back count
  pop_back-IsIndexed {l} v h =
      let (ms, n, e, b, i) = split_last l.nodes h in
      let spread : values l ≡ values_of ms ++ n.value ∷ [] =
        ap values_of e ∙ map-append_last (λ x. x.value) ms n in
      let iters : iters_of l.nodes ≡ iters_of ms ++ n.at ∷ [] =
        ap iters_of e ∙ map-append_last (λ x. x.at) ms n in
      let counts : (j : ℕ) → count j (values l) ≡ count j (values_of ms) + count j (n.value ∷ []) =
        λ j. ap (count j) spread ∙ count-append j (values_of ms) (n.value ∷ []) in
      let absent : count n.value (values_of ms) ≡ 0 =
        ground (arith, v.once n.value, counts n.value) in
      (
        n.value,
        record l { nodes = ms },
        rw b,
        rw i,
        record {
          known = λ it.
              omega
                (arith, v.known it, ap (count it) iters, count-append it (iters_of ms) (n.at ∷ []));
          once = λ j. omega (arith, v.once j, counts j);
          tracks = λ j.
              rw (C.find-erase, node_of-append j ms n absent)
                (ground (arith, v.tracks j, ap (node_of j) e));
        },
        spread,
      )
