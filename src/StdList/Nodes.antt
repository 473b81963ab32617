-- ===== src/StdList/Nodes.antt =====
-- The nodes of a list, found by the value that they hold.
use zone_buffer.Base.{
  ℕ, ◌+◌, ◌≤◌, ◌<◌, ◌≡◌, refl, ap, ◌∙◌, inl, inr, List, [], ◌∷◌, ◌++◌, Option, none, some, ok, ◌==◌,
  if◌then◌else◌, length, map, arith, count, remove, Bool-cases,
}
use zone_buffer.StdList.{
  Iter, Node, values_of, last, init_nodes, erase_node, distance_nodes, StdList, size, values, back,
  pop_back,
}

abbrev pub iters_of : List Node → List Iter
iters_of = map λ n. n.at

-- The iterator of the first node that holds `k`.
unfoldable pub node_of : ℕ → List Node → Option Iter
node_of k [] = none
node_of k (n ∷ ns) = if n.value == k then some n.at else node_of k ns

unfoldable pub drop_value : ℕ → List Node → List Node
drop_value k [] = []
drop_value k (n ∷ ns) = if n.value == k then ns else n ∷ drop_value k ns

-- How many values stand before the first `k`.
unfoldable pub index_of : ℕ → List ℕ → ℕ
index_of k [] = 0
index_of k (x ∷ xs) = if x == k then 0 else index_of k xs + 1

pub node_of-count :
    (k : ℕ) (ns : List Node) (it : Iter)
    → node_of k ns ≡ some it
    → (0 < count it (iters_of ns)) × (0 < count k (values_of ns))
unfolding node_of count
node_of-count k [] it h = ground arith
node_of-count k (n ∷ ns) it h = ground (arith, node_of-count k ns it)

pub node_of-none : (k : ℕ) (ns : List Node) → node_of k ns ≡ none → count k (values_of ns) ≡ 0
unfolding node_of count
node_of-none k [] h = refl
node_of-none k (n ∷ ns) h = ground (arith, node_of-none k ns)

pub node_of-some :
    (k : ℕ) (ns : List Node) → 0 < count k (values_of ns) → (it : Iter) × (node_of k ns ≡ some it)
unfolding node_of count
node_of-some k [] h = absurd (omega arith)
node_of-some k (n ∷ ns) h = elim (Bool-cases (n.value == k)) [
  | inl hit ↦ (n.at, rw hit)
  | inr miss ↦ let (it, e) = node_of-some k ns (ground arith) in (it, rw miss e)
]

pub node_of-absent : (k : ℕ) (ns : List Node) → count k (values_of ns) ≡ 0 → node_of k ns ≡ none
unfolding node_of count
node_of-absent k [] h = refl
node_of-absent k (n ∷ ns) h = ground (arith, node_of-absent k ns)

pub values-drop_value :
    (k : ℕ) (ns : List Node) → values_of (drop_value k ns) ≡ remove k (values_of ns)
unfolding drop_value remove
values-drop_value k [] = refl
values-drop_value k (n ∷ ns) = ground (arith, values-drop_value k ns)

pub iters-drop_value :
    (k : ℕ) (it : Iter) (ns : List Node)
    → count it (iters_of (drop_value k ns)) ≤ count it (iters_of ns)
unfolding drop_value count
iters-drop_value k it [] = omega arith
iters-drop_value k it (n ∷ ns) = ground (arith, iters-drop_value k it ns)

pub node_of-drop_value :
    (j k : ℕ) (ns : List Node)
    → count k (values_of ns) ≤ 1
    → node_of j (drop_value k ns) ≡ (if k == j then none else node_of j ns)
unfolding drop_value node_of count
node_of-drop_value j k [] h = ground arith
node_of-drop_value j k (n ∷ ns) h = ground (arith, node_of-drop_value j k ns, node_of-absent k ns)

-- `erase` through the iterator of `k` takes out the node of `k`.
pub erase_node-drop_value :
    (k : ℕ) (ns : List Node) (it : Iter)
    → count it (iters_of ns) ≤ 1
    → node_of k ns ≡ some it
    → erase_node it ns ≡ ok (drop_value k ns)
unfolding erase_node drop_value node_of count
erase_node-drop_value k [] it once h = ground arith
erase_node-drop_value k (n ∷ ns) it once h =
    ground (arith, erase_node-drop_value k ns it, node_of-count k ns it)

-- `distance` to the iterator of `k` counts the values before it.
pub distance_nodes-index_of :
    (k : ℕ) (ns : List Node) (it : Iter)
    → count it (iters_of ns) ≤ 1
    → node_of k ns ≡ some it
    → distance_nodes ns it ≡ ok (index_of k (values_of ns))
unfolding distance_nodes index_of node_of count
distance_nodes-index_of k [] it once h = ground arith
distance_nodes-index_of k (n ∷ ns) it once h =
    ground (arith, distance_nodes-index_of k ns it, node_of-count k ns it)

-- A list that is not empty splits into its last node and the nodes before it.
pub split_last :
    (ns : List Node)
    → 0 < length ns
    → (ms : List Node) × (n : Node) × (ns ≡ ms ++ n ∷ [])
      × (last ns ≡ ok n)
      × (init_nodes ns ≡ ok ms)
unfolding last init_nodes
split_last [] h = absurd (omega arith)
split_last (n ∷ []) h = ([], n, refl, refl, refl)
split_last (n ∷ m ∷ ns) h =
    let (ms, x, e, l, i) = split_last (m ∷ ns) (omega arith) in (n ∷ ms, x, ap (◌∷◌ n) e, l, rw i)

pub node_of-append :
    (j : ℕ) (ms : List Node) (n : Node)
    → count n.value (values_of ms) ≡ 0
    → node_of j ms ≡ (if n.value == j then none else node_of j (ms ++ n ∷ []))
unfolding node_of count
node_of-append j [] n h = ground arith
node_of-append j (m ∷ ms) n h = ground (arith, node_of-append j ms n)

pub node_of-append_new :
    (j : ℕ) (ms : List Node) (n : Node)
    → count n.value (values_of ms) ≡ 0
    → node_of j (ms ++ n ∷ []) ≡ (if n.value == j then some n.at else node_of j ms)
unfolding node_of count
node_of-append_new j [] n h = ground arith
node_of-append_new j (m ∷ ms) n h = ground (arith, node_of-append_new j ms n)

pub map-append_last {ℓ} :
    {A : Type ℓ} (f : Node → A) (ms : List Node) (n : Node)
    → map f (ms ++ n ∷ []) ≡ map f ms ++ f n ∷ []
map-append_last f [] n = refl
map-append_last f (m ∷ ms) n = ap (◌∷◌ (f m)) (map-append_last f ms n)

pub pop_back-split :
    (l : StdList)
    → 0 < size l
    → (k : ℕ) × (l' : StdList) × (back l ≡ ok k)
      × (pop_back l ≡ ok l')
      × (values l ≡ values l' ++ k ∷ [])
unfolding back pop_back
pop_back-split l h =
    let (ms, n, e, b, i) = split_last l.nodes h in
    (
      n.value,
      record l { nodes = ms },
      rw b,
      rw i,
      ap values_of e ∙ map-append_last (λ x. x.value) ms n,
    )

pub values_of-nil : (ns : List Node) → length ns ≡ 0 → values_of ns ≡ []
values_of-nil [] h = refl
values_of-nil (n ∷ ns) h = absurd (omega arith)

pub values-nil : (l : StdList) → size l ≡ 0 → values l ≡ []
values-nil l h = values_of-nil l.nodes h

pub length-values_of : (ns : List Node) → length (values_of ns) ≡ length ns
length-values_of [] = refl
length-values_of (n ∷ ns) = omega (arith, length-values_of ns)
