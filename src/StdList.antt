-- ===== src/StdList.antt =====
-- `std::list<int>` as the program uses it. An iterator is the number of a node, and every node of
-- a list has a number of its own; `fresh` is the number of the next node. A step through an
-- iterator whose node is gone is undefined.
pub mod Nodes
pub mod Index
use zone_buffer.Base.{
  ℕ, suc, ◌+◌, List, [], ◌∷◌, ◌++◌, Result, ok, fault, undefined, ◌>>=◌, ◌==◌, if◌then◌else◌,
  length, map,
}

abbrev pub Iter : Type 0
Iter = ℕ

pub record Node : Type 0 where
  pub at : Iter
  pub value : ℕ

pub record StdList : Type 0 where
  pub nodes : List Node
  pub fresh : ℕ

abbrev pub empty : StdList
empty = record { nodes = []; fresh = 0 }

abbrev pub size : StdList → ℕ
size l = length l.nodes

abbrev pub values_of : List Node → List ℕ
values_of = map λ n. n.value

abbrev pub values : StdList → List ℕ
values l = values_of l.nodes

-- The list, and `begin()` of it.
unfoldable pub push_front : ℕ → StdList → StdList × Iter
push_front v l =
    let n : Node = record { at = l.fresh; value = v } in
    (record { nodes = n ∷ l.nodes; fresh = suc l.fresh }, l.fresh)

-- The list, and `prev(end())` of it.
unfoldable pub push_back : ℕ → StdList → StdList × Iter
push_back v l =
    let n : Node = record { at = l.fresh; value = v } in
    (record { nodes = l.nodes ++ n ∷ []; fresh = suc l.fresh }, l.fresh)

unfoldable pub last : List Node → Result Node
last [] = fault undefined
last (n ∷ []) = ok n
last (n ∷ m ∷ ns) = last (m ∷ ns)

unfoldable pub back : StdList → Result ℕ
back l = do n ← last l.nodes; ok n.value

unfoldable pub init_nodes : List Node → Result (List Node)
init_nodes [] = fault undefined
init_nodes (n ∷ []) = ok []
init_nodes (n ∷ m ∷ ns) = do ms ← init_nodes (m ∷ ns); ok (n ∷ ms)

unfoldable pub pop_back : StdList → Result StdList
pop_back l = do ns ← init_nodes l.nodes; ok (record l { nodes = ns })

unfoldable pub erase_node : Iter → List Node → Result (List Node)
erase_node it [] = fault undefined
erase_node it (n ∷ ns) =
    let rest = erase_node it ns in if n.at == it then ok ns else (do ms ← rest; ok (n ∷ ms))

unfoldable pub erase : Iter → StdList → Result StdList
erase it l = do ns ← erase_node it l.nodes; ok (record l { nodes = ns })

-- The number of steps from `begin()` to the iterator.
unfoldable pub distance_nodes : List Node → Iter → Result ℕ
distance_nodes [] it = fault undefined
distance_nodes (n ∷ ns) it =
    let rest = distance_nodes ns it in if n.at == it then ok 0 else (do d ← rest; ok (d + 1))

unfoldable pub distance : StdList → Iter → Result ℕ
distance l it = distance_nodes l.nodes it
