-- ===== src/Dlist/Inv.antt =====
-- What a `List` stands for, and the pointer operations on it.
use zone_buffer.Base.{ℕ, ◌≡◌, ◌<◌, ◌≤◌, refl, none, some, [], ◌∷◌, arith, count, length, ok}
use zone_buffer.Base.Int.{pos, negsuc}
use zone_buffer.Dlist.{Ptr, ListNode, Dlist, write_cell, load_node, set_next, set_prev, free, init}
use zone_buffer.Dlist.Cells.{Cells, addrs, last_or}
use zone_buffer.Dlist.Seg.{Seg}

-- The head, which carries no value, and the nodes of the list.
abbrev pub all : Dlist → Cells → Cells
all l xs = (l.head, negsuc 0) ∷ xs

pub record IsList (l : Dlist) (xs : Cells) : Type 0 where
  pub chain : Seg l.cell none none (all l xs)
  pub once : (k : ℕ) → count k (addrs (all l xs)) ≤ 1
  pub known : (k : ℕ) → l.fresh ≤ k → count k (addrs (all l xs)) ≡ 0
  pub ends : last_or xs (some l.head) ≡ some l.tail
  pub size : l.listsize ≡ pos (length xs)
  pub room : length xs < l.fresh

pub init-IsList : IsList init []
unfolding init count
init-IsList = record {
  chain = (refl, tt);
  once = λ k. ground arith;
  known = λ k h. ground arith;
  ends = refl;
  size = refl;
  room = omega arith;
}

module _ (l : Dlist) (p : ℕ) (n : ListNode) (e : l.cell p ≡ some n) where
  pub load_node-ok : load_node (some p) l ≡ ok n
  unfolding load_node
  load_node-ok = rw e refl

  pub set_next-ok :
      (q : Ptr)
      → set_next (some p) q l
        ≡ ok (record l { cell = write_cell l.cell p (some (record n { next = q })) })
  unfolding set_next
  set_next-ok q = rw load_node-ok refl

  pub set_prev-ok :
      (q : Ptr)
      → set_prev (some p) q l
        ≡ ok (record l { cell = write_cell l.cell p (some (record n { prev = q })) })
  unfolding set_prev
  set_prev-ok q = rw load_node-ok refl

  pub free-ok : free (some p) l ≡ ok (record l { cell = write_cell l.cell p none })
  unfolding free
  free-ok = rw load_node-ok refl
