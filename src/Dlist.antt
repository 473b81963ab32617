-- ===== src/Dlist.antt =====
-- src/datastructure.cpp and include/datastructure.h, class `List`: a doubly linked list with a head
-- that carries no value. `cell` is the memory of the nodes and `fresh` the address that the next
-- `new` gives, which no node has had; a read of a freed node, or of NULL, is undefined.
pub mod Cells
pub mod Seg
pub mod Inv
pub mod Push
pub mod Erase
pub mod Read
pub mod Destroy
pub mod Runs
use zone_buffer.Base.{
  ℕ, zero, suc, Bool, true, false, not, ◌||◌, Option, none, some, ◌==◌, if◌then◌else◌, is_some,
  Result, ok, fault, undefined, out_of_fuel, ◌>>=◌, ◌>>◌, assert, or_fault,
}
use zone_buffer.Base.Int.{ℤ, pos, negsuc, pos_part, inc_ℤ, dec_ℤ, eqb_ℤ, ltb_ℤ}

-- NULL is `none`.
abbrev pub Ptr : Type 0
Ptr = Option ℕ

-- `value` is the field `data`.
pub record ListNode : Type 0 where
  pub value : ℤ
  pub next : Ptr
  pub prev : Ptr

pub record Dlist : Type 0 where
  pub cell : ℕ → Option ListNode
  pub fresh : ℕ
  pub head : ℕ
  pub tail : ℕ
  pub listsize : ℤ

abbrev pub write_cell : (ℕ → Option ListNode) → ℕ → Option ListNode → ℕ → Option ListNode
write_cell cell p c a = if p == a then c else cell a

unfoldable pub load_node : Ptr → Dlist → Result ListNode
load_node none l = fault undefined
load_node (some p) l = or_fault (l.cell p) undefined

-- `p->next = q` and `p->prev = q`
unfoldable pub set_next : Ptr → Ptr → Dlist → Result Dlist
set_next none q l = fault undefined
set_next (some p) q l = do
  n ← load_node (some p) l
  ok (record l { cell = write_cell l.cell p (some (record n { next = q })) })

unfoldable pub set_prev : Ptr → Ptr → Dlist → Result Dlist
set_prev none q l = fault undefined
set_prev (some p) q l = do
  n ← load_node (some p) l
  ok (record l { cell = write_cell l.cell p (some (record n { prev = q })) })

-- `free` of what `new` has made, as a release of the node. By the rules of the language this is
-- undefined.
unfoldable pub free : Ptr → Dlist → Result Dlist
free none l = ok l
free (some p) l = do _ ← load_node (some p) l; ok (record l { cell = write_cell l.cell p none })

abbrev pub list_node : ℤ → ListNode
list_node d = record { value = d; next = none; prev = none }

-- `new ListNode(d)`; its address is the one that was `fresh`.
abbrev pub new_node : ℤ → Dlist → Dlist
new_node d l = record l {
  cell = write_cell l.cell l.fresh (some (list_node d));
  fresh = suc l.fresh;
}

-- The constructor, in a memory with no other node.
unfoldable pub init : Dlist
init = record {
  cell = write_cell (λ a. none) 0 (some (list_node (negsuc 0)));
  fresh = 1;
  head = 0;
  tail = 0;
  listsize = pos 0;
}

-- `for (i = 0; i < n; i++) p = p->next`
unfoldable pub walk : ℕ → Ptr → Dlist → Result Ptr
walk zero p l = ok p
walk (suc n) p l = do at ← load_node p l; walk n at.next l

-- The two branches of `L_push`, for the new node `n`.
unfoldable pub link_last : ℕ → Dlist → Result Dlist
link_last n l = do
  l ← set_next (some l.tail) (some n) l
  l ← set_prev (some n) (some l.tail) l
  ok (record l { tail = n })

unfoldable pub link_at : ℕ → ℕ → Dlist → Result Dlist
link_at rounds n l = do
  p ← walk rounds (some l.head) l
  at ← load_node p l
  l ← set_next (some n) at.next l
  l ← set_prev (some n) p l
  at ← load_node p l
  l ← set_prev at.next (some n) l
  set_next p (some n) l

-- The assertion has `||` where `&&` seems meant.
unfoldable pub l_push : ℤ → ℤ → Dlist → Result Dlist
l_push d position l =
    assert (not (ltb_ℤ position (pos 0)) || not (ltb_ℤ l.listsize position)) >> (do
      let n = l.fresh
      let m = new_node d l
      l ← (if eqb_ℤ position m.listsize then link_last n m else link_at (pos_part position) n m)
      ok (record l { listsize = inc_ℤ l.listsize }))

unfoldable pub l_push_front : ℤ → Dlist → Result Dlist
l_push_front d l = l_push d (pos 0) l

unfoldable pub l_push_back : ℤ → Dlist → Result Dlist
l_push_back d l = l_push d l.listsize l

-- `if (p->next != nullptr) p->next->prev = q`, for the node `p` that is read first.
unfoldable pub link_back : Ptr → Ptr → Dlist → Result Dlist
link_back p q l = do at ← load_node p l; if is_some at.next then set_prev at.next q l else ok l

unfoldable pub l_pop_front : Dlist → Result Dlist
l_pop_front l = do
  first ← load_node (some l.head) l
  assert (is_some first.next)
  p ← or_fault first.next undefined
  at ← load_node (some p) l
  l ← set_next (some l.head) at.next l
  l ← link_back (some p) (some l.head) l
  l ← free (some p) (record l { tail = if p == l.tail then l.head else l.tail })
  ok (record l { listsize = dec_ℤ l.listsize })

unfoldable pub l_pop_back : Dlist → Result Dlist
l_pop_back l = do
  assert (not (l.tail == l.head))
  last ← load_node (some l.tail) l
  l ← free (some l.tail) l
  p ← or_fault last.prev undefined
  l ← set_next (some p) none (record l { tail = p })
  ok (record l { listsize = dec_ℤ l.listsize })

unfoldable pub l_front : Dlist → Result ℤ
l_front l = do
  first ← load_node (some l.head) l
  assert (is_some first.next)
  at ← load_node first.next l
  ok at.value

unfoldable pub l_back : Dlist → Result ℤ
l_back l = do assert (not (l.tail == l.head)); last ← load_node (some l.tail) l; ok last.value

unfoldable pub l_erase : ℕ → Dlist → Result Dlist
l_erase node l = do
  at ← load_node (some node) l
  p ← or_fault at.prev undefined
  l ← set_next (some p) at.next (record l { tail = if node == l.tail then p else l.tail })
  l ← link_back (some node) (some p) l
  l ← free (some node) l
  ok (record l { listsize = dec_ℤ l.listsize })

abbrev pub l_size : Dlist → ℤ
l_size l = l.listsize

unfoldable pub l_is_empty : Dlist → Result Bool
l_is_empty l = do first ← load_node (some l.head) l; ok (not (is_some first.next))

abbrev pub same_ptr : Ptr → Ptr → Bool
same_ptr none none = true
same_ptr none (some q) = false
same_ptr (some p) none = false
same_ptr (some p) (some q) = p == q

-- The loop of `L_distance`, which a cycle without `end` would not leave. The fuel that it is given
-- is more than the nodes that there are.
unfoldable pub distance_loop : ℕ → ℕ → Ptr → Ptr → Dlist → Result ℕ
distance_loop zero i start end l = fault out_of_fuel
distance_loop (suc fuel) i start end l =
    if same_ptr start end || not (is_some start)
    then (assert (is_some start) >> ok i)
    else (do at ← load_node start l; distance_loop fuel (suc i) at.next end l)

unfoldable pub l_distance : Ptr → Ptr → Dlist → Result ℕ
l_distance start end l =
    assert (is_some start) >> (assert (is_some end) >> distance_loop (suc l.fresh) 0 start end l)

-- A negative length makes no round, as 0 does.
unfoldable pub l_advance : Ptr → ℕ → Dlist → Result Ptr
l_advance it zero l = ok it
l_advance it (suc len) l = do assert (is_some it); at ← load_node it l; l_advance at.next len l

unfoldable pub l_begin : Dlist → Result Ptr
l_begin l = do first ← load_node (some l.head) l; ok first.next

abbrev pub l_end : Dlist → Ptr
l_end l = some l.tail

-- The loop of the destructor, then `free(tail)`.
unfoldable pub destroy_loop : ℕ → ℕ → Ptr → Dlist → Result Dlist
destroy_loop zero p q l = fault out_of_fuel
destroy_loop (suc fuel) p none l = ok l
destroy_loop (suc fuel) p (some q) l = do
  l ← free (some p) l
  at ← load_node (some q) l
  destroy_loop fuel q at.next l

unfoldable pub destroy : Dlist → Result Dlist
destroy l = do
  first ← load_node (some l.head) l
  m ← destroy_loop (suc l.fresh) l.head first.next l
  free (some l.tail) m
