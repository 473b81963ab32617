-- ===== src/HashTable.antt =====
-- src/datastructure.cpp and include/datastructure.h, class `HashTable`: an array of chains of items.
-- No item is in two chains and no pointer to one outlives a call, so that a chain is its first item
-- and the list of the others. A key is an `int`, and -1 marks a first item that is free.
pub mod Buckets
pub mod Chains
pub mod Laws
pub mod Runs
use zone_buffer.Base.{
  ℕ, Bool, true, false, not, ◌&&◌, List, [], ◌∷◌, ◌++◌, Option, none, some, ◌==◌, if◌then◌else◌,
  is_some, Result, ok, fault, undefined, assert_failed, ◌>>=◌, ◌>>◌, assert,
}
use zone_buffer.Base.Int.{ℤ, pos, negsuc, eqb_ℤ, rem_ℤ}
use zone_buffer.Dlist.{Ptr}

pub record HashItem : Type 0 where
  pub key : ℤ
  pub value : Ptr

abbrev pub Chain : Type 0
Chain = HashItem × List HashItem

pub record HashTable : Type 0 where
  pub hashtable : ℕ → Chain

abbrev pub item : ℤ → Ptr → HashItem
item key value = record { key = key; value = value }

unfoldable pub init : HashTable
init = record { hashtable = λ i. (item (negsuc 0) none, []) }

-- `HashFuction`: the remainder, which has the sign of the key.
unfoldable pub hash_function : ℤ → ℤ
hash_function key = rem_ℤ key 1000

-- The index in `hashtable[HashFuction(key)]`. A negative one is outside the array.
unfoldable pub index_of_key : ℤ → Result ℕ
index_of_key key = elim (hash_function key) [ pos i ↦ ok i | negsuc i ↦ fault undefined ]

-- The empty body of `H_modValue`.
unfoldable pub h_mod_value : ℤ → Ptr → HashTable → HashTable
h_mod_value key value t = t

-- The loop of `H_find` along a chain.
unfoldable pub search : ℤ → List HashItem → Option HashItem
search key [] = none
search key (p ∷ ps) = if eqb_ℤ p.key key then some p else search key ps

-- A chain whose first item has no value is not searched.
unfoldable pub find_in : ℤ → Chain → Option HashItem
find_in key (p, ps) = if not (is_some p.value) then none else search key (p ∷ ps)

unfoldable pub h_find : ℤ → HashTable → Result (Option HashItem)
h_find key t = do index ← index_of_key key; ok (find_in key (t.hashtable index))

-- `p->value = value` at the item that `H_find` has found.
unfoldable pub assign : ℤ → Ptr → List HashItem → List HashItem
assign key value [] = []
assign key value (p ∷ ps) =
    if eqb_ℤ p.key key then record p { value = value } ∷ ps else p ∷ assign key value ps

unfoldable pub assign_in : ℤ → Ptr → Chain → Chain
assign_in key value (p, ps) =
    if eqb_ℤ p.key key then (record p { value = value }, ps) else (p, assign key value ps)

-- A new key takes the first item if that is free, and else a new item at the end.
unfoldable pub add_in : ℤ → Ptr → Chain → Chain
add_in key value (p, ps) =
    if eqb_ℤ p.key (negsuc 0) then (item key value, []) else (p, ps ++ item key value ∷ [])

unfoldable pub insert_in : ℤ → Ptr → Chain → Chain
insert_in key value c =
    if is_some (find_in key c) then assign_in key value c else add_in key value c

abbrev pub put : ℕ → Chain → HashTable → HashTable
put index c t = record { hashtable = λ i. if index == i then c else t.hashtable i }

unfoldable pub h_insert : ℤ → Ptr → HashTable → Result HashTable
h_insert key value t = do
  index ← index_of_key key
  ok (put index (insert_in key value (t.hashtable index)) t)

-- The items after the first, without the one with the key.
unfoldable pub unlink : ℤ → List HashItem → Result (List HashItem)
unlink key [] = fault assert_failed
unlink key (p ∷ ps) =
    let rest = unlink key ps in if eqb_ℤ p.key key then ok ps else (do qs ← rest; ok (p ∷ qs))

-- The first item is marked as free if it is alone, and else replaced by the next one.
unfoldable pub erase_in : ℤ → Chain → Result Chain
erase_in key (p, []) =
    assert (not (eqb_ℤ p.key (negsuc 0)))
    >> (if eqb_ℤ p.key key then ok (record p { key = negsuc 0 }, []) else fault assert_failed)
erase_in key (p, q ∷ ps) =
    assert (not (eqb_ℤ p.key (negsuc 0)))
    >> (if eqb_ℤ p.key key then ok (q, ps) else (do qs ← unlink key (q ∷ ps); ok (p, qs)))

unfoldable pub h_erase : ℤ → HashTable → Result HashTable
h_erase key t = do
  index ← index_of_key key
  c ← erase_in key (t.hashtable index)
  ok (put index c t)
