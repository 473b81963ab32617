-- ===== src/Tests/Structures.antt =====
-- The list and the hash table on small inputs.
use zone_buffer.Base.{
  ℕ, ◌≡◌, ◌<◌, refl, none, some, ◌==◌, if◌then◌else◌, [], ◌∷◌, arith, count, ok, fault, undefined,
  ◌>>=◌, Returns,
}
use zone_buffer.Base.Int.{pos, negsuc}
use zone_buffer.Dlist.{Dlist, write_cell, init, l_push, l_erase, l_pop_back, l_distance, destroy}
use zone_buffer.Dlist.Cells.{Cells, addrs}
use zone_buffer.Dlist.Seg.{node}
use zone_buffer.Dlist.Inv.{all, IsList}
use zone_buffer.Dlist.Read.{l_push-undefined}
use zone_buffer.Dlist.Destroy.{destroy-frees}
use zone_buffer.Dlist.Runs.{
  Carries, push_back_call, push_front_call, pop_front_call, pop_back_call, run_list, run_values,
  drop_last, run_list-run_values,
}
use zone_buffer.HashTable.{HashTable, item, h_find, h_insert, h_erase}
use zone_buffer.HashTable
use zone_buffer.Dlist
use zone_buffer.HashTable.Runs.{
  Shows, Map, insert_call, erase_call, run_table, run_map, run_table-run_map, null_value-hides,
}

-- The nodes 2, 1 and 3 carry 8, 7 and 9.
abbrev three_cells : Cells
three_cells = (2, pos 8) ∷ (1, pos 7) ∷ (3, pos 9) ∷ []

abbrev three : Dlist
three = record {
  cell =
      write_cell
        (write_cell
          (write_cell (write_cell (λ a. none) 0 (some (node (negsuc 0) (some 2) none))) 2
            (some (node (pos 8) (some 1) (some 0))))
          1 (some (node (pos 7) (some 3) (some 2))))
        3 (some (node (pos 9) none (some 1)));
  fresh = 4;
  head = 0;
  tail = 3;
  listsize = pos 3;
}

three-IsList : IsList three three_cells
unfolding count
three-IsList = record {
  chain = (refl, (refl, (refl, (refl, tt))));
  once = λ k. ground arith;
  known = λ k h. ground arith;
  ends = refl;
  size = refl;
  room = omega arith;
}

l_push-undefined_example : l_push (pos 6) (pos 4) three ≡ fault undefined
l_push-undefined_example = l_push-undefined three three_cells (pos 6) 4 three-IsList (omega arith)

destroy-frees_example :
    Returns
      (destroy three)
      (λ m. (a : ℕ) → 0 < count a (addrs (all three three_cells)) → m.cell a ≡ none)
destroy-frees_example = destroy-frees three three_cells three-IsList

-- Two pushes at the back, one at the front, and a pop at each end.
run_list-run_values_example :
    Dlist.Runs.Refines
      (run_list
        (push_back_call (pos 5)
          ∷ push_back_call (pos 6)
          ∷ push_front_call (pos 4)
          ∷ pop_front_call
          ∷ pop_back_call
          ∷ [])
        init)
      (ok (pos 5 ∷ []))
unfolding run_values drop_last
run_list-run_values_example = run_list-run_values (
    push_back_call (pos 5)
    ∷ push_back_call (pos 6)
    ∷ push_front_call (pos 4)
    ∷ pop_front_call
    ∷ pop_back_call
    ∷ [])

-- Two keys of one chain, one of them inserted twice and then erased.
run_table-run_map_example :
    HashTable.Runs.Refines
      (run_table
        (insert_call 7 1 ∷ insert_call 1007 2 ∷ insert_call 7 3 ∷ erase_call 7 ∷ [])
        HashTable.init)
      (ok (λ j.
        if 7 == j
        then none
        else if 7 == j
        then some 3
        else if 1007 == j
        then some 2
        else if 7 == j
        then some 1
        else none))
unfolding run_map
run_table-run_map_example =
    run_table-run_map (insert_call 7 1 ∷ insert_call 1007 2 ∷ insert_call 7 3 ∷ erase_call 7 ∷ [])

null_value-hides_example :
    (do
      t ← h_insert (pos 7) none HashTable.init
      u ← h_insert (pos 1007) (some 5) t
      h_find (pos 1007) u)
    ≡ ok none
null_value-hides_example = null_value-hides 1007 7 5 refl
