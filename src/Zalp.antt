-- ===== src/Zalp.antt =====
-- src/zalp.cpp and include/zalp.h, class `ZALP`: the replacement policy of the buffer. `l_list` has
-- every resident frame, the latest used first; `c_list` and `d_list` have the clean and the dirty
-- ones of them, `f_list` the frames that were never used. A map keeps the iterators of each list.
pub mod View
pub mod Inv
pub mod Moves
pub mod Frames
pub mod Evict
pub mod Clean
use mathlib.Core.List.{reverse}
use zone_buffer.Base.{
  ℕ, zero, suc, ◌+◌, ◌-◌, Bool, true, false, not, ◌||◌, List, [], ◌∷◌, Option, none, some, ◌==◌,
  ltb, leb, if◌then◌else◌, is_some, Result, ok, fault, assert_failed, out_of_range, undefined,
  ◌>>=◌, ◌>>◌, assert, or_fault, range_from,
}
use zone_buffer.Cuckoo.{Cuckoo}
use zone_buffer.Params.{Params}
use zone_buffer.StdList
use zone_buffer.StdList.{Iter, StdList, size, values, back, pop_back, distance}

module _ (C : Cuckoo) where
  pub record Zalp : Type 0 where
    pub l_list : StdList
    pub f_list : StdList
    pub c_list : StdList
    pub d_list : StdList
    pub l_map : C.Map Iter
    pub c_map : C.Map Iter
    pub d_map : C.Map Iter

  unfoldable pub push_all : List ℕ → StdList → StdList
  push_all [] l = l
  push_all (x ∷ xs) l = push_all xs (StdList.push_back x l).0

  -- `ZALP::ZALP`
  unfoldable pub init : Params → Zalp
  init p = record {
    l_list = StdList.empty;
    f_list = push_all (range_from 0 p.def_buf_size) StdList.empty;
    c_list = StdList.empty;
    d_list = StdList.empty;
    l_map = C.empty;
    c_map = C.empty;
    d_map = C.empty;
  }

  -- The frame, and whether it is free.
  unfoldable pub get_frame : Zalp → Result (Zalp × ℕ × Bool)
  get_frame z =
      if not (size z.f_list == 0)
      then (do id ← back z.f_list; f ← pop_back z.f_list; ok (record z { f_list = f }, id, true))
      else (do
        assert (not (size z.c_list == 0))
        id ← back z.c_list
        c ← pop_back z.c_list
        iter_l ← or_fault (C.find id z.l_map) out_of_range
        l ← StdList.erase iter_l z.l_list
        ok (
          record z {
            c_list = c;
            c_map = C.erase id z.c_map;
            l_list = l;
            l_map = C.erase id z.l_map;
          },
          id,
          false,
        ))

  unfoldable pub is_evict : Params → Zalp → Result Bool
  is_evict p z =
      if not (size z.f_list == 0)
        || (leb (size z.l_list) p.work_reg_size || ltb p.work_reg_size (size z.c_list))
      then ok false
      else (do
        iter_c ← back z.c_list
        if not (is_some (C.find iter_c z.c_map)) then ok true else (do
          iter_l ← or_fault (C.find iter_c z.l_map) out_of_range
          d ← distance z.l_list iter_l
          ok (ltb d p.work_reg_size)))

  -- The loop of `get_candidate`, with the value at the iterator and those that stand before it, nearest
  -- first. Each round ends with `prev(iterD)`, the last one too, which is undefined at the first node.
  unfoldable pub candidate_loop : ℕ → ℕ → List ℕ → List ℕ → Result (List ℕ)
  candidate_loop zero x before candidates = ok candidates
  candidate_loop (suc n) x [] candidates = fault undefined
  candidate_loop (suc n) x (y ∷ before) candidates = candidate_loop n y before (x ∷ candidates)

  -- The iterator starts at `prev(dList->end())`.
  unfoldable pub walk_back : ℕ → List ℕ → Result (List ℕ)
  walk_back n [] = fault undefined
  walk_back n (x ∷ before) = candidate_loop n x before []

  unfoldable pub get_candidate : Params → Zalp → Result (List ℕ)
  get_candidate p z = walk_back (p.def_buf_size - p.work_reg_size) (reverse (values z.d_list))

  unfoldable pub get_candidate_cflru : Zalp → Result (List ℕ)
  get_candidate_cflru z = do id ← back z.d_list; ok (id ∷ [])

  -- The first `if` of `set_dirty`.
  unfoldable pub enter_dirty : ℕ → Zalp → Zalp
  enter_dirty id z = elim (C.find id z.d_map) [
    | some it ↦ z
    | none ↦
        let (d, begin) = StdList.push_front id z.d_list in
        record z { d_list = d; d_map = C.insert id begin z.d_map }
  ]

  -- The second.
  unfoldable pub leave_clean : ℕ → Zalp → Result Zalp
  leave_clean id z = elim (C.find id z.c_map) [
    | none ↦ ok z
    | some it ↦ do
      c ← StdList.erase it z.c_list
      ok (record z { c_list = c; c_map = C.erase id z.c_map })
  ]

  unfoldable pub set_dirty : ℕ → Zalp → Result Zalp
  set_dirty id z = leave_clean id (enter_dirty id z)

  -- `dMap.find`, which may throw, and the two erasures after it.
  unfoldable pub leave_dirty : ℕ → Zalp → Result Zalp
  leave_dirty id z = do
    iter_d ← or_fault (C.find id z.d_map) out_of_range
    d ← StdList.erase iter_d z.d_list
    ok (record z { d_list = d; d_map = C.erase id z.d_map })

  unfoldable pub leave_lru : ℕ → Zalp → Result Zalp
  leave_lru id z = do
    iter_l ← or_fault (C.find id z.l_map) out_of_range
    l ← StdList.erase iter_l z.l_list
    ok (record z { l_list = l; l_map = C.erase id z.l_map })

  unfoldable pub update_dirty : List ℕ → Zalp → Result Zalp
  update_dirty [] z = ok z
  update_dirty (id ∷ victims) z = do
    z ← leave_dirty id z
    z ← leave_lru id z
    update_dirty victims (record z { f_list = (StdList.push_back id z.f_list).0 })

  unfoldable pub clean_one : ℕ → Zalp → Result Zalp
  clean_one id z = do
    z ← leave_dirty id z
    assert (not (is_some (C.find id z.c_map)))
    let (c, it) = StdList.push_back id z.c_list
    ok (record z { c_list = c; c_map = C.insert id it z.c_map })

  unfoldable pub dirty_to_clean : List ℕ → Zalp → Result Zalp
  dirty_to_clean [] z = ok z
  dirty_to_clean (id ∷ victims) z = do z ← clean_one id z; dirty_to_clean victims z

  unfoldable pub push : ℕ → Bool → Zalp → Zalp
  push id is_dirty z =
      let (l, begin_l) = StdList.push_front id z.l_list in
      let y : Zalp = record z { l_list = l; l_map = C.insert id begin_l z.l_map } in
      if not is_dirty
      then (let (c, begin_c) = StdList.push_front id y.c_list in
          record y { c_list = c; c_map = C.insert id begin_c y.c_map })
      else (let (d, begin_d) = StdList.push_front id y.d_list in
          record y { d_list = d; d_map = C.insert id begin_d y.d_map })

  -- The `if` of `update`: out of whichever of the two lists has the frame.
  unfoldable pub leave_side : ℕ → Zalp → Result Zalp
  leave_side id z =
      if is_some (C.find id z.c_map)
      then leave_clean id z
      else if is_some (C.find id z.d_map)
      then leave_dirty id z
      else fault assert_failed

  unfoldable pub update : ℕ → Bool → Zalp → Result Zalp
  update id is_dirty z = do z ← leave_lru id z; z ← leave_side id z; ok (push id is_dirty z)

  -- The loop of `is_correct`: `c_list` and `d_list` are to stand in `l_list` in their own orders.
  unfoldable pub merge_loop : List ℕ → List ℕ → List ℕ → Result (Unit {0})
  merge_loop [] [] [] = ok tt
  merge_loop [] (p ∷ ps) qs = fault assert_failed
  merge_loop [] [] (q ∷ qs) = fault assert_failed
  merge_loop (x ∷ xs) [] qs = fault undefined
  merge_loop (x ∷ xs) (p ∷ ps) [] = if x == p then merge_loop xs ps [] else fault undefined
  merge_loop (x ∷ xs) (p ∷ ps) (q ∷ qs) =
      let left = merge_loop xs ps (q ∷ qs) in
      let right = merge_loop xs (p ∷ ps) qs in
      if x == p then left else if x == q then right else fault assert_failed

  unfoldable pub is_correct : Zalp → Result (Unit {0})
  is_correct z = do
    assert (size z.l_list == size z.d_list + size z.c_list)
    merge_loop (values z.l_list) (values z.c_list) (values z.d_list)
