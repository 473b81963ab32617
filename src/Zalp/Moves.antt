-- ===== src/Zalp/Moves.antt =====
-- `push`, `set_dirty` and `update`: no fault, the invariant kept, and the plain lists that they leave.
use zone_buffer.Base.{
  ℕ, ◌≡◌, ◌<◌, ◌≤◌, refl, ◌∙◌, ap, [], ◌∷◌, arith, count, Bool, true, false, ok, ◌>>=◌, Returns,
  >>=_assoc, inl, inr, Option-cases, remove, remove-absent, count-remove, count_move, none, some,
}
use zone_buffer.Cuckoo.{Cuckoo}
use zone_buffer.StdList
use zone_buffer.StdList.{Iter, StdList, values}
use zone_buffer.StdList.Index
use zone_buffer.Zalp.{
  Zalp, push, set_dirty, update, leave_lru, leave_side, leave_clean, leave_dirty, enter_dirty,
}
use zone_buffer.Zalp.View.{view, pushed, without, dirtied}
use zone_buffer.Zalp.Inv.{IsValid}

-- How often a frame is free, in the LRU list, clean and dirty.
module _ (C : Cuckoo) where
  pub push-view : (id : ℕ) (b : Bool) (z : Zalp C) → view C (push C id b z) ≡ pushed id b (view C z)
  unfolding push StdList.push_front
  push-view id true z = refl
  push-view id false z = refl

  module _ (n : ℕ) {z : Zalp C} (id : ℕ) where
    pub held-absent :
        IsValid C n (id ∷ []) z
        → (count id (values z.l_list) ≡ 0)
          × (count id (values z.c_list) ≡ 0)
          × (count id (values z.d_list) ≡ 0)
    unfolding count
    held-absent v = ground (arith, v.apart id, v.used id)

    -- The caller's frame comes back as the latest used one.
    pub push-IsValid : (b : Bool) → IsValid C n (id ∷ []) z → IsValid C n [] (push C id b z)
    unfolding push count StdList.push_front
    push-IsValid true v =
        let (no_l, no_c, no_d) = held-absent v in
        record {
          lru_indexed = Index.push_front-IsIndexed C v.lru_indexed id no_l;
          clean_indexed = v.clean_indexed;
          dirty_indexed = Index.push_front-IsIndexed C v.dirty_indexed id no_d;
          used = λ k. omega (arith, v.used k);
          apart = λ k. omega (arith, v.apart k);
        }
    push-IsValid false v =
        let (no_l, no_c, no_d) = held-absent v in
        record {
          lru_indexed = Index.push_front-IsIndexed C v.lru_indexed id no_l;
          clean_indexed = Index.push_front-IsIndexed C v.clean_indexed id no_c;
          dirty_indexed = v.dirty_indexed;
          used = λ k. omega (arith, v.used k);
          apart = λ k. omega (arith, v.apart k);
        }

  -- The erasures from a list and its map, for each of the three lists.
  module _ (id : ℕ) (z : Zalp C) where
    pub leave_lru_lem :
        Index.IsIndexed C z.l_map z.l_list
        → 0 < count id (values z.l_list)
        → (l : StdList) × (leave_lru C id z
            ≡ ok (record z { l_list = l; l_map = C.erase id z.l_map }))
          × Index.IsIndexed C (C.erase id z.l_map) l
          × (values l ≡ remove id (values z.l_list))
    unfolding leave_lru
    leave_lru_lem v h =
        let (it, f) = Index.find-present C v id h in
        let (l, e, i, w) = Index.erase-IsIndexed C v id it f in (l, rw (f, e), i, w)

    pub leave_clean_lem :
        Index.IsIndexed C z.c_map z.c_list
        → 0 < count id (values z.c_list)
        → (l : StdList) × (leave_clean C id z
            ≡ ok (record z { c_list = l; c_map = C.erase id z.c_map }))
          × Index.IsIndexed C (C.erase id z.c_map) l
          × (values l ≡ remove id (values z.c_list))
    unfolding leave_clean
    leave_clean_lem v h =
        let (it, f) = Index.find-present C v id h in
        let (l, e, i, w) = Index.erase-IsIndexed C v id it f in (l, rw (f, leave_clean, e), i, w)

    pub leave_dirty_lem :
        Index.IsIndexed C z.d_map z.d_list
        → 0 < count id (values z.d_list)
        → (l : StdList) × (leave_dirty C id z
            ≡ ok (record z { d_list = l; d_map = C.erase id z.d_map }))
          × Index.IsIndexed C (C.erase id z.d_map) l
          × (values l ≡ remove id (values z.d_list))
    unfolding leave_dirty
    leave_dirty_lem v h =
        let (it, f) = Index.find-present C v id h in
        let (l, e, i, w) = Index.erase-IsIndexed C v id it f in (l, rw (f, e), i, w)

  -- A frame in use leaves the LRU list, and whichever of the two other lists has it.
  pub take_out :
      (n : ℕ) (id : ℕ) (z : Zalp C)
      → IsValid C n [] z
      → 0 < count id (values z.l_list)
      → Returns
          (leave_lru C id z >>= leave_side C id)
          (λ y. IsValid C n (id ∷ []) y × (view C y ≡ without id (view C z)))
  unfolding leave_side count
  take_out n id z v h =
      let (l, e, i, w) = leave_lru_lem id z v.lru_indexed h in
      let y : Zalp C = record z { l_list = l; l_map = C.erase id z.l_map } in
      let one : count id (values z.l_list) ≤ 1 = v.lru_indexed.once id in
      let gone_l = λ (k : ℕ). count-remove id k (values z.l_list) h in
      elim (Option-cases (C.find id z.c_map)) [
        | inr (it, f) ↦
            let held = Index.find-some C v.clean_indexed id it f in
            let (c, e', i', w') = leave_clean_lem id y v.clean_indexed held in
            let gone_c = λ (k : ℕ). count-remove id k (values z.c_list) held in
            (
              record y { c_list = c; c_map = C.erase id z.c_map },
              rw (e, f, e'),
              (
                record {
                  lru_indexed = i;
                  clean_indexed = i';
                  dirty_indexed = v.dirty_indexed;
                  used = λ k.
                      omega (arith, v.used k, gone_l k, gone_c k, ap (count k) w, ap (count k) w');
                  apart = λ k. omega (arith, v.apart k, gone_l k, ap (count k) w);
                },
                rw (w, w', remove-absent id (values z.d_list) (omega (arith, v.used id))),
              ),
            )
        | inl f ↦
            let none_c = Index.find-none C v.clean_indexed id f in
            let held : 0 < count id (values z.d_list) = omega (arith, v.used id) in
            let (it, g) = Index.find-present C v.dirty_indexed id held in
            let (d, e', i', w') = leave_dirty_lem id y v.dirty_indexed held in
            let gone_d = λ (k : ℕ). count-remove id k (values z.d_list) held in
            (
              record y { d_list = d; d_map = C.erase id z.d_map },
              rw (e, f, g, e'),
              (
                record {
                  lru_indexed = i;
                  clean_indexed = v.clean_indexed;
                  dirty_indexed = i';
                  used = λ k.
                      omega (arith, v.used k, gone_l k, gone_d k, ap (count k) w, ap (count k) w');
                  apart = λ k. omega (arith, v.apart k, gone_l k, ap (count k) w);
                },
                rw (w, w', remove-absent id (values z.c_list) none_c),
              ),
            )
      ]

  -- If the invariant holds, `update` returns on a frame in use, makes it the latest used one, on
  -- the side that it is told, and keeps the invariant.
  pub update-pushed :
      (n : ℕ) (id : ℕ) (b : Bool) (z : Zalp C)
      → IsValid C n [] z
      → 0 < count id (values z.l_list)
      → Returns
          (update C id b z)
          (λ y. IsValid C n [] y × (view C y ≡ pushed id b (without id (view C z))))
  unfolding update
  update-pushed n id b z v h =
      let (y, e, (u, w)) = take_out n id z v h in
      (
        push C id b y,
        >>=_assoc (leave_lru C id z) (leave_side C id) (λ x. ok (push C id b x)) ∙ rw e,
        (push-IsValid n id b u, push-view id b y ∙ ap (pushed id b) w),
      )

  enter_dirty-known :
      (id : ℕ) (z : Zalp C) (it : Iter) → C.find id z.d_map ≡ some it → enter_dirty C id z ≡ z
  unfolding enter_dirty
  enter_dirty-known id z it f = rw (f, enter_dirty)

  enter_dirty-new :
      (id : ℕ) (z : Zalp C)
      → C.find id z.d_map ≡ none
      → enter_dirty C id z ≡ record z {
        d_list = (StdList.push_front id z.d_list).0;
        d_map = C.insert id (StdList.push_front id z.d_list).1 z.d_map;
      }
  unfolding enter_dirty
  enter_dirty-new id z f = rw (f, enter_dirty)

  leave_clean-absent : (id : ℕ) (z : Zalp C) → C.find id z.c_map ≡ none → leave_clean C id z ≡ ok z
  unfolding leave_clean
  leave_clean-absent id z f = rw (f, leave_clean)

  -- If the invariant holds, `set_dirty` returns on a frame in use, makes a clean one the latest
  -- dirty one and leaves a dirty one in its place, and keeps the invariant.
  pub set_dirty-dirtied :
      (n : ℕ) (id : ℕ) (z : Zalp C)
      → IsValid C n [] z
      → 0 < count id (values z.l_list)
      → Returns (set_dirty C id z) (λ y. IsValid C n [] y × (view C y ≡ dirtied id (view C z)))
  unfolding set_dirty
  set_dirty-dirtied n id z v h = elim (Option-cases (C.find id z.d_map)) [
    | inr (it, f) ↦
        let held = Index.find-some C v.dirty_indexed id it f in
        let no_c : count id (values z.c_list) ≡ 0 =
          omega (arith, v.used id, v.lru_indexed.once id) in
        (
          z,
          rw (enter_dirty-known id z it f)
              (leave_clean-absent id z (Index.find-absent C v.clean_indexed id no_c)),
          (v, ground arith),
        )
    | inl f ↦
        let none_d = Index.find-none C v.dirty_indexed id f in
        let held : 0 < count id (values z.c_list) = omega (arith, v.used id) in
        let (d, it) = StdList.push_front id z.d_list in
        let y : Zalp C = record z { d_list = d; d_map = C.insert id it z.d_map } in
        let (c, e, i, w) = leave_clean_lem id y v.clean_indexed held in
        (
          record y { c_list = c; c_map = C.erase id z.c_map },
          rw (enter_dirty-new id z f) e,
          (
            record {
              lru_indexed = v.lru_indexed;
              clean_indexed = i;
              dirty_indexed = Index.push_front-IsIndexed C v.dirty_indexed id none_d;
              used = λ k.
                  rw (w, Index.values-push_front id z.d_list)
                    (count_move k id (values z.l_list) (values z.c_list) (values z.d_list)
                      (v.used k) held);
              apart = v.apart;
            },
            rw (w, Index.values-push_front id z.d_list) (ground arith),
          ),
        )
  ]
