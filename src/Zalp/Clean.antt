-- ===== src/Zalp/Clean.antt =====
-- `dirty_to_clean` and `update_dirty`: what becomes of the frames that were flushed.
use zone_buffer.Base.{
  ℕ, ◌≡◌, ◌<◌, ◌≤◌, refl, ◌∙◌, ap, List, [], ◌∷◌, arith, count, Returns, count-remove, count-append,
}
use zone_buffer.Cuckoo.{Cuckoo}
use zone_buffer.StdList
use zone_buffer.StdList.{values}
use zone_buffer.StdList.Index
use zone_buffer.Zalp.{Zalp, clean_one, dirty_to_clean, update_dirty}
use zone_buffer.Zalp.View.{View, view, cleaned, freed}
use zone_buffer.Zalp.Inv.{IsValid}
use zone_buffer.Zalp.Moves.{leave_dirty_lem, leave_lru_lem}

module _ (C : Cuckoo) where
  clean_one-cleaned :
      (n id : ℕ) (z : Zalp C)
      → IsValid C n [] z
      → 0 < count id (values z.d_list)
      → Returns
          (clean_one C id z)
          (λ y. IsValid C n [] y × (view C y ≡ cleaned (id ∷ []) (view C z)))
  unfolding clean_one count
  clean_one-cleaned n id z v h =
      let (d, e, i, w) = leave_dirty_lem C id z v.dirty_indexed h in
      let no_c : count id (values z.c_list) ≡ 0 = omega (arith, v.used id, v.lru_indexed.once id) in
      let absent = Index.find-absent C v.clean_indexed id no_c in
      let (c, it) = StdList.push_back id z.c_list in
      let w' = Index.values-push_back id z.c_list in
      let counts = λ (k : ℕ). count-append k (values z.c_list) (id ∷ []) in
      (
        record z {
          d_list = d;
          d_map = C.erase id z.d_map;
          c_list = c;
          c_map = C.insert id it z.c_map;
        },
        rw (e, absent),
        (
          record {
            lru_indexed = v.lru_indexed;
            clean_indexed = Index.push_back-IsIndexed C v.clean_indexed id no_c;
            dirty_indexed = i;
            used = λ k. omega (
              arith,
              v.used k,
              counts k,
              ap (count k) w,
              ap (count k) w',
              count-remove id k (values z.d_list) h,
            );
            apart = v.apart;
          },
          rw (w, w'),
        ),
      )

  -- If the invariant holds, `dirty_to_clean` returns on distinct dirty frames, puts them in
  -- their order behind the clean ones, and keeps the invariant.
  pub dirty_to_clean-cleaned :
      (n : ℕ) (victims : List ℕ) (z : Zalp C)
      → IsValid C n [] z
      → ((k : ℕ) → count k victims ≤ count k (values z.d_list))
      → Returns
          (dirty_to_clean C victims z)
          (λ y. IsValid C n [] y × (view C y ≡ cleaned victims (view C z)))
  unfolding dirty_to_clean count
  dirty_to_clean-cleaned n [] z v h = (z, refl, (v, refl))
  dirty_to_clean-cleaned n (id ∷ victims) z v h =
      let here : 0 < count id (values z.d_list) = ground (arith, h id) in
      let (y, e, (u, w)) = clean_one-cleaned n id z v here in
      let left = λ (k : ℕ). count-remove id k (values z.d_list) here in
      let (x, e', (u', w')) =
        dirty_to_clean-cleaned n victims y u
          λ k. omega (arith, h k, left k, ap (λ (q : View). count k q.dirty) w) in
      (x, rw e e', (u', w' ∙ ap (cleaned victims) w))

  -- If the invariant holds, `update_dirty` returns on distinct dirty frames, takes them out of
  -- use and puts them in their order behind the free ones, and keeps the invariant.
  pub update_dirty-freed :
      (n : ℕ) (victims : List ℕ) (z : Zalp C)
      → IsValid C n [] z
      → ((k : ℕ) → count k victims ≤ count k (values z.d_list))
      → Returns
          (update_dirty C victims z)
          (λ y. IsValid C n [] y × (view C y ≡ freed victims (view C z)))
  unfolding update_dirty count
  update_dirty-freed n [] z v h = (z, refl, (v, refl))
  update_dirty-freed n (id ∷ victims) z v h =
      let here : 0 < count id (values z.d_list) = ground (arith, h id) in
      let used_here : 0 < count id (values z.l_list) = omega (arith, v.used id) in
      let (d, e, i, w) = leave_dirty_lem C id z v.dirty_indexed here in
      let y : Zalp C = record z { d_list = d; d_map = C.erase id z.d_map } in
      let (l, e', i', w') = leave_lru_lem C id y v.lru_indexed used_here in
      let f = (StdList.push_back id z.f_list).0 in
      let wf = Index.values-push_back id z.f_list in
      let x : Zalp C = record y { l_list = l; l_map = C.erase id z.l_map; f_list = f } in
      let counts = λ (k : ℕ). count-append k (values z.f_list) (id ∷ []) in
      let gone_d = λ (k : ℕ). count-remove id k (values z.d_list) here in
      let gone_l = λ (k : ℕ). count-remove id k (values z.l_list) used_here in
      let u : IsValid C n [] x = record {
        lru_indexed = i';
        clean_indexed = v.clean_indexed;
        dirty_indexed = i;
        used = λ k. omega (arith, v.used k, gone_d k, gone_l k, ap (count k) w, ap (count k) w');
        apart = λ k. omega (arith, v.apart k, gone_l k, counts k, ap (count k) w', ap (count k) wf);
      } in
      let (r, e'', (u', w'')) =
        update_dirty-freed n victims x u λ k. omega (arith, h k, gone_d k, ap (count k) w) in
      (r, rw (e, e') e'', (u', w'' ∙ ap (freed victims) (rw (w, w', wf))))
