-- ===== src/Zalp/Frames.antt =====
-- `get_frame`: where the next frame comes from.
use zone_buffer.Base.{
  ℕ, ◌+◌, ◌≡◌, ◌<◌, refl, ◌∙◌, ap, [], ◌∷◌, ◌++◌, arith, count, Bool, true, false, Bool-cases, ◌==◌,
  ok, fault, assert_failed, Returns, inl, inr, remove, count-remove, count-append,
}
use zone_buffer.Cuckoo.{Cuckoo}
use zone_buffer.StdList.{values, size}
use zone_buffer.StdList.Index
use zone_buffer.StdList.Nodes.{pop_back-split, values-nil}
use zone_buffer.Zalp.{Zalp, get_frame}
use zone_buffer.Zalp.View.{View, view}
use zone_buffer.Zalp.Inv.{IsValid}

-- A free frame comes from the end of the free ones; if there is none, the last clean frame leaves
-- the clean ones and the LRU order.
abbrev pub Takes : ℕ → Bool → View → View → Type 0
Takes id true v w = v ≡ record w { free = w.free ++ id ∷ [] }
Takes id false v w =
    (v.free ≡ [])
    × (w.free ≡ [])
    × (v.clean ≡ w.clean ++ id ∷ [])
    × (w.lru ≡ remove id v.lru)
    × (w.dirty ≡ v.dirty)

module _ (C : Cuckoo) where
  module _ (n : ℕ) {z : Zalp C} (v : IsValid C n [] z) where
    free-Takes :
        0 < size z.f_list
        → Returns
            (get_frame C z)
            (λ (y, id, free). IsValid C n (id ∷ []) y × Takes id free (view C z) (view C y))
    unfolding get_frame count
    free-Takes h =
        let (id, f, b, p, w) = pop_back-split z.f_list h in
        let counts : (k : ℕ) → count k (values z.f_list) ≡ count k (values f) + count k (id ∷ []) =
          λ k. ap (count k) w ∙ count-append k (values f) (id ∷ []) in
        let full : (size z.f_list == 0) ≡ false = ground arith in
        (
          (record z { f_list = f }, id, true),
          rw (full, b, p),
          (
            record {
              lru_indexed = v.lru_indexed;
              clean_indexed = v.clean_indexed;
              dirty_indexed = v.dirty_indexed;
              used = v.used;
              apart = λ k. omega (arith, v.apart k, counts k);
            },
            ground (arith, w),
          ),
        )

    clean-Takes :
        size z.f_list ≡ 0
        → 0 < size z.c_list
        → Returns
            (get_frame C z)
            (λ (y, id, free). IsValid C n (id ∷ []) y × Takes id free (view C z) (view C y))
    unfolding get_frame count
    clean-Takes e h =
        let (id, c, b, p, i, w) = Index.pop_back-IsIndexed C v.clean_indexed h in
        let counts : (k : ℕ) → count k (values z.c_list) ≡ count k (values c) + count k (id ∷ []) =
          λ k. ap (count k) w ∙ count-append k (values c) (id ∷ []) in
        let held : 0 < count id (values z.l_list) = ground (arith, v.used id, counts id) in
        let (it, f) = Index.find-present C v.lru_indexed id held in
        let (l, e', i', w') = Index.erase-IsIndexed C v.lru_indexed id it f in
        let gone = λ (k : ℕ). count-remove id k (values z.l_list) held in
        let nothing = values-nil z.f_list e in
        let y : Zalp C = record z {
          c_list = c;
          c_map = C.erase id z.c_map;
          l_list = l;
          l_map = C.erase id z.l_map;
        } in
        let some_c : (size z.c_list == 0) ≡ false = ground arith in
        let empty_f : (size z.f_list == 0) ≡ true = ground arith in
        (
          (y, id, false),
          rw (empty_f, some_c, b, p, f, e'),
          (
            record {
              lru_indexed = i';
              clean_indexed = i;
              dirty_indexed = v.dirty_indexed;
              used = λ k. omega (arith, v.used k, gone k, counts k, ap (count k) w');
              apart = λ k. omega (arith, v.apart k, gone k, ap (count k) w');
            },
            (nothing, nothing, w, w', refl),
          ),
        )

    -- If the invariant holds, `get_frame` returns a frame unless every frame is dirty: the
    -- last free one, or else the last clean one, which leaves the LRU order. The invariant
    -- holds then, with that frame held by the caller.
    pub get_frame-Takes :
        0 < size z.f_list + size z.c_list
        → Returns
            (get_frame C z)
            (λ (y, id, free). IsValid C n (id ∷ []) y × Takes id free (view C z) (view C y))
    get_frame-Takes h = elim (Bool-cases (size z.f_list == 0)) [
      | inl e ↦ clean-Takes (ground arith) (ground arith)
      | inr e ↦ free-Takes (ground arith)
    ]

  -- If every frame is dirty, its assertion fails.
  pub get_frame-fault :
      (z : Zalp C) → size z.f_list ≡ 0 → size z.c_list ≡ 0 → get_frame C z ≡ fault assert_failed
  unfolding get_frame
  get_frame-fault z e e' = rw (e, e')

  -- With no free frame, a frame that is returned was in use.
  pub get_frame-used :
      (z y : Zalp C) (id : ℕ) (free : Bool)
      → size z.f_list ≡ 0
      → get_frame C z ≡ ok (y, id, free)
      → free ≡ false
  unfolding get_frame
  get_frame-used z y id free e run = ground arith
