-- ===== src/Buffer/Coherent.antt =====
-- The tables of the buffer against the lists of its policy, for the policies over `ZALP`.
use zone_buffer.Base.{
  ℕ, suc, ◌+◌, ◌≡◌, ◌<◌, refl, ◌∙◌, ap, sym, Bool, true, false, List, [], ◌∷◌, none, some, ltb,
  if◌then◌else◌, arith, Returns, count, remove, count-remove, remove-absent,
}
use zone_buffer.Env.{Env}
use zone_buffer.Zalp
use zone_buffer.Zalp.Inv.{IsValid}
use zone_buffer.Zalp.Moves.{update-pushed}
use zone_buffer.Zalp.View.{View, view, pushed, without}
use zone_buffer.Zns.{update}
use zone_buffer.Buffer.{Buffer}
use zone_buffer.Buffer.Access.{fix_page, hit, lru_hit, miss, lru_miss}

module _ (E : Env) where
  open E.params use {def_buf_size}

  -- A page that is mapped lies in the frame that it is mapped to, which is in use, and the dirty
  -- bits are those of the frames in the dirty list.
  pub record IsCoherent (b : Buffer E) : Type 0 where
    pub valid : IsValid E.maps def_buf_size [] b.strategy
    pub resident :
        (p f : ℕ)
        → E.maps.find p b.page2frame ≡ some f
        → (b.frame_to_page f ≡ p) × (0 < count f (view E.maps b.strategy).lru)
    pub marked : (f : ℕ) → b.frame_dirty f ≡ ltb 0 (count f (view E.maps b.strategy).dirty)

  -- Among lists of distinct frames, moving one to the front changes no count.
  count-touch :
      (id k : ℕ) (xs : List ℕ) → 0 < count id xs → count k (id ∷ remove id xs) ≡ count k xs
  unfolding count
  count-touch id k xs h = omega (arith, count-remove id k xs h)

  -- The dirty list of a frame that is used again.
  count-dirty :
      (id k : ℕ) (dirty : Bool) (v : View)
      → dirty ≡ ltb 0 (count id v.dirty)
      → count k (pushed id dirty (without id v)).dirty ≡ count k v.dirty
  unfolding count
  count-dirty id k true v e = ground (arith, count-remove id k v.dirty)
  count-dirty id k false v e = rw (remove-absent id v.dirty (ground arith))

  fix_page-found :
      (b : Buffer E) (page f : ℕ) (is_write : Bool)
      → (b.modes).lru ≡ false
      → E.maps.find page b.page2frame ≡ some f
      → fix_page E is_write page b ≡ hit E f b
  unfolding fix_page
  fix_page-found b page f is_write policy found =
      rw (found, fix_page) (ap (λ (l : Bool). if l then lru_hit E f b else hit E f b) policy)

  pub fix_page-absent :
      (b : Buffer E) (page : ℕ) (is_write : Bool)
      → (b.modes).lru ≡ false
      → E.maps.find page b.page2frame ≡ none
      → fix_page E is_write page b ≡ miss E is_write page b
  unfolding fix_page
  fix_page-absent b page is_write policy none_there =
      rw (none_there, fix_page)
        (ap (λ (l : Bool). if l then lru_miss E is_write page b else miss E is_write page b) policy)

  module _ (b : Buffer E) (policy : (b.modes).lru ≡ false) (c : IsCoherent b) (page : ℕ) where
    touched : ℕ → Zalp.Zalp E.maps → Buffer E
    touched f z = record b {
      cluster_flag =
          if (b.modes).zalp_wc
          then update b.cluster_flag f (suc (b.cluster_flag f))
          else b.cluster_flag;
      hit_count = b.hit_count + 1;
      strategy = z;
    }

    -- Off the plain LRU policy, in a coherent buffer, a page that is mapped is found in its
    -- frame: the frame becomes the latest used one of its side, the hit is counted, mappings,
    -- frames and controller are unchanged, and the buffer is coherent.
    pub fix_page-hit :
        (f : ℕ) (is_write : Bool)
        → E.maps.find page b.page2frame ≡ some f
        → Returns (fix_page E is_write page b) (λ (g, d).
          (g ≡ f)
          × (b.frame_to_page f ≡ page)
          × IsCoherent d
          × (d.page2frame ≡ b.page2frame)
          × (d.buffer ≡ b.buffer)
          × (d.zdsm ≡ b.zdsm)
          × (d.modes ≡ b.modes)
          × (d.hit_count ≡ b.hit_count + 1)
          × (view E.maps d.strategy
              ≡ pushed f (b.frame_dirty f) (without f (view E.maps b.strategy))))
    unfolding hit count touched
    fix_page-hit f is_write found =
        let (at, used) = c.resident page f found in
        let (z, run, (u, w)) =
          update-pushed E.maps def_buf_size f (b.frame_dirty f) b.strategy c.valid used in
        let old = view E.maps b.strategy in
        let lru = λ (k : ℕ). ap (λ (v : View). count k v.lru) w ∙ count-touch f k old.lru used in
        let dirty = λ (k : ℕ).
          ap (λ (v : View). count k v.dirty) w
          ∙ count-dirty f k (b.frame_dirty f) old (c.marked f) in
        (
          (f, touched f z),
          fix_page-found b page f is_write policy found ∙ rw run,
          (
            refl,
            at,
            record {
              valid = u;
              resident = λ p g e. let (at', used') = c.resident p g e in (at', rw lru used');
              marked = λ g. c.marked g ∙ sym (ap (ltb 0) (dirty g));
            },
            refl,
            refl,
            refl,
            refl,
            refl,
            w,
          ),
        )
