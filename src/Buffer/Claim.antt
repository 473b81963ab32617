-- ===== src/Buffer/Claim.antt =====
-- A miss: where the frame comes from, and what becomes of the page that was in it.
use zone_buffer.Base.{
  ℕ, ◌+◌, ◌≡◌, ◌≢◌, ◌<◌, refl, ◌∙◌, ap, sym, inl, inr, Bool, true, false, List, [], ◌∷◌, none, some,
  ◌==◌, ltb, if◌then◌else◌, arith, ok, >>=-parts, Returns, Bool-cases, ==_iff, count,
  count-remove_ne,
}
use zone_buffer.Env.{Env}
use zone_buffer.StdList.{size}
use zone_buffer.StdList.Nodes.{length-values_of}
use zone_buffer.Zalp
use zone_buffer.Zalp.Inv.{IsValid, size-lru, size-total}
use zone_buffer.Zalp.Moves.{push-IsValid, push-view}
use zone_buffer.Zalp.Frames.{Takes, get_frame-Takes, get_frame-used}
use zone_buffer.Zalp.Evict.{IsShort, is_evict-false}
use zone_buffer.Zalp.View.{View, view}
use zone_buffer.Buffer.{Buffer, set_page_id}
use zone_buffer.Buffer.Access.{fix_page, miss, claim, make_room, map_page, push_frame}
use zone_buffer.Buffer.Coherent.{IsCoherent, fix_page-absent}

module _ (E : Env) where
  open E.params use {def_buf_size, work_reg_size}

  -- The buffer between `get_frame` and `push`, with frame `f` in hand.
  pub record IsClaimed (b : Buffer E) (f : ℕ) (d : Buffer E) : Type 0 where
    pub valid : IsValid E.maps def_buf_size (f ∷ []) d.strategy
    pub clean : d.frame_dirty f ≡ false
    pub resident :
        (p g : ℕ)
        → E.maps.find p d.page2frame ≡ some g
        → (d.frame_to_page g ≡ p) × (g ≢ f) × (0 < count g (view E.maps d.strategy).lru)
    pub marked : (g : ℕ) → d.frame_dirty g ≡ ltb 0 (count g (view E.maps d.strategy).dirty)
    pub others :
        (p : ℕ) → p ≢ b.frame_to_page f → E.maps.find p d.page2frame ≡ E.maps.find p b.page2frame
    pub absent : (p : ℕ) → E.maps.find p b.page2frame ≡ none → E.maps.find p d.page2frame ≡ none

  abbrev claimed : Buffer E → Zalp.Zalp E.maps → ℕ → Bool → Buffer E
  claimed b z f is_free = record b {
    strategy = z;
    page2frame = if is_free then b.page2frame else E.maps.erase (b.frame_to_page f) b.page2frame;
  }

  module _ (b : Buffer E) (c : IsCoherent E b) where
    claimed-IsClaimed :
        (z : Zalp.Zalp E.maps) (f : ℕ) (is_free : Bool)
        → IsValid E.maps def_buf_size (f ∷ []) z
        → Takes f is_free (view E.maps b.strategy) (view E.maps z)
        → IsClaimed b f (claimed b z f is_free)
    unfolding count
    claimed-IsClaimed z f true v t =
        let lru = ap (λ (w : View). w.lru) t in
        let dirty = ap (λ (w : View). w.dirty) t in
        let gone : count f (view E.maps z).lru ≡ 0 = ground (arith, v.apart f) in
        record {
          valid = v;
          clean =
              c.marked f
              ∙ ap (λ (xs : List ℕ). ltb 0 (count f xs)) dirty
              ∙ ground (arith, v.used f);
          resident = λ p g e.
              let (at, used) = c.resident p g e in
              let used' : 0 < count g (view E.maps z).lru = rw (← lru) used in
              (
                at,
                (λ same. omega (arith, gone, ap (λ (i : ℕ). count i (view E.maps z).lru) same)),
                used',
              );
          marked = λ g. c.marked g ∙ ap (λ (xs : List ℕ). ltb 0 (count g xs)) dirty;
          others = λ p ne. refl;
          absent = λ p e. e;
        }
    claimed-IsClaimed z f false v (free, free', clean, lru, dirty) =
        let q = b.frame_to_page f in
        let erased = λ (p : ℕ). E.maps.find-erase p q b.page2frame in
        record {
          valid = v;
          clean =
              c.marked f
              ∙ ap (λ (xs : List ℕ). ltb 0 (count f xs)) (sym dirty)
              ∙ ground (arith, v.used f, v.apart f);
          resident = λ p g e.
              let old : E.maps.find p b.page2frame ≡ some g = ground (arith, erased p) in
              let ne : q ≢ p = ground (arith, erased p) in
              let (at, used) = c.resident p g old in
              let other : g ≢ f = λ same. ne (ap b.frame_to_page (sym same) ∙ at) in
              (at, other, rw (lru, count-remove_ne f g _ (λ same. other (sym same))) used);
          marked = λ g. c.marked g ∙ ap (λ (xs : List ℕ). ltb 0 (count g xs)) (sym dirty);
          others = λ p ne. ground (arith, erased p, ne);
          absent = λ p e. ground (arith, erased p);
        }

    -- In a coherent buffer, unless every frame is dirty, a frame is claimed: it is clean, no
    -- page is mapped to it, and of the mappings only the one of its old page can be gone.
    -- Frames and controller are unchanged.
    pub claim-IsClaimed :
        0 < size b.strategy.f_list + size b.strategy.c_list
        → Returns (claim E b) (λ (f, d).
          IsClaimed b f d × (d.zdsm ≡ b.zdsm) × (d.buffer ≡ b.buffer) × (d.modes ≡ b.modes))
    unfolding claim
    claim-IsClaimed h =
        let ((z, f, is_free), run, (v, t)) = get_frame-Takes E.maps def_buf_size c.valid h in
        ((f, claimed b z f is_free), rw run, (claimed-IsClaimed z f is_free v t, refl, refl, refl))

  claim-erases :
      (b : Buffer E) (f : ℕ) (d : Buffer E)
      → claim E b ≡ ok (f, d)
      → size b.strategy.f_list ≡ 0
      → (z : Zalp.Zalp E.maps) × (d ≡ claimed b z f false)
  unfolding claim
  claim-erases b f d run full =
      let ((z, g, free), e', e) = >>=-parts _ (Zalp.get_frame E.maps b.strategy) (f, d) run in
      let used = get_frame-used E.maps b.strategy z g free full e in (z, ground arith)

  -- If no frame is free and the old page of a claimed frame is mapped to a frame `g`, the claim
  -- loses this mapping: the page is not found any more, though `g` has its number, its bytes and
  -- its dirty bit as before.
  pub claim-forgets :
      (b : Buffer E) (f : ℕ) (d : Buffer E) (g : ℕ)
      → claim E b ≡ ok (f, d)
      → size b.strategy.f_list ≡ 0
      → E.maps.find (b.frame_to_page f) b.page2frame ≡ some g
      → (E.maps.find (b.frame_to_page f) d.page2frame ≡ none)
        × (d.frame_to_page g ≡ b.frame_to_page g)
        × (d.frame_dirty g ≡ b.frame_dirty g)
        × (d.buffer g ≡ b.buffer g)
  claim-forgets b f d g run full e =
      let (z, same) = claim-erases b f d run full in
      let q = b.frame_to_page f in
      let gone : E.maps.find q (E.maps.erase q b.page2frame) ≡ none =
        ground (arith, E.maps.find-erase q q b.page2frame) in
      rw same (gone, refl, refl, refl)

  -- A write to a page that is not mapped, while frames are not short.
  module _ (b : Buffer E) (policy : (b.modes).lru ≡ false) (c : IsCoherent E b) (page : ℕ) where
    roomy :
        ¬ IsShort E.params (view E.maps b.strategy)
        → work_reg_size < def_buf_size
        → 0 < size b.strategy.f_list + size b.strategy.c_list
    roomy enough sizes = ground (
      arith,
      enough,
      size-lru E.maps c.valid,
      size-total E.maps c.valid,
      length-values_of b.strategy.f_list.nodes,
      length-values_of b.strategy.l_list.nodes,
      length-values_of b.strategy.c_list.nodes,
    )

    placed : ℕ → Buffer E → Buffer E
    placed f d = set_page_id E f page (push_frame E f (map_page E page f d))

    placed-IsCoherent :
        (f : ℕ) (d : Buffer E)
        → E.maps.find page b.page2frame ≡ none
        → IsClaimed b f d
        → IsCoherent E (placed f d) × (E.maps.find page (placed f d).page2frame ≡ some f)
    unfolding placed count
    placed-IsCoherent f d new k =
        let absent = k.absent page new in
        let inserted = λ (p : ℕ). E.maps.find-insert p page f d.page2frame in
        let seen = push-view E.maps f false d.strategy in
        let lru = λ (g : ℕ). ap (λ (v : View). count g v.lru) seen in
        (
          record {
            valid = push-IsValid E.maps def_buf_size f false k.valid;
            resident = λ p g e. elim (Bool-cases (page == p)) [
              | inl same ↦
                  let eq = (==_iff page p).0 same in
                  let free_key = ap (λ (q : ℕ). E.maps.find q d.page2frame) (sym eq) ∙ absent in
                  let here : f ≡ g = ground (arith, inserted p, free_key, e) in
                  (ground (arith, eq), ground (arith, lru g))
              | inr other ↦
                  let (at, ne, used) = k.resident p g (ground (arith, inserted p, e)) in
                  (ground (arith, ne), omega (arith, lru g, used))
            ];
            marked = λ g. k.marked g ∙ sym (ap (λ (v : View). ltb 0 (count g v.dirty)) seen);
          },
          ground (arith, inserted page),
        )

    -- Off the plain LRU policy, in a coherent buffer with fewer frames in the working region
    -- than in all, while clean frames are not short, a write to a page that is not mapped gets
    -- a clean frame, to which the page is mapped then; of the other pages at most the one that
    -- the frame belonged to is unmapped. Frames and controller are unchanged, and the buffer
    -- is coherent.
    pub fix_page-miss :
        ¬ IsShort E.params (view E.maps b.strategy)
        → work_reg_size < def_buf_size
        → E.maps.find page b.page2frame ≡ none
        → Returns (fix_page E true page b) (λ (f, d).
          IsCoherent E d
          × (E.maps.find page d.page2frame ≡ some f)
          × (d.frame_dirty f ≡ false)
          × (d.zdsm ≡ b.zdsm)
          × (d.buffer ≡ b.buffer)
          × (d.modes ≡ b.modes)
          × ((p : ℕ)
              → p ≢ page
              → p ≢ b.frame_to_page f
              → E.maps.find p d.page2frame ≡ E.maps.find p b.page2frame))
    unfolding miss make_room placed
    fix_page-miss enough sizes new =
        let ((f, d), run, (k, z, u, o)) = claim-IsClaimed b c (roomy enough sizes) in
        let (coherent, found) = placed-IsCoherent f d new k in
        (
          (f, placed f d),
          fix_page-absent E b page true policy new
              ∙ rw (is_evict-false E.maps E.params b.strategy enough, run),
          (
            coherent,
            found,
            k.clean,
            z,
            u,
            o,
            λ p ne ne'. ground (arith, E.maps.find-insert p page f d.page2frame, k.others p ne'),
          ),
        )
