-- ===== src/Buffer/Write.antt =====
-- `write_page` of the buffer: the frame of the page has the bytes, is dirty, and stays coherent.
use zone_buffer.Base.{
  ℕ, ◌≡◌, ◌<◌, refl, ◌∙◌, ap, sym, inl, inr, Bool, true, false, none, some, ◌==◌, ltb,
  if◌then◌else◌, arith, ok, ◌>>=◌, Returns, assert, Bool-cases, count, Option-cases, take, ==_iff,
}
use zone_buffer.Env.{Env}
use zone_buffer.Zalp
use zone_buffer.Zalp.Moves.{set_dirty-dirtied}
use zone_buffer.Zalp.Evict.{IsShort}
use zone_buffer.Zalp.View.{View, view, dirtied}
use zone_buffer.Zns.{update, Frame, read_id}
use zone_buffer.Buffer.{Buffer, Modes, set_dirty}
use zone_buffer.Buffer.Access.{fix_page, write, read, inc_read_count}
use zone_buffer.Buffer.Coherent.{IsCoherent, fix_page-hit}
use zone_buffer.Buffer.Claim.{fix_page-miss}

dirtied-lru : (id : ℕ) (v : View) → (dirtied id v).lru ≡ v.lru
dirtied-lru id v = elim (Bool-cases (count id v.dirty == 0)) [ inl e ↦ rw e | inr e ↦ rw e ]

-- The frame joins the dirty ones, if it is not there yet.
dirtied-dirty :
    (id k : ℕ) (v : View)
    → ltb 0 (count k (dirtied id v).dirty) ≡ (if id == k then true else ltb 0 (count k v.dirty))
unfolding count
dirtied-dirty id k v = elim (Bool-cases (count id v.dirty == 0)) [
  | inl e ↦ rw e (ground arith)
  | inr e ↦ rw e (ground arith)
]

module _ (E : Env) where
  open E.params use {frame_size, def_buf_size, work_reg_size}

  -- What a write of `bytes` to the frame of a page leaves: the frame has them and is dirty, and
  -- the page is mapped to it.
  pub record IsWritten (page : ℕ) (bytes : Frame) (f : ℕ) (b d : Buffer E) : Type 0 where
    pub coherent : IsCoherent E d
    pub mapped : E.maps.find page d.page2frame ≡ some f
    pub bytes_at : (g : ℕ) → d.buffer g ≡ (if f == g then bytes else b.buffer g)
    pub dirty : d.frame_dirty f ≡ true
    pub controller : d.zdsm ≡ b.zdsm
    pub modes : d.modes ≡ b.modes

  set_dirty_lem :
      (f : ℕ) (b : Buffer E)
      → (b.modes).lru ≡ false
      → set_dirty E f b ≡ (
          Zalp.set_dirty E.maps f b.strategy >>= λ s.
          ok (record b { frame_dirty = update b.frame_dirty f true; strategy = s }))
  unfolding set_dirty
  set_dirty_lem f b e = rw e refl

  -- The rest of `write_page` once the page has its frame.
  written :
      (page f : ℕ) (bytes : Frame) (d : Buffer E)
      → IsCoherent E d
      → (d.modes).lru ≡ false
      → E.maps.find page d.page2frame ≡ some f
      → Returns
          (set_dirty E f (inc_read_count E f (record d { buffer = update d.buffer f bytes })))
          (IsWritten page bytes f d)
  written page f bytes d c policy found =
      let (at, used) = c.resident page f found in
      let (s, run, (v, w)) = set_dirty-dirtied E.maps def_buf_size f d.strategy c.valid used in
      let r = inc_read_count E f (record d { buffer = update d.buffer f bytes }) in
      (
        record r { frame_dirty = update d.frame_dirty f true; strategy = s },
        set_dirty_lem f r policy ∙ rw run,
        record {
          coherent = record {
            valid = v;
            resident = λ p g e.
                let (at', used') = c.resident p g e in
                (
                  at',
                  rw (ap (λ (u : View). u.lru) w ∙ dirtied-lru f (view E.maps d.strategy)) used',
                );
            marked = λ g.
                ap (λ (b : Bool). if f == g then true else b) (c.marked g)
                ∙ sym (
                    ap (λ (u : View). ltb 0 (count g u.dirty)) w
                    ∙ dirtied-dirty f g (view E.maps d.strategy));
          };
          mapped = found;
          bytes_at = λ g. refl;
          dirty = ground arith;
          controller = refl;
          modes = refl;
        },
      )

  assert_lem : (b : Bool) → b ≡ true → assert b ≡ ok tt
  assert_lem true e = refl
  assert_lem false e = cc

  -- Off the plain LRU policy, in a coherent buffer, `read_page` of a page that is mapped to a
  -- frame whose bytes carry its id returns those bytes, and the buffer is coherent.
  pub read-mapped :
      (page f : ℕ) (b : Buffer E)
      → (b.modes).lru ≡ false
      → IsCoherent E b
      → E.maps.find page b.page2frame ≡ some f
      → read_id (b.buffer f) ≡ page
      → Returns (read E page b) (λ r. (r.0 ≡ b.buffer f) × IsCoherent E r.1)
  unfolding read
  read-mapped page f b policy c found carries =
      let ((g, d), run, (same, _, k, _, u, _, _, _, _)) =
        fix_page-hit E b policy c page f false found in
      let bytes : d.buffer g ≡ b.buffer f = ap (λ (at : ℕ → Frame). at g) u ∙ ap b.buffer same in
      let carried : (read_id (d.buffer g) == page) ≡ true =
        (==_iff (read_id (d.buffer g)) page).1 (ap read_id bytes ∙ carries) in
      (
        (d.buffer g, inc_read_count E g d),
        rw run (rw (assert_lem (read_id (d.buffer g) == page) carried) refl),
        (bytes, record { valid = k.valid; resident = k.resident; marked = k.marked }),
      )

  module _ (b : Buffer E) (policy : (b.modes).lru ≡ false) (c : IsCoherent E b) (page : ℕ)
      (sizes : work_reg_size < def_buf_size)
      (enough : E.maps.find page b.page2frame ≡ none
        → ¬ IsShort E.params (view E.maps b.strategy)) where
    -- A write finds a frame for its page, mapped before or not.
    fixed : Returns (fix_page E true page b) (λ (f, d).
        IsCoherent E d
        × (E.maps.find page d.page2frame ≡ some f)
        × (d.zdsm ≡ b.zdsm)
        × (d.buffer ≡ b.buffer)
        × (d.modes ≡ b.modes))
    fixed = elim (Option-cases (E.maps.find page b.page2frame)) [
      | inl new ↦
          let ((f, d), run, (k, found, _, z, u, o, _)) =
            fix_page-miss E b policy c page (enough new) sizes new in
          ((f, d), run, (k, found, z, u, o))
      | inr (f, old) ↦
          let ((g, d), run, (same, _, k, table, u, z, o, _, _)) =
            fix_page-hit E b policy c page f true old in
          ((g, d), run, (k, ap (E.maps.find page) table ∙ old ∙ ap some (sym same), z, u, o))
    ]

    -- Off the plain LRU policy, in a coherent buffer with fewer frames in the working region
    -- than in all, for a page that is mapped or while clean frames are not short: `write_page`
    -- returns, the page is mapped to a dirty frame with the bytes, no other frame's bytes
    -- change, nor does the controller, and the buffer is coherent.
    pub write-IsWritten :
        (frame : Frame)
        → Returns
            (write E page frame b)
            (λ d. (f : ℕ) × IsWritten page (take frame_size frame) f b d)
    unfolding write
    write-IsWritten frame =
        let ((f, d), run, (k, found, z, u, o)) = fixed in
        let (e, run', w) =
          written page f (take frame_size frame) d k (ap (λ (m : Modes E). m.lru) o ∙ policy)
            found in
        (
          e,
          rw run run',
          (
            f,
            record {
              coherent = w.coherent;
              mapped = w.mapped;
              bytes_at = λ g.
                  w.bytes_at g
                  ∙ ap (λ (at : ℕ → Frame). if f == g then take frame_size frame else at g) u;
              dirty = w.dirty;
              controller = w.controller ∙ z;
              modes = w.modes ∙ o;
            },
          ),
        )

    -- Off the plain LRU policy, in a coherent buffer with fewer frames in the working region
    -- than in all, for a page that is mapped or while clean frames are not short: `write_page`
    -- and then `read_page` of the page return, and give the bytes that were written, if these
    -- carry the id of the page.
    pub write-read :
        (frame : Frame)
        → read_id (take frame_size frame) ≡ page
        → Returns (write E page frame b >>= read E page) (λ r. r.0 ≡ take frame_size frame)
    write-read frame carries =
        let (d, run, (f, w)) = write-IsWritten frame in
        let here : d.buffer f ≡ take frame_size frame = w.bytes_at f ∙ ground arith in
        let (r, run', (same, _)) =
          read-mapped page f d (ap (λ (m : Modes E). m.lru) w.modes ∙ policy) w.coherent w.mapped
            (ap read_id here ∙ carries) in
        (r, rw run run', same ∙ here)
