-- ===== src/Zns/Rewrite.antt =====
-- The write of a page after a zone was chosen: what it stores, and what it leaves.
use zone_buffer.Base.{
  ℕ, suc, ◌*◌, ◌/◌, ◌≡◌, ◌≢◌, ◌≤◌, ◌∙◌, ap, sym, subst, Bool, true, false, Option, some, ◌==◌,
  if◌then◌else◌, arith, Result, ok, Returns, lt→ltb, length,
}
use zone_buffer.Base.Int.{ℤ}
use zone_buffer.Env.{Env}
use zone_buffer.Zns.{Zns, ZoneDesc, exp_open, full, Frame, zone_at, update, add32, inc_io_count}
use zone_buffer.Zns.Consistent.{IsConsistent}
use zone_buffer.Zns.Pages.{
  HasRoom, next_page, moved, moved-IsConsistent, moved-zone, next-div, write_page_gc_at-moved,
}
use zone_buffer.Zns.Keeps.{IsReliable, Keeps, Keeps-IsConsistent, counters-Keeps}
use zone_buffer.Zns.Select.{SparesBut}
use zone_buffer.Zns.Spares.{spares, spares-AlikeBut}
use zone_buffer.Zns.Write.{write_page_gc, write_page_gc_at, select, inc_write_count}
use zone_buffer.Zns.Bytes.{take-length}
use zone_buffer.Zns.Stored.{stored, Keeps-stored, SameSetup, Keeps-SameSetup, stored-moved}

both_conds : exp_open ≡ full → ⊥
both_conds e = cc

-- The bit of a page that is not the new one, after a move.
unmoved :
    (new k l : ℕ) (f g : ℕ → Bool)
    → new ≢ l
    → f l ≡ g l
    → update (update f k false) new true l ≡ (if k == l then false else g l)
unmoved new k l f g ne e = ground (arith, ne, e)

module _ (E : Env) where
  open E.params use {page_size, max_zone_num}

  -- Page `k` is out of use, and nothing else has changed in the zones that are full.
  pub record Leaves (m k : ℕ) (s t : Zns E) : Type 0 where
    pub closed : (i : ℕ) → (s.zone i).cond ≡ full → (t.zone i).cond ≡ full
    pub bits :
        (l : ℕ)
        → (s.zone (l / m)).cond ≡ full
        → t.meta_page l ≡ (if k == l then false else s.meta_page l)

  -- The new state is consistent, and holds `frame` for `id` and all else as before.
  pub record Stores (m id : ℕ) (frame : Frame) (s t : Zns E) : Type 0 where
    pub fill : ℕ → ℕ
    pub consistent : IsConsistent E m fill t
    pub setup : SameSetup E s t
    pub holds : (j : ℕ) → stored E t j ≡ (if id == j then some frame else stored E s j)

  module _ (m : ℕ) (fill : ℕ → ℕ) (s : Zns E) (id : ℕ) (frame : Frame)
      (whole : length frame ≡ page_size) where
    -- The move stores the frame, whatever the counters say after it.
    pub moved-Stores :
        (w k : ℕ) (t : Zns E) (d : E.device.State) (io writes : ℕ)
        → Keeps E s t
        → HasRoom E m fill w t
        → IsConsistent E m fill t
        → E.maps.find id t.table ≡ some (k * page_size)
        → E.device.pwrite (t.zone w).wp frame t.device ≡ some d
        → let move = moved E m fill w id k d t in
          Stores m id frame s (record move { io_count = io; write_count = writes })
    moved-Stores w k t d io writes keeps room c f e =
        let move = moved E m fill w id k d t in
        let counters = counters-Keeps E move io writes in
        record {
          fill = update fill w (suc (fill w));
          consistent = Keeps-IsConsistent E counters (moved-IsConsistent E m c room id k d f);
          setup = Keeps-SameSetup E keeps;
          holds = λ j.
              Keeps-stored E counters j
              ∙ stored-moved E c room id k d frame e whole j
              ∙ ap (λ (o : Option Frame). if id == j then some frame else o)
                  (Keeps-stored E keeps j);
        }

    moved-Leaves :
        (w k : ℕ) (t : Zns E) (d : E.device.State) (io writes : ℕ)
        → Keeps E s t
        → HasRoom E m fill w t
        → IsConsistent E m fill t
        → E.maps.find id t.table ≡ some (k * page_size)
        → let move = moved E m fill w id k d t in
          Leaves m k s (record move { io_count = io; write_count = writes })
    moved-Leaves w k t d io writes keeps room c f = record {
      closed = λ i e. (moved-zone E m c room id k d f i).2 ∙ keeps.closed i e;
      bits = λ l e.
          let there : (t.zone (l / m)).cond ≡ full = keeps.closed (l / m) e in
          let other : next_page E m fill w ≢ l = λ same.
            let at : l / m ≡ w = ap (λ (x : ℕ). x / m) (sym same) ∙ next-div E m c room in
            both_conds (sym room.2 ∙ subst (λ (x : ℕ). (t.zone x).cond ≡ full) at there) in
          unmoved (next_page E m fill w) k l t.meta_page s.meta_page other
            (ap (λ (g : ℕ → Bool). g l) keeps.meta_page);
    }

    moved-cf :
        (w k : ℕ) (t : Zns E) (d : E.device.State) (j : ℕ)
        → ((moved E m fill w id k d t).zone j).cf ≡ (t.zone j).cf
    moved-cf w k t d j = ground arith

    -- At most zone `w` is no spare one any more.
    pub moved-spares :
        (w k : ℕ) (t : Zns E) (d : E.device.State) (io writes : ℕ)
        → SparesBut E w s t
        → HasRoom E m fill w t
        → IsConsistent E m fill t
        → E.maps.find id t.table ≡ some (k * page_size)
        → let move = moved E m fill w id k d t in
          spares E s ≤ suc (spares E (record move { io_count = io; write_count = writes }))
    moved-spares w k t d io writes but room c f =
        let move = moved E m fill w id k d t in
        spares-AlikeBut E w s (record move { io_count = io; write_count = writes })
          λ j ne e.
            let same = but j ne e in
            (
              (moved-zone E m c room id k d f j).2 ∙ ap (λ (z : ZoneDesc E). z.cond) same,
              moved-cf w k t d j ∙ ap (λ (z : ZoneDesc E). z.cf) same,
            )

    past_choice :
        (tries w : ℕ) (cf : ℤ) (t : Zns E) (r : Result (Zns E))
        → select E cf 1 s ≡ ok (w, t)
        → HasRoom E m fill w t
        → write_page_gc_at E w id frame t ≡ r
        → write_page_gc E (suc tries) cf id frame s ≡ r
    unfolding write_page_gc zone_at
    past_choice tries w cf t r run room e = rw (run, lt→ltb w max_zone_num room.0, room.2) e

    -- `write_page_gc` after a choice that went well.
    pub write_page_gc_chosen :
        (rel : IsReliable E) (tries w k : ℕ) (cf : ℤ) (t : Zns E)
        → select E cf 1 s ≡ ok (w, t)
        → Keeps E s t
        → HasRoom E m fill w t
        → IsConsistent E m fill t
        → E.maps.find id t.table ≡ some (k * page_size)
        → Returns (write_page_gc E (suc tries) cf id frame s) (λ u.
          Stores m id frame s u
          × Leaves m k s u
          × (SparesBut E w s t → spares E s ≤ suc (spares E u)))
    write_page_gc_chosen rel tries w k cf t run keeps room c f =
        let (d, e) = rel.writes (t.zone w).wp frame t.device in
        let wrote =
          write_page_gc_at-moved E m c room id k d f frame
            (rw (take-length page_size frame whole) e) in
        (
          inc_write_count E 1 (inc_io_count E (moved E m fill w id k d t)),
          past_choice tries w cf t _ run room wrote,
          (
            moved-Stores w k t d (add32 t.io_count 1) (add32 t.write_count 1) keeps room c f e,
            moved-Leaves w k t d (add32 t.io_count 1) (add32 t.write_count 1) keeps room c f,
            λ but. moved-spares w k t d (add32 t.io_count 1) (add32 t.write_count 1) but room c f,
          ),
        )
