-- ===== src/Zns/Cluster/Run.antt =====
-- `write_cluster` against the store that the controller promises.
use native.Mathlib.Nat.{div-add-mod'}
use zone_buffer.Base.{
  ℕ, suc, ◌+◌, ◌*◌, ◌/◌, ◌%◌, ◌≡◌, ◌≤◌, refl, ◌∙◌, ap, sym, subst, List, arith, ok, lt→ltb, Returns,
  length,
}
use zone_buffer.Base.Int.{ℤ}
use zone_buffer.Env.{Env}
use zone_buffer.Zns.{Zns, Frame, zone_at, inc_io_count, add32}
use zone_buffer.Zns.Consistent.{IsConsistent}
use zone_buffer.Zns.Keeps.{IsReliable, Keeps, Keeps-IsConsistent, counters-Keeps, HasSpace}
use zone_buffer.Zns.Spares.{spares, spares-AlikeBut}
use zone_buffer.Zns.{ZoneDesc}
use zone_buffer.Zns.Select.{SparesBut, select-HasSpace}
use zone_buffer.Zns.Store.{IsReady}
use zone_buffer.Zns.Stored.{
  stored, frame_at, Keeps-stored, SameSetup, SameSetup-trans, Keeps-SameSetup,
}
use zone_buffer.Zns.Write.{place_pages, write_batches, write_cluster}
use zone_buffer.Zns.Cluster.{shifted}
use zone_buffer.Zns.Cluster.Place.{Known, readdress, place_pages-HasPlaced}
use zone_buffer.Zns.Cluster.Batches.{Overwrites, write_batches-HasAppended}
use zone_buffer.Zns.Cluster.Spec.{put_pages, put_pages-congr, readdress-put_pages}
use zone_buffer.Zns.Cluster.Kept.{
  redevice-IsConsistent, unshifted_Keeps, frame_at-device, old_frames, new_bytes,
}

sizes : (q r b p n : ℕ) → n ≡ (q * b + r) * p → n ≡ q * (p * b) + p * r
sizes q r b p n h = grind (arith, h)

module _ (E : Env) (m : ℕ) where
  open E.params use {page_size, max_zone_num, write_batch}

  -- The new state is consistent, and holds the pages of `buffer` for `ids` and all else as before.
  pub record StoresAll (ids : List ℕ) (buffer : Frame) (s t : Zns E) : Type 0 where
    pub fill : ℕ → ℕ
    pub consistent : IsConsistent E m fill t
    pub setup : SameSetup E s t
    pub holds : (j : ℕ) → stored E t j ≡ put_pages E ids buffer (stored E s) j

  split_size :
      (n : ℕ) (buffer : Frame)
      → length buffer ≡ n * page_size
      → length buffer ≡ n / write_batch * (page_size * write_batch) + page_size * (n % write_batch)
  split_size n buffer whole =
      let parts = ap (λ x. x * page_size) (div-add-mod' n write_batch) in
      sizes (n / write_batch) (n % write_batch) write_batch page_size (length buffer)
        (whole ∙ sym parts)

  size_lem :
      (ids : List ℕ) (buffer : Frame)
      → length buffer ≡ length ids * page_size
      → 0 + length ids * page_size ≡ length buffer
  size_lem ids buffer whole = omega (arith, whole)

  Overwrites-moved :
      (w : ℕ) (buffer : Frame) (u t : Zns E) (d : E.device.State)
      → (u.zone w).wp ≡ (t.zone w).wp
      → u.device ≡ t.device
      → Overwrites buffer (u.zone w).wp (λ x. E.device.byte x u.device) (λ x. E.device.byte x d)
      → Overwrites buffer (t.zone w).wp (λ x. E.device.byte x t.device) (λ x. E.device.byte x d)
  Overwrites-moved w buffer u t d at same h x = rw (← at, ← same) (h x)

  -- After the choice of a zone: every page placed, and the buffer written.
  pub chosen-StoresAll :
      (rel : IsReliable E) (fill : ℕ → ℕ) (w : ℕ) (ids : List ℕ) (buffer : Frame) (s t : Zns E)
      → Keeps E s t
      → IsConsistent E m fill t
      → HasSpace E (length ids) w t
      → Known E 0 ids (λ i. E.maps.find i t.table)
      → length buffer ≡ length ids * page_size
      → let n = length ids in
        (u : Zns E) × (v : Zns E) × (place_pages E (t.zone w).wp ids t ≡ ok u)
        × (write_batches E w (n / write_batch) (n % write_batch) buffer u ≡ ok v)
        × StoresAll ids buffer s (inc_io_count E v)
        × (SparesBut E w s t → spares E s ≤ suc (spares E (inc_io_count E v)))
  chosen-StoresAll rel fill w ids buffer s t keeps c (below, opened, space) known whole =
      let n = length ids in
      let fits : fill w * page_size + n * page_size ≤ t.cap =
        omega (arith, space, c.pointer w below, c.origin w below) in
      let (u, ran, p) =
        place_pages-HasPlaced E m w 0 (t.zone w).wp ids fill t
          (Keeps-IsConsistent E (unshifted_Keeps E m w t) c) below opened fits (omega arith)
          known in
      let (v, wrote, a) =
        write_batches-HasAppended E rel w (n / write_batch) (n % write_batch) buffer u below
          (split_size n buffer whole) in
      let bytes = Overwrites-moved w buffer u t a.device p.pointer p.device a.bytes_at in
      let x : Zns E = record (shifted E w (length buffer) u) { device = a.device } in
      let y : Zns E = record t { device = a.device } in
      let counted = counters-Keeps E v (add32 v.io_count 1) v.write_count in
      (
        u,
        v,
        ran,
        wrote,
        record {
          fill = p.fill;
          consistent = Keeps-IsConsistent E counted (
              Keeps-IsConsistent E a.keeps (
                redevice-IsConsistent E m p.fill (shifted E w (length buffer) u) a.device (
                  subst (λ x. IsConsistent E m p.fill (shifted E w x u)) (size_lem ids buffer whole)
                    p.consistent)));
          setup =
              SameSetup-trans E s t (inc_io_count E v) (Keeps-SameSetup E keeps)
                (SameSetup-trans E t u (inc_io_count E v) p.setup (Keeps-SameSetup E a.keeps));
          holds = λ j.
              Keeps-stored E counted j
              ∙ Keeps-stored E a.keeps j
              ∙ ap (frame_at E x) (p.table j)
              ∙ frame_at-device E m x y
                  (readdress E 0 (t.zone w).wp ids (λ i. E.maps.find i t.table) j) refl
              ∙ readdress-put_pages E ids (t.zone w).wp buffer _ y
                  (new_bytes E m fill w n t c below fits buffer whole a.device bytes) whole j
              ∙ put_pages-congr E ids buffer _ _
                  (λ i.
                    old_frames E m fill w n t c below fits buffer whole a.device bytes i
                    ∙ Keeps-stored E keeps i)
                  j;
        },
        λ but. spares-AlikeBut E w s (inc_io_count E v) λ j ne e.
            let same = but j ne e in
            (
              (a.alike j).0 ∙ (p.alike j).0 ∙ ap (λ (z : ZoneDesc E). z.cond) same,
              (a.alike j).1 ∙ (p.alike j).1 ∙ ap (λ (z : ZoneDesc E). z.cf) same,
            ),
      )

  -- On a device whose writes, openings and finishings succeed, from a consistent state with
  -- `covzs` set, a positive number of clusters and an empty zone that belongs to none,
  -- `write_cluster` of page ids that are in the table, with a buffer of that many pages and
  -- zones that hold as many, returns at its first try: the pages of the buffer are stored under
  -- the page ids one after the other, so that for an id that is listed twice the last one stays,
  -- what is stored under every other id is unchanged, and the state is consistent.
  pub write_cluster-StoresAll :
      (rel : IsReliable E) (s : Zns E)
      → IsReady E m s
      → (tries : ℕ) (cf : ℤ) (ids : List ℕ) (buffer : Frame) → length ids * page_size ≤ s.cap
      → Known E 0 ids (λ i. E.maps.find i s.table)
      → length buffer ≡ length ids * page_size
      → Returns (write_cluster E (suc tries) cf buffer ids s) (StoresAll ids buffer s)
  unfolding write_cluster zone_at
  write_cluster-StoresAll rel s ready tries cf ids buffer big known whole =
      let ((w, t), run, (keeps, space)) =
        select-HasSpace E rel cf (length ids) ready.consistent ready.covzs ready.clusters big
          ready.spare ready.spare-lt ready.spare_empty ready.spare_free in
      let c = Keeps-IsConsistent E keeps ready.consistent in
      let known' = subst (λ f. Known E 0 ids (λ i. E.maps.find i f)) (sym keeps.table) known in
      let (u, v, placed, wrote, all, spent) =
        chosen-StoresAll rel ready.fill w ids buffer s t keeps c space known' whole in
      (inc_io_count E v, rw (run, lt→ltb w max_zone_num space.0, space.1, placed, wrote) refl, all)
