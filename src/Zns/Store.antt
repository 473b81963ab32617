-- ===== src/Zns/Store.antt =====
-- What the controller promises: a store from page ids to frames, of which it keeps the last write.
use zone_buffer.Base.{
  ℕ, suc, ◌*◌, ◌/◌, ◌≡◌, ◌<◌, ◌≤◌, refl, ◌∙◌, ap, inl, inr, true, Option, none, some, arith, Result,
  ok, ◌>>=◌, Returns, Option-cases, lt→ltb, fault, out_of_range, length,
}
use zone_buffer.Base.Int.{ℤ, negsuc}
use zone_buffer.Env.{Env}
use zone_buffer.Zns.{
  Zns, empty, Frame, bytes_on, pread, get_page_addr, zone_at, add32, inc_io_count,
}
use zone_buffer.Zns.Consistent.{IsConsistent, found-page}
use zone_buffer.Zns.Pages.{HasRoom, moved, write_page_at-moved}
use zone_buffer.Zns.Keeps.{IsReadable, pread-bytes_on, IsReliable, Keeps, Keeps-IsConsistent}
use zone_buffer.Zns.Select.{select-HasSpace}
use zone_buffer.Zns.Write.{write_page, write_page_gc, read_page, select, inc_write_count}
use zone_buffer.Zns.Bytes.{take-length}
use zone_buffer.Zns.Stored.{frame_at, stored}
use zone_buffer.Zns.Rewrite.{Stores, moved-Stores, write_page_gc_chosen}

some_frame : {x y : Frame} → some x ≡ some y → x ≡ y
some_frame e = cc

module _ (E : Env) where
  open E.params use {page_size, max_zone_num}

  -- What `read_page` returns, by what the table has.
  abbrev read_result : Zns E → Option ℕ → Result (Frame × ℕ × Zns E)
  read_result s none = fault out_of_range
  read_result s (some a) = do
    frame ← pread E page_size a s
    ok (frame, a / s.zone_size, inc_io_count E s)

  read_page_lem : (id : ℕ) (s : Zns E) → read_page E id s ≡ read_result s (E.maps.find id s.table)
  unfolding read_page get_page_addr
  read_page_lem id s = elim (Option-cases (E.maps.find id s.table)) [
    | inl e ↦ rw e
    | inr (a, e) ↦ rw e
  ]

  read_result-stored :
      (readable : IsReadable E) (s : Zns E) (o : Option ℕ) (frame : Frame)
      → frame_at E s o ≡ some frame
      → (zone : ℕ) × (read_result s o ≡ ok (frame, zone, inc_io_count E s))
  read_result-stored readable s none frame e = absurd (cc)
  read_result-stored readable s (some a) frame e =
      let same : bytes_on E page_size a s ≡ frame = some_frame e in
      (a / s.zone_size, rw (pread-bytes_on E readable page_size a s, same) refl)

  read_result-none :
      (s : Zns E) (o : Option ℕ) → frame_at E s o ≡ none → read_result s o ≡ fault out_of_range
  read_result-none s none e = refl
  read_result-none s (some a) e = cc

  -- Where the reads of the device succeed, `read_page` returns what is stored, and counts.
  pub read_page-stored :
      (readable : IsReadable E) (id : ℕ) (s : Zns E) (frame : Frame)
      → stored E s id ≡ some frame
      → (zone : ℕ) × (read_page E id s ≡ ok (frame, zone, inc_io_count E s))
  read_page-stored readable id s frame e =
      let (zone, r) = read_result-stored readable s (E.maps.find id s.table) frame e in
      (zone, read_page_lem id s ∙ r)

  -- Where nothing is stored, it throws.
  pub read_page-none :
      (id : ℕ) (s : Zns E) → stored E s id ≡ none → read_page E id s ≡ fault out_of_range
  read_page-none id s e = read_page_lem id s ∙ read_result-none s (E.maps.find id s.table) e

  -- The controller is in order and has an empty zone that belongs to no cluster.
  pub record IsReady (m : ℕ) (s : Zns E) : Type 0 where
    pub fill : ℕ → ℕ
    pub consistent : IsConsistent E m fill s
    pub covzs : s.covzs ≡ true
    pub clusters : 0 < s.cluster_num
    pub spare : ℕ
    pub spare-lt : spare < max_zone_num
    pub spare_empty : (s.zone spare).cond ≡ empty
    pub spare_free : (s.zone spare).cf ≡ negsuc 0

  -- The zone in which a page is written, and the state in which it is.
  pub picked :
      (rel : IsReliable E) (m : ℕ) (s : Zns E) (ready : IsReady m s)
      → page_size ≤ s.cap
      → (cf : ℤ)
      → Returns
          (select E cf 1 s)
          (λ r. Keeps E s r.1 × HasRoom E m ready.fill r.0 r.1 × IsConsistent E m ready.fill r.1)
  picked rel m s ready big cf =
      let (r, run, (keeps, space)) =
        select-HasSpace E rel cf 1 ready.consistent ready.covzs ready.clusters (omega arith)
          ready.spare ready.spare-lt ready.spare_empty ready.spare_free in
      let c = Keeps-IsConsistent E keeps ready.consistent in
      let z = space.0 in
      (r, run, (keeps, (z, omega (arith, space.2, c.pointer r.0 z, c.origin r.0 z), space.1), c))

  module _ (rel : IsReliable E) (m : ℕ) (s : Zns E) (ready : IsReady m s) (big : page_size ≤ s.cap)
      (tries : ℕ) (cf : ℤ) (id a : ℕ) (found : E.maps.find id s.table ≡ some a) (frame : Frame)
      (whole : length frame ≡ page_size) where
    chosen : Returns (select E cf 1 s) (λ r.
        Keeps E s r.1
        × HasRoom E m ready.fill r.0 r.1
        × ((k : ℕ) × (E.maps.find id r.1.table ≡ some (k * page_size)))
        × IsConsistent E m ready.fill r.1)
    chosen =
        let (r, run, (keeps, room, c)) = picked rel m s ready big cf in
        let found' : E.maps.find id r.1.table ≡ some a = ap (E.maps.find id) keeps.table ∙ found in
        let (k, at, _, _) = found-page E m c id a found' in
        (r, run, (keeps, room, (k, found' ∙ ap some at), c))

    -- On a device whose writes, openings and finishings succeed, from a consistent state with
    -- `covzs` set, a positive number of clusters and an empty zone that belongs to none,
    -- `write_page` of a page id that is in the table, with a frame of one page and zones that
    -- hold a page, returns at its first try; the frame is stored under the page id, what is
    -- stored under every other id is unchanged, and the state is consistent.
    pub write_page-Stores : Returns (write_page E (suc tries) cf id frame s) (Stores E m id frame s)
    unfolding write_page zone_at
    write_page-Stores =
        let ((w, t), run, (keeps, room, (k, f), c)) = chosen in
        let (d, e) = rel.writes (t.zone w).wp frame t.device in
        let wrote =
          write_page_at-moved E m c room id k d f frame
            (rw (take-length page_size frame whole) e) in
        (
          inc_io_count E (inc_write_count E 1 (moved E m ready.fill w id k d t)),
          rw (run, lt→ltb w max_zone_num room.0, room.2) wrote,
          moved-Stores E m ready.fill s id frame whole w k t d (add32 t.io_count 1)
              (add32 t.write_count 1) keeps room c f e,
        )

    -- Under the conditions of `write_page-Stores`, `write_page_gc` does the same: it returns
    -- at its first try, stores the frame under the page id, keeps what is stored under every
    -- other id, and the state is consistent.
    pub write_page_gc-Stores :
        Returns (write_page_gc E (suc tries) cf id frame s) (Stores E m id frame s)
    write_page_gc-Stores =
        let ((w, t), run, (keeps, room, (k, f), c)) = chosen in
        let (u, done, p) =
          write_page_gc_chosen E m ready.fill s id frame whole rel tries w k cf t run keeps room c
            f in
        (u, done, p.0)

    stored-here : (t : Zns E) → Stores E m id frame s t → stored E t id ≡ some frame
    stored-here t u = u.holds id ∙ ground arith

    -- Under the conditions of `write_page-Stores`, on a device whose reads succeed too,
    -- `write_page` and then `read_page` of the same page id return, and give the frame that
    -- was written.
    pub write_page-read_page :
        (readable : IsReadable E)
        → Returns (write_page E (suc tries) cf id frame s >>= read_page E id) (λ r. r.0 ≡ frame)
    write_page-read_page readable =
        let (t, run, u) = write_page-Stores in
        let (zone, got) = read_page-stored readable id t frame (stored-here t u) in
        ((frame, zone, inc_io_count E t), rw run got, refl)
