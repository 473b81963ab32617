-- ===== src/Zns/Pages.antt =====
-- One page is written: `write_page`, `write_page_gc` and `create_new_page` once the zone is chosen.
use native.Mathlib.Nat.{
  mul-add-div_right, mul-add-mod_self_right, div-eq_of_lt, mod-eq_of_lt, add-zero,
}
use zone_buffer.Base.{
  ℕ, suc, ◌+◌, ◌*◌, ◌/◌, ◌%◌, ◌≡◌, ◌<◌, ◌≤◌, refl, ◌∙◌, ap, sym, fun_ext, inl, inr, true, false,
  none, some, ◌==◌, if◌then◌else◌, arith, ok, Bool-cases, ==_iff, lt→ltb, take,
}
use zone_buffer.Env.{Env}
use zone_buffer.Zns.{
  Zns, ZoneDesc, empty, exp_open, update, zone_at, put_zone, get_page_addr, set_page_addr, Frame,
  inc_io_count, pwrite, set_valid, set_valid_gc,
}
use zone_buffer.Zns.Mapping.{IsMapping, page_injective, drop-IsMapping, place-IsMapping}
use zone_buffer.Zns.Valid.{HasGeometry, IsCounted, marked, set_valid-marked, marked-IsCounted}
use zone_buffer.Zns.Write.{write_page_at, write_page_gc_at, inc_write_count}
use zone_buffer.Zns.Consistent.{
  IsConsistent, marked-zone, find-set_page_addr, find-set_page_addr_self, set_page_addr_lem,
  set_page_addr-device, found-page, advance_lem,
}

set_valid_gc_lem : (E : Env) → set_valid_gc E ≡ set_valid E
unfolding set_valid_gc set_valid
set_valid_gc_lem E = refl

module _ (E : Env) (m : ℕ) where
  open E.params use {page_size, max_zone_num}

  -- The next page of zone `w`.
  abbrev pub next_page : (ℕ → ℕ) → ℕ → ℕ
  next_page fill w = w * m + fill w

  -- The zone is open and has room for one more page.
  abbrev pub HasRoom : (ℕ → ℕ) → ℕ → Zns E → Type 0
  HasRoom fill w s =
      (w < max_zone_num) × (fill w * page_size + page_size ≤ s.cap) × ((s.zone w).cond ≡ exp_open)

  module _ {fill : ℕ → ℕ} {s : Zns E} (c : IsConsistent E m fill s) {w : ℕ}
      (room : HasRoom fill w s) where
    fill-lt : fill w < m
    fill-lt = grind (arith, c.cap-le)

    pub next-div : next_page fill w / m ≡ w
    next-div =
        mul-add-div_right c.geometry.pages_pos w (fill w) ∙ rw (div-eq_of_lt fill-lt, add-zero)

    pub next-mod : next_page fill w % m ≡ fill w
    next-mod = mul-add-mod_self_right w m (fill w) ∙ mod-eq_of_lt fill-lt

    pub next-unset : s.meta_page (next_page fill w) ≡ false
    next-unset = ground (arith, c.mapping.written (next_page fill w), next-div, next-mod)

    -- One more page in zone `w`: its write pointer, its bound and the empty zones.
    pub next-pointer :
        (i : ℕ)
        → i < max_zone_num
        → (if w == i then (s.zone i).wp + page_size else (s.zone i).wp)
          ≡ (i * m + update fill w (suc (fill w)) i) * page_size
    next-pointer i h = elim (Bool-cases (w == i)) [
      | inl same ↦
          rw same
            (omega (arith, c.pointer i h, ap (λ (j : ℕ). fill j * page_size) ((==_iff w i).0 same)))
      | inr other ↦ rw other (c.pointer i h)
    ]

    pub next-within :
        (i : ℕ) → i < max_zone_num → update fill w (suc (fill w)) i * page_size ≤ s.cap
    next-within i h = elim (Bool-cases (w == i)) [
      | inl same ↦ rw same (omega (arith, room.1))
      | inr other ↦ rw other (c.within i h)
    ]

    opened : exp_open ≡ empty → ⊥
    opened e = cc

    pub next-unused :
        (i : ℕ) → i < max_zone_num → (s.zone i).cond ≡ empty → update fill w (suc (fill w)) i ≡ 0
    next-unused i h was = elim (Bool-cases (w == i)) [
      | inl same ↦
          absurd (opened (sym room.2 ∙ ap (λ (j : ℕ). (s.zone j).cond) ((==_iff w i).0 same) ∙ was))
      | inr other ↦ rw other (c.unused i h was)
    ]

  -- The table with a new address for one page id.
  abbrev pub readdressed : ℕ → ℕ → Zns E → Zns E
  readdressed id addr s = record s { table = (set_page_addr E id addr s).table }

  -- The state in which a page id has been moved to the next page of zone `w`, and `d` written.
  abbrev pub moved : (ℕ → ℕ) → ℕ → ℕ → ℕ → E.device.State → Zns E → Zns E
  moved fill w id k d s =
      let a : Zns E = record (readdressed id (s.zone w).wp (marked E m k false s)) { device = d } in
      let z : ZoneDesc E = a.zone w in
      marked E m (next_page fill w) true (put_zone E w (record z { wp = z.wp + page_size }) a)

  module _ {fill : ℕ → ℕ} {s : Zns E} (c : IsConsistent E m fill s) {w : ℕ}
      (room : HasRoom fill w s) (id k : ℕ) (d : E.device.State)
      (found : E.maps.find id s.table ≡ some (k * page_size)) where
    page_facts : (s.meta_page k ≡ true) × (k / m < max_zone_num)
    page_facts =
        let (l, at, b, z) = found-page E m c id (k * page_size) found in
        let same : k ≡ l = page_injective page_size k l c.geometry.page_pos at in
        (rw same b, rw same z)

    moved-IsMapping :
        IsMapping page_size m max_zone_num
          (update fill w (suc (fill w)))
          (λ j. E.maps.find j (moved fill w id k d s).table)
          (moved fill w id k d s).meta_page
    moved-IsMapping =
        let dropped =
          drop-IsMapping page_size m max_zone_num c.geometry.page_pos c.mapping id k
            (λ j. if id == j then none else E.maps.find j s.table) found (λ j. refl) in
        let k' = next_page fill w in
        let placed =
          place-IsMapping page_size m max_zone_num c.geometry.page_pos dropped id k'
            (λ j. E.maps.find j (moved fill w id k d s).table) (rw (next-div c room) room.0)
            (rw (next-div c room) (next-mod c room)) (ground arith)
            (λ j. ground (
              arith,
              find-set_page_addr E m id (s.zone w).wp (marked E m k false s) j,
              c.pointer w room.0,
            )) in
        rw (next-div c room) at placed

    -- The stages of the move: the old page dropped, and the pointer advanced.
    dropped : Zns E
    dropped = record (readdressed id (s.zone w).wp (marked E m k false s)) { device = d }

    advanced : Zns E
    advanced =
        let z : ZoneDesc E = dropped.zone w in
        put_zone E w (record z { wp = z.wp + page_size }) dropped

    advanced-geometry : HasGeometry E m advanced
    unfolding advanced dropped
    advanced-geometry = record {
      page_pos = c.geometry.page_pos;
      pages_pos = c.geometry.pages_pos;
      zone_pages = c.geometry.zone_pages;
      bitmap = c.geometry.bitmap;
    }

    advanced-IsCounted : IsCounted E m advanced
    unfolding advanced dropped
    advanced-IsCounted i h =
        ground
          (arith, marked-IsCounted E m c.geometry k false page_facts.1 page_facts.0 c.counted i h)

    advanced-unset : advanced.meta_page (next_page fill w) ≡ false
    unfolding advanced dropped
    advanced-unset = ground (arith, next-unset c room)

    moved-IsCounted : IsCounted E m (moved fill w id k d s)
    unfolding advanced dropped
    moved-IsCounted =
        marked-IsCounted E m advanced-geometry (next_page fill w) true (rw (next-div c room) room.0)
          advanced-unset advanced-IsCounted

    pub moved-zone :
        (i : ℕ)
        → let t = moved fill w id k d s in
          ((t.zone i).wp ≡ (if w == i then (s.zone i).wp + page_size else (s.zone i).wp))
          × ((t.zone i).ofst ≡ (s.zone i).ofst)
          × ((t.zone i).cond ≡ (s.zone i).cond)
    unfolding advanced dropped
    moved-zone i =
        let (p', o', c') = marked-zone E m (next_page fill w) true advanced i in
        let (p, o, q) = marked-zone E m k false s i in
        let (pw, ow, qw) = marked-zone E m k false s w in
        (p' ∙ ground (arith, p, pw), o' ∙ ground (arith, o, ow), c' ∙ ground (arith, q, qw))

    -- The move keeps the controller consistent.
    pub moved-IsConsistent : IsConsistent E m (update fill w (suc (fill w))) (moved fill w id k d s)
    moved-IsConsistent = record {
      geometry = record {
        page_pos = c.geometry.page_pos;
        pages_pos = c.geometry.pages_pos;
        zone_pages = c.geometry.zone_pages;
        bitmap = c.geometry.bitmap;
      };
      counted = moved-IsCounted;
      origin = λ i h. (moved-zone i).1 ∙ c.origin i h;
      pointer = λ i h. (moved-zone i).0 ∙ next-pointer c room i h;
      within = next-within c room;
      cap-le = c.cap-le;
      unused = λ i h e. next-unused c room i h (sym (moved-zone i).2 ∙ e);
      mapping = moved-IsMapping;
    }

    set_valid-advanced :
        set_valid E (s.zone w).wp true advanced ≡ ok (marked E m (next_page fill w) true advanced)
    set_valid-advanced =
        ap (λ (a : ℕ). set_valid E a true advanced) (c.pointer w room.0)
        ∙ set_valid-marked E m advanced-geometry (next_page fill w) true
            (rw (next-div c room) room.0) advanced-unset

    -- `write_page` past the test of the zone makes this move.
    pub write_page_at-moved :
        (frame : Frame)
        → E.device.pwrite (s.zone w).wp (take page_size frame) s.device ≡ some d
        → write_page_at E w id frame s
          ≡ ok (inc_io_count E (inc_write_count E 1 (moved fill w id k d s)))
    unfolding write_page_at zone_at get_page_addr pwrite advanced dropped
    write_page_at-moved frame e =
        rw
          (
            lt→ltb w max_zone_num room.0,
            found,
            set_valid-marked E m c.geometry k false page_facts.1 page_facts.0,
            set_page_addr_lem E m id (s.zone w).wp (marked E m k false s),
            e,
            advance_lem E m w page_size dropped room.0,
            find-set_page_addr_self E m id (s.zone w).wp (marked E m k false s),
            set_valid-advanced,
          )
          refl

    -- `write_page_gc` sets the new bit before it advances the pointer.
    gc_moved : Zns E
    unfolding dropped
    gc_moved =
        let a : Zns E = marked E m (next_page fill w) true dropped in
        let z : ZoneDesc E = a.zone w in put_zone E w (record z { wp = z.wp + page_size }) a

    gc_zones : (i : ℕ) → gc_moved.zone i ≡ (moved fill w id k d s).zone i
    unfolding gc_moved dropped
    gc_zones i = ground (arith, next-div c room)

    gc_moved_lem : gc_moved ≡ moved fill w id k d s
    unfolding gc_moved dropped
    gc_moved_lem = λ j. record (moved fill w id k d s) { zone = fun_ext gc_zones j }

    dropped-geometry : HasGeometry E m dropped
    unfolding dropped
    dropped-geometry = record {
      page_pos = c.geometry.page_pos;
      pages_pos = c.geometry.pages_pos;
      zone_pages = c.geometry.zone_pages;
      bitmap = c.geometry.bitmap;
    }

    dropped-unset : dropped.meta_page (next_page fill w) ≡ false
    unfolding dropped
    dropped-unset = ground (arith, next-unset c room)

    set_valid-dropped :
        set_valid E (s.zone w).wp true dropped ≡ ok (marked E m (next_page fill w) true dropped)
    set_valid-dropped =
        ap (λ (a : ℕ). set_valid E a true dropped) (c.pointer w room.0)
        ∙ set_valid-marked E m dropped-geometry (next_page fill w) true
            (rw (next-div c room) room.0) dropped-unset

    -- `write_page_gc` past the test makes the same move as `write_page`, in another order.
    pub write_page_gc_at-moved :
        (frame : Frame)
        → E.device.pwrite (s.zone w).wp (take page_size frame) s.device ≡ some d
        → write_page_gc_at E w id frame s
          ≡ ok (inc_write_count E 1 (inc_io_count E (moved fill w id k d s)))
    unfolding write_page_gc_at zone_at get_page_addr pwrite dropped gc_moved
    write_page_gc_at-moved frame e =
        rw
          (
            lt→ltb w max_zone_num room.0,
            found,
            set_valid_gc_lem,
            set_valid-marked E m c.geometry k false page_facts.1 page_facts.0,
            e,
            set_page_addr-device E m id (s.zone w).wp (marked E m k false s) d,
            find-set_page_addr_self E m id (s.zone w).wp (marked E m k false s),
            set_valid-dropped,
            advance_lem E m w page_size (marked E m (next_page fill w) true dropped) room.0,
          )
          (ap (λ (t : Zns E). ok (inc_write_count E 1 (inc_io_count E t))) gc_moved_lem)
