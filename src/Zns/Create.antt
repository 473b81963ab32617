-- ===== src/Zns/Create.antt =====
-- `create_new_page`: a page id that is not in the table gets the next page of a zone.
use zone_buffer.Base.{
  ℕ, suc, ◌+◌, ◌≡◌, refl, ◌∙◌, ap, sym, true, none, some, ◌==◌, if◌then◌else◌, arith, ok, lt→ltb,
  take,
}
use zone_buffer.Env.{Env}
use zone_buffer.Zns.{
  Zns, ZoneDesc, update, zone_at, put_zone, get_page_addr, Frame, inc_io_count, pwrite, set_valid,
}
use zone_buffer.Zns.Mapping.{IsMapping, place-IsMapping}
use zone_buffer.Zns.Valid.{HasGeometry, IsCounted, marked, set_valid-marked, marked-IsCounted}
use zone_buffer.Zns.Write.{create_page_at, inc_write_count}
use zone_buffer.Zns.Consistent.{
  IsConsistent, marked-zone, find-set_page_addr, find-set_page_addr_self, set_page_addr_lem,
  advance_lem,
}
use zone_buffer.Zns.Pages.{
  HasRoom, next_page, next-div, next-mod, next-unset, next-pointer, next-within, next-unused,
  readdressed,
}

module _ (E : Env) (m : ℕ) where
  open E.params use {page_size, max_zone_num}

  -- The state in which a page id has got the next page of zone `w`, and `d` been written.
  abbrev pub created : (ℕ → ℕ) → ℕ → ℕ → E.device.State → Zns E → Zns E
  created fill w id d s =
      let a : Zns E = record (readdressed E m id (s.zone w).wp s) { device = d } in
      let b : Zns E = marked E m (next_page E m fill w) true a in
      let z : ZoneDesc E = b.zone w in put_zone E w (record z { wp = z.wp + page_size }) b

  module _ {fill : ℕ → ℕ} {s : Zns E} (c : IsConsistent E m fill s) {w : ℕ}
      (room : HasRoom E m fill w s) (id : ℕ) (d : E.device.State)
      (new : E.maps.find id s.table ≡ none) where
    addressed : E.device.State → Zns E
    addressed e = record (readdressed E m id (s.zone w).wp s) { device = e }

    addressed-geometry : (e : E.device.State) → HasGeometry E m (addressed e)
    unfolding addressed
    addressed-geometry e = record {
      page_pos = c.geometry.page_pos;
      pages_pos = c.geometry.pages_pos;
      zone_pages = c.geometry.zone_pages;
      bitmap = c.geometry.bitmap;
    }

    addressed-IsCounted : IsCounted E m (marked E m (next_page E m fill w) true (addressed d))
    unfolding addressed
    addressed-IsCounted =
        marked-IsCounted E m (addressed-geometry d) (next_page E m fill w) true
          (rw (next-div E m c room) room.0) (next-unset E m c room) c.counted

    created-zone :
        (i : ℕ)
        → let t = created fill w id d s in
          ((t.zone i).wp ≡ (if w == i then (s.zone i).wp + page_size else (s.zone i).wp))
          × ((t.zone i).ofst ≡ (s.zone i).ofst)
          × ((t.zone i).cond ≡ (s.zone i).cond)
          × ((t.zone i).valid_page
              ≡ ((marked E m (next_page E m fill w) true (addressed d)).zone i).valid_page)
    unfolding addressed
    created-zone i =
        let (p, o, q) = marked-zone E m (next_page E m fill w) true (addressed d) i in
        let (pw, ow, qw) = marked-zone E m (next_page E m fill w) true (addressed d) w in
        (ground (arith, p, pw), ground (arith, o, ow), ground (arith, q, qw), ground arith)

    created-IsMapping :
        IsMapping page_size m max_zone_num
          (update fill w (suc (fill w)))
          (λ j. E.maps.find j (created fill w id d s).table)
          (created fill w id d s).meta_page
    created-IsMapping =
        let placed =
          place-IsMapping page_size m max_zone_num c.geometry.page_pos c.mapping id
            (next_page E m fill w) (λ j. E.maps.find j (created fill w id d s).table)
            (rw (next-div E m c room) room.0) (rw (next-div E m c room) (next-mod E m c room)) new
            (λ j.
              ground (arith, find-set_page_addr E m id (s.zone w).wp s j, c.pointer w room.0)) in
        rw (next-div E m c room) at placed

    -- The new page keeps the controller consistent.
    pub created-IsConsistent :
        IsConsistent E m (update fill w (suc (fill w))) (created fill w id d s)
    unfolding addressed
    created-IsConsistent = record {
      geometry = record {
        page_pos = c.geometry.page_pos;
        pages_pos = c.geometry.pages_pos;
        zone_pages = c.geometry.zone_pages;
        bitmap = c.geometry.bitmap;
      };
      counted = λ i h. (created-zone i).3 ∙ addressed-IsCounted i h;
      origin = λ i h. (created-zone i).1 ∙ c.origin i h;
      pointer = λ i h. (created-zone i).0 ∙ next-pointer E m c room i h;
      within = next-within E m c room;
      cap-le = c.cap-le;
      unused = λ i h e. next-unused E m c room i h (sym (created-zone i).2 ∙ e);
      mapping = created-IsMapping;
    }

    marked-addressed :
        set_valid E (s.zone w).wp true (readdressed E m id (s.zone w).wp s)
        ≡ ok (marked E m (next_page E m fill w) true (readdressed E m id (s.zone w).wp s))
    unfolding addressed
    marked-addressed =
        ap (λ (a : ℕ). set_valid E a true (readdressed E m id (s.zone w).wp s)) (c.pointer w room.0)
        ∙ set_valid-marked E m (addressed-geometry s.device) (next_page E m fill w) true
            (rw (next-div E m c room) room.0) (next-unset E m c room)

    -- `create_new_page` past the test of the zone makes this state.
    pub create_page_at-created :
        (frame : Frame)
        → E.device.pwrite (s.zone w).wp (take page_size frame) s.device ≡ some d
        → create_page_at E w id frame s
          ≡ ok (inc_write_count E 1 (inc_io_count E (created fill w id d s)))
    unfolding create_page_at zone_at get_page_addr pwrite addressed
    create_page_at-created frame e =
        rw
          (
            lt→ltb w max_zone_num room.0,
            set_page_addr_lem E m id (s.zone w).wp s,
            find-set_page_addr_self E m id (s.zone w).wp s,
            marked-addressed,
            e,
            advance_lem E m w page_size (marked E m (next_page E m fill w) true (addressed d))
                room.0,
          )
          refl
