-- ===== src/Zns/Consistent.antt =====
-- The invariant of the controller, and what the small methods do to the parts of it.
use zone_buffer.Base.{
  ℕ, ◌+◌, ◌*◌, ◌/◌, ◌≡◌, ◌<◌, ◌≤◌, refl, Bool, true, some, ◌==◌, if◌then◌else◌, arith, ok, lt→ltb,
}
use zone_buffer.Env.{Env}
use zone_buffer.Zns.{Zns, ZoneDesc, empty, zone_at, put_zone, set_page_addr}
use zone_buffer.Zns.Mapping.{IsMapping}
use zone_buffer.Zns.Valid.{HasGeometry, IsCounted, marked}
use zone_buffer.Zns.Write.{advance}

module _ (E : Env) (m : ℕ) where
  open E.params use {page_size, max_zone_num}

  -- `fill i` is the number of pages written in zone `i`.
  pub record IsConsistent (fill : ℕ → ℕ) (s : Zns E) : Type 0 where
    pub geometry : HasGeometry E m s
    pub counted : IsCounted E m s
    pub origin : (i : ℕ) → i < max_zone_num → (s.zone i).ofst ≡ i * m * page_size
    pub pointer : (i : ℕ) → i < max_zone_num → (s.zone i).wp ≡ (i * m + fill i) * page_size
    pub within : (i : ℕ) → i < max_zone_num → fill i * page_size ≤ s.cap
    pub cap-le : s.cap ≤ m * page_size
    pub unused : (i : ℕ) → i < max_zone_num → (s.zone i).cond ≡ empty → fill i ≡ 0
    pub mapping : IsMapping page_size m max_zone_num fill (λ id. E.maps.find id s.table) s.meta_page

  -- What `marked` leaves alone in every zone.
  pub marked-zone :
      (k : ℕ) (b : Bool) (s : Zns E) (i : ℕ)
      → (((marked E m k b s).zone i).wp ≡ (s.zone i).wp)
        × (((marked E m k b s).zone i).ofst ≡ (s.zone i).ofst)
        × (((marked E m k b s).zone i).cond ≡ (s.zone i).cond)
  marked-zone k b s i = (ground arith, ground arith, ground arith)

  -- The table after `set_page_addr`.
  pub find-set_page_addr :
      (id addr : ℕ) (s : Zns E) (j : ℕ)
      → E.maps.find j (set_page_addr E id addr s).table
        ≡ (if id == j then some addr else E.maps.find j s.table)
  unfolding set_page_addr
  find-set_page_addr id addr s j = ground (
    arith,
    E.maps.find-insert j id addr s.table,
    E.maps.find-insert j id addr (E.maps.erase id s.table),
    E.maps.find-erase j id s.table,
  )

  pub find-set_page_addr_self :
      (id addr : ℕ) (s : Zns E) → E.maps.find id (set_page_addr E id addr s).table ≡ some addr
  find-set_page_addr_self id addr s = ground (arith, find-set_page_addr id addr s id)

  pub advance_lem :
      (w n : ℕ) (s : Zns E)
      → w < max_zone_num
      → let z : ZoneDesc E = s.zone w in
        advance E w n s ≡ ok (put_zone E w (record z { wp = z.wp + n }) s)
  unfolding advance zone_at
  advance_lem w n s h = rw (lt→ltb w max_zone_num h)

  pub set_page_addr_lem :
      (id addr : ℕ) (s : Zns E)
      → set_page_addr E id addr s ≡ record s { table = (set_page_addr E id addr s).table }
  unfolding set_page_addr
  set_page_addr_lem id addr s = refl

  pub set_page_addr-device :
      (id addr : ℕ) (s : Zns E) (d : E.device.State)
      → set_page_addr E id addr (record s { device = d })
        ≡ record s { table = (set_page_addr E id addr s).table; device = d }
  unfolding set_page_addr
  set_page_addr-device id addr s d = refl

  -- A page id that is in the table has a page, and its bit is set.
  pub found-page :
      {fill : ℕ → ℕ} {s : Zns E} (c : IsConsistent fill s) (id a : ℕ)
      → E.maps.find id s.table ≡ some a
      → (k : ℕ) × (a ≡ k * page_size) × (s.meta_page k ≡ true) × (k / m < max_zone_num)
  found-page c id a e =
      let (k, at, b) = c.mapping.mapped id a e in (k, at, b, (c.mapping.written k b).0)
