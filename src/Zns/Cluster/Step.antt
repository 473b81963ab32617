-- ===== src/Zns/Cluster/Step.antt =====
-- One page of a cluster: it is moved as by a write, while the write pointer of its zone stays behind
-- by `q` bytes.
use zone_buffer.Base.{
  ℕ, suc, ◌+◌, ◌*◌, ◌/◌, ◌≡◌, ◌<◌, ◌≤◌, refl, ◌∙◌, ap, sym, true, false, some, List, ◌∷◌, ◌==◌,
  ==_iff, if◌then◌else◌, arith, ok,
}
use zone_buffer.Env.{Env}
use zone_buffer.Zns.{exp_open, Zns, update, get_page_addr, set_valid, set_page_addr}
use zone_buffer.Zns.Valid.{HasGeometry, marked, set_valid-marked}
use zone_buffer.Zns.Mapping.{page_injective}
use zone_buffer.Zns.Consistent.{
  IsConsistent, found-page, find-set_page_addr, find-set_page_addr_self, set_page_addr_lem,
}
use zone_buffer.Zns.Pages.{
  HasRoom, next_page, next-div, next-unset, readdressed, moved, moved-IsConsistent,
}
use zone_buffer.Zns.Keeps.{Keeps, Keeps-IsConsistent}
use zone_buffer.Zns.Write.{place_pages}
use zone_buffer.Zns.Cluster.{shifted}

pub plus_none : (q p : ℕ) → q ≡ q + 0 * p
plus_none q p = omega arith

pub plus_one : (q p n : ℕ) → q + p + n * p ≡ q + suc n * p
plus_one q p n = grind arith

pub one_fits : (f p n cap : ℕ) → f + suc n * p ≤ cap → f + p ≤ cap
one_fits f p n cap h = grind arith

pub rest_fits : (f p n cap : ℕ) → f * p + suc n * p ≤ cap → suc f * p + n * p ≤ cap
rest_fits f p n cap h = grind arith

module _ (E : Env) (m : ℕ) where
  open E.params use {page_size, max_zone_num}

  -- Page id `id`, which had page `k`, gets the next page of zone `w`.
  abbrev pub placed : (ℕ → ℕ) → ℕ → ℕ → ℕ → ℕ → Zns E → Zns E
  placed fill w q id k t =
      marked E m (next_page E m fill w) true
        (readdressed E m id ((t.zone w).wp + q) (marked E m k false t))

  module _ (fill : ℕ → ℕ) (w q : ℕ) (t : Zns E) (c : IsConsistent E m fill (shifted E w q t))
      (room : HasRoom E m fill w (shifted E w q t)) (id k : ℕ)
      (found : E.maps.find id t.table ≡ some (k * page_size)) where
    geometry_of : (b : ℕ) → HasGeometry E m (readdressed E m id b (marked E m k false t))
    geometry_of b = record {
      page_pos = c.geometry.page_pos;
      pages_pos = c.geometry.pages_pos;
      zone_pages = c.geometry.zone_pages;
      bitmap = c.geometry.bitmap;
    }

    before-geometry : HasGeometry E m t
    before-geometry = record {
      page_pos = c.geometry.page_pos;
      pages_pos = c.geometry.pages_pos;
      zone_pages = c.geometry.zone_pages;
      bitmap = c.geometry.bitmap;
    }

    old_page : (t.meta_page k ≡ true) × (k / m < max_zone_num)
    old_page =
        let (l, at, b, z) = found-page E m c id (k * page_size) found in
        let same : k ≡ l = page_injective page_size k l c.geometry.page_pos at in
        (rw same b, rw same z)

    addr_lem : (t.zone w).wp + q ≡ next_page E m fill w * page_size
    addr_lem = ground (arith, c.pointer w room.0)

    next-free : (marked E m k false t).meta_page (next_page E m fill w) ≡ false
    next-free = ground (arith, next-unset E m c room)

    set_valid-next :
        let u = readdressed E m id ((t.zone w).wp + q) (marked E m k false t) in
        set_valid E ((t.zone w).wp + q) true u ≡ ok (marked E m (next_page E m fill w) true u)
    set_valid-next =
        let u = readdressed E m id ((t.zone w).wp + q) (marked E m k false t) in
        ap (λ (a : ℕ). set_valid E a true u) addr_lem
        ∙ set_valid-marked E m (geometry_of ((t.zone w).wp + q)) (next_page E m fill w) true
            (rw (next-div E m c room) room.0) next-free

    pub place_lem :
        (ids : List ℕ)
        → place_pages E ((t.zone w).wp + q) (id ∷ ids) t
          ≡ place_pages E ((t.zone w).wp + q + page_size) ids (placed fill w q id k t)
    unfolding place_pages get_page_addr
    place_lem ids =
        rw
          (
            found,
            set_valid-marked E m before-geometry k false old_page.1 old_page.0,
            find-set_page_addr_self E m id ((t.zone w).wp + q) (marked E m k false t),
            set_page_addr_lem E m id ((t.zone w).wp + q) (marked E m k false t),
            set_valid-next,
          )
          refl

    placed-wp :
        (i : ℕ)
        → ((shifted E w (q + page_size) (placed fill w q id k t)).zone i).wp
          ≡ ((moved E m fill w id k t.device (shifted E w q t)).zone i).wp
    placed-wp i = ground arith

    placed-cond :
        (i : ℕ)
        → ((shifted E w (q + page_size) (placed fill w q id k t)).zone i).cond
          ≡ ((moved E m fill w id k t.device (shifted E w q t)).zone i).cond
    placed-cond i = ground arith

    placed-Keeps :
        Keeps E
          (moved E m fill w id k t.device (shifted E w q t))
          (shifted E w (q + page_size) (placed fill w q id k t))
    unfolding set_page_addr
    placed-Keeps = record {
      cap = refl;
      zone_size = refl;
      setup = (refl, refl);
      bits = refl;
      table = rw ((==_iff w w).1 refl) refl;
      meta_page = refl;
      zones = λ i. (placed-wp i, ground arith, ground (arith, next-div E m c room));
      unused = λ i e. sym (placed-cond i) ∙ e;
      closed = λ i e. placed-cond i ∙ e;
      bytes = λ a. refl;
    }

    pub placed-IsConsistent :
        IsConsistent E m
          (update fill w (suc (fill w)))
          (shifted E w (q + page_size) (placed fill w q id k t))
    placed-IsConsistent =
        Keeps-IsConsistent E placed-Keeps (moved-IsConsistent E m c room id k t.device found)

    -- What placing a page leaves in zone `w`, and in the table.
    pub placed-pointer :
        (((placed fill w q id k t).zone w).wp ≡ (t.zone w).wp)
        × (((placed fill w q id k t).zone w).cond ≡ exp_open)
    placed-pointer = (ground arith, ground (arith, room.2))

    pub placed-alike :
        (i : ℕ)
        → (((placed fill w q id k t).zone i).cond ≡ (t.zone i).cond)
          × (((placed fill w q id k t).zone i).cf ≡ (t.zone i).cf)
    placed-alike i = (ground arith, ground arith)

    pub placed-find :
        (j : ℕ)
        → E.maps.find j (placed fill w q id k t).table
          ≡ (if id == j then some ((t.zone w).wp + q) else E.maps.find j t.table)
    placed-find j = find-set_page_addr E m id ((t.zone w).wp + q) (marked E m k false t) j
