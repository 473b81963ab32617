-- ===== src/Zns/Cluster/Kept.antt =====
-- What the write of a cluster leaves on the device: the old pages, and the bytes of the buffer.
use native.Mathlib.Nat.{div-add-mod', mod-lt}
use zone_buffer.Base.{
  ℕ, ◌+◌, ◌-◌, ◌*◌, ◌/◌, ◌%◌, ◌≡◌, ◌<◌, ◌≤◌, ◌⊎◌, refl, ap, sym, subst, true, none, some, Option,
  ◌==◌, ==_iff, inl, inr, Bool-cases, ltb, ltb→lt, arith, length, get_or, map, range_from,
}
use zone_buffer.Env.{Env}
use zone_buffer.Zns.{Zns, Frame, bytes_on}
use zone_buffer.Zns.Consistent.{IsConsistent, found-page}
use zone_buffer.Zns.Keeps.{Keeps}
use zone_buffer.Zns.Stored.{stored, frame_at, bytes_on-bytes}
use zone_buffer.Zns.Cluster.{shifted}
use zone_buffer.Zns.Cluster.Batches.{Overwrites}
use zone_buffer.Zns.Cluster.Spec.{HasBytes, below_zone, in_zone, above_zone}

sum_back : (a i : ℕ) (buffer : Frame) → get_or buffer (a + i - a) 0 ≡ get_or buffer i 0
sum_back a i buffer = ap (λ x. get_or buffer x 0) (omega arith)

module _ (E : Env) (m : ℕ) where
  open E.params use {page_size, max_zone_num, write_batch}

  pub redevice-IsConsistent :
      (fill : ℕ → ℕ) (s : Zns E) (d : E.device.State)
      → IsConsistent E m fill s
      → IsConsistent E m fill (record s { device = d })
  redevice-IsConsistent fill s d c = record {
    geometry = record {
      page_pos = c.geometry.page_pos;
      pages_pos = c.geometry.pages_pos;
      zone_pages = c.geometry.zone_pages;
      bitmap = c.geometry.bitmap;
    };
    counted = c.counted;
    origin = c.origin;
    pointer = c.pointer;
    within = c.within;
    cap-le = c.cap-le;
    unused = c.unused;
    mapping = c.mapping;
  }

  pub unshifted_Keeps : (w : ℕ) (t : Zns E) → Keeps E t (shifted E w 0 t)
  unshifted_Keeps w t = record {
    cap = refl;
    zone_size = refl;
    setup = (refl, refl);
    bits = refl;
    table = refl;
    meta_page = refl;
    zones = λ i. (ground arith, ground arith, ground arith);
    unused = λ i h. ground (arith, h);
    closed = λ i h. ground (arith, h);
    bytes = λ x. refl;
  }

  pub frame_at-device :
      (s t : Zns E) (o : Option ℕ) → s.device ≡ t.device → frame_at E s o ≡ frame_at E t o
  unfolding bytes_on
  frame_at-device s t none e = refl
  frame_at-device s t (some a) e =
      ap (λ d. some (map (λ x. E.device.byte x d) (range_from a page_size))) e

  module _ (fill : ℕ → ℕ) (w n : ℕ) (t : Zns E) (c : IsConsistent E m fill t)
      (below : w < max_zone_num) (fits : fill w * page_size + n * page_size ≤ t.cap)
      (buffer : Frame) (whole : length buffer ≡ n * page_size) (d : E.device.State)
      (wrote : Overwrites buffer
        (t.zone w).wp
        (λ x. E.device.byte x t.device)
        (λ x. E.device.byte x d)) where
    -- A page in use ends before the pages that are written, or begins after them.
    away :
        (l : ℕ)
        → t.meta_page l ≡ true
        → (l * page_size + page_size ≤ (t.zone w).wp)
          ⊎ ((t.zone w).wp + length buffer ≤ l * page_size)
    away l set =
        let p = c.pointer w below in
        let e = sym (div-add-mod' l m) in
        let used = (c.mapping.written l set).1 in
        elim (Bool-cases (ltb (l / m) w)) [
          | inl low ↦ inl (
              omega (
                arith,
                p,
                below_zone l m w (fill w) page_size (ltb→lt (l / m) w low) e
                    (mod-lt l c.geometry.pages_pos),
              ))
          | inr not_low ↦ elim (Bool-cases (l / m == w)) [
            | inl same ↦
                let at : l / m ≡ w = (==_iff (l / m) w).0 same in
                inl (
                  omega (
                    arith,
                    p,
                    in_zone l m w (fill w) page_size at e (subst (λ z. l % m < fill z) at used),
                  ))
            | inr other ↦
                let high : w < l / m = ground (arith, not_low, other) in
                inr (
                  omega (
                    arith,
                    p,
                    whole,
                    above_zone l m w (fill w) page_size n t.cap high e fits c.cap-le,
                  ))
          ]
        ]

    still_there :
        (o : Option ℕ)
        → ((a : ℕ)
            → o ≡ some a
            → bytes_on E page_size a (record t { device = d }) ≡ bytes_on E page_size a t)
        → frame_at E (record t { device = d }) o ≡ frame_at E t o
    still_there none h = refl
    still_there (some a) h = ap some (h a refl)

    -- What was stored is still there.
    pub old_frames :
        (j : ℕ) → frame_at E (record t { device = d }) (E.maps.find j t.table) ≡ stored E t j
    old_frames j = still_there (E.maps.find j t.table) λ a e.
        let (l, at, set, _) = found-page E m c j a e in
        rw at (
          bytes_on-bytes E (l * page_size) t (record t { device = d })
            λ x lo hi. let clear = away l set in ground (arith, wrote x, clear))

    pub new_bytes : HasBytes E buffer (t.zone w).wp (record t { device = d })
    new_bytes i lt = ground (arith, lt, wrote ((t.zone w).wp + i), sum_back (t.zone w).wp i buffer)
