-- ===== src/Zns/Reset.antt =====
-- The reset of a zone of which no page is in use: what is stored stays as it is.
use native.Mathlib.Nat.{mul-le-mul_right}
use zone_buffer.Base.{
  ℕ, zero, suc, ◌+◌, ◌*◌, ◌/◌, ◌≡◌, ◌≢◌, ◌<◌, ◌≤◌, refl, ◌∙◌, ap, sym, inl, inr, true, false, List,
  ◌==◌, arith, Result, ok, ◌>>=◌, Bool-cases, Option, none, some, lt→ltb,
}
use zone_buffer.Env.{Env}
use zone_buffer.Zns.{Zns, bytes_on, reset_zone, zone_at, put_zone, update}
use zone_buffer.Zns.Consistent.{IsConsistent}
use zone_buffer.Zns.Keeps.{Keeps}
use zone_buffer.Zns.Bytes.{lt_page, true≢false}
use zone_buffer.Zns.Valid.{div_ne, get_valid-meta_page}
use zone_buffer.Zns.Stored.{frame_at, bytes_on-bytes}
use zone_buffer.Zns.Move.{IsSound, SameStore, sound_after}
use zone_buffer.Zns.Vacate.{numbered, visits, positions-numbered, in_zone}
use zone_buffer.Zns.Gc.{positions, clear_pages, emptied, zero_rates}

module _ (E : Env) (m : ℕ) where
  open E.params use {page_size, max_zone_num}

  -- The zone after `reset_zone`, and the device after the call.
  abbrev pub resets : ℕ → E.device.State → Zns E → Zns E
  resets i d s = put_zone E i (emptied E (s.zone i)) (record s { device = d })

  module _ (i : ℕ) (s : Zns E) (d : E.device.State) (in_range : i < max_zone_num)
      (sound : IsSound E m s)
      (reset : E.device.reset_zones (s.zone i).ofst s.zone_size s.device ≡ some d)
      (unused : (l : ℕ) → l / m ≡ i → s.meta_page l ≡ false) where
    -- A page in use is in another zone.
    apart_zone : (l : ℕ) → s.meta_page l ≡ true → (i == l / m) ≡ false
    apart_zone l set = elim (Bool-cases (i == l / m)) [
      | inl same ↦
          let at : l / m ≡ i = ground (arith, same) in absurd (true≢false (sym set ∙ unused l at))
      | inr other ↦ other
    ]

    -- The reset leaves its bytes alone.
    page_kept :
        (l : ℕ)
        → s.meta_page l ≡ true
        → bytes_on E page_size (l * page_size) (resets i d s)
          ≡ bytes_on E page_size (l * page_size) s
    page_kept l set =
        let c = sound.consistent in
        let ne : l / m ≢ i = ground (arith, apart_zone l set) in
        let positive : 0 < s.zone_size =
          grind (arith, c.geometry.zone_pages, c.geometry.page_pos, c.geometry.pages_pos) in
        bytes_on-bytes E (l * page_size) s (resets i d s) λ a lo hi.
          E.device.byte-reset_zones a (s.zone i).ofst s.zone_size s.device d reset positive
            (elim (div_ne l m i c.geometry.pages_pos ne) [
              | inl below ↦
                  inl (omega (arith, lt_page l (i * m) page_size below, c.origin i in_range, hi))
              | inr above ↦ inr (
                  omega (
                    arith,
                    mul-le-mul_right page_size above,
                    c.origin i in_range,
                    c.geometry.zone_pages,
                    lo,
                  ))
            ])

    kept_at :
        (id : ℕ) (o : Option ℕ)
        → E.maps.find id s.table ≡ o
        → frame_at E (resets i d s) o ≡ frame_at E s o
    kept_at id none e = refl
    kept_at id (some a) e =
        let (l, at, set) = sound.consistent.mapping.mapped id a e in
        rw at (ap some (page_kept l set))

    resets-IsConsistent : IsConsistent E m (update sound.fill i 0) (resets i d s)
    resets-IsConsistent =
        let c = sound.consistent in
        record {
          geometry = record {
            page_pos = c.geometry.page_pos;
            pages_pos = c.geometry.pages_pos;
            zone_pages = c.geometry.zone_pages;
            bitmap = c.geometry.bitmap;
          };
          counted = λ j h. ground (arith, c.counted j h);
          origin = λ j h. ground (arith, c.origin j h);
          pointer = λ j h. elim (Bool-cases (i == j)) [
            | inl same ↦
                let at : i ≡ j = ground (arith, same) in
                let start : (s.zone i).ofst ≡ (j * m + 0) * page_size =
                  c.origin i in_range ∙ omega (arith, ap (λ (x : ℕ). x * m * page_size) at) in
                rw same start
            | inr other ↦ rw other (c.pointer j h)
          ];
          within = λ j h. ground (arith, c.within j h);
          cap-le = c.cap-le;
          unused = λ j h e. ground (arith, c.unused j h, e);
          mapping = record {
            mapped = c.mapping.mapped;
            written =
                λ k e. ((c.mapping.written k e).0, rw (apart_zone k e) (c.mapping.written k e).1);
            distinct = c.mapping.distinct;
            owned = c.mapping.owned;
          };
        }

    pub resets-SameStore : SameStore E m s (resets i d s)
    resets-SameStore =
        sound_after E m sound (update sound.fill i 0) resets-IsConsistent (refl, refl, refl, refl)
          (λ id. kept_at id (E.maps.find id s.table) refl)

  -- Pages that are not in use have nothing to be cleared.
  clear_pages-none :
      (a n : ℕ) (s : Zns E)
      → IsSound E m s
      → ((l : ℕ) → a ≤ l → l < a + n → (l / m < max_zone_num) × (s.meta_page l ≡ false))
      → clear_pages E (numbered E m a n) s ≡ ok s
  unfolding clear_pages
  clear_pages-none a zero s sound h = refl
  clear_pages-none a (suc n) s sound h =
      let (below, unset) = h a (omega arith) (omega arith) in
      rw (get_valid-meta_page E m sound.consistent.geometry a below, unset)
        (clear_pages-none (suc a) n s sound λ l lo hi. h l (omega arith) (omega arith))

  -- What `recycle` does after the loop that moves the pages.
  abbrev pub reset_part : ℕ → Zns E → Result (Zns E)
  reset_part i s = do
    s ← reset_zone E i s
    z ← zone_at E i s
    let t : Zns E = put_zone E i (emptied E z) s
    s ← clear_pages E (positions E z.ofst t.cap) t
    z ← zone_at E i s
    ok (put_zone E i (zero_rates E z) s)

  -- The zone after all of it.
  abbrev pub recycled : ℕ → E.device.State → Zns E → Zns E
  recycled i d s = put_zone E i (zero_rates E ((resets i d s).zone i)) (resets i d s)

  pub recycled-Keeps :
      (i : ℕ) (d : E.device.State) (s : Zns E) → Keeps E (resets i d s) (recycled i d s)
  recycled-Keeps i d s = record {
    cap = refl;
    zone_size = refl;
    setup = (refl, refl);
    bits = refl;
    table = refl;
    meta_page = refl;
    zones = λ j. (ground arith, ground arith, ground arith);
    unused = λ j e. ground arith;
    closed = λ j e. ground arith;
    bytes = λ a. refl;
  }

  pub clear_reset :
      (i : ℕ) (s : Zns E) (d : E.device.State)
      → i < max_zone_num
      → IsSound E m s
      → SameStore E m s (resets i d s)
      → ((l : ℕ) → l / m ≡ i → s.meta_page l ≡ false)
      → clear_pages E (positions E (s.zone i).ofst s.cap) (resets i d s) ≡ ok (resets i d s)
  clear_reset i s d h sound same unused =
      let c = sound.consistent in
      let at =
        ap (λ (x : ℕ). positions E x s.cap) (c.origin i h) ∙ positions-numbered E m i s.cap in
      ap (λ (ls : List ℕ). clear_pages E ls (resets i d s)) at
      ∙ clear_pages-none (i * m) (visits E m s.cap) (resets i d s) same.sound λ l lo hi.
        let there = in_zone E m i s.cap l c.geometry.pages_pos c.geometry.page_pos c.cap-le lo hi in
        (rw there h, unused l there)

  pub reset_part-lem :
      (i : ℕ) (s : Zns E) (d : E.device.State)
      → i < max_zone_num
      → E.device.reset_zones (s.zone i).ofst s.zone_size s.device ≡ some d
      → clear_pages E (positions E (s.zone i).ofst s.cap) (resets i d s) ≡ ok (resets i d s)
      → reset_part i s ≡ ok (recycled i d s)
  unfolding reset_zone zone_at
  reset_part-lem i s d h reset clear = rw (lt→ltb i max_zone_num h, reset, clear) refl
