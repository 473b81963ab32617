-- ===== src/Zns/Recycle.antt =====
-- `recycle`, which `garbage_collection` and `cold_data_restruct` share: the zone is emptied and reset,
-- and what is stored stays as it is.
use native.Mathlib.Nat.{}
use zone_buffer.Base.{
  ℕ, suc, ◌*◌, ◌/◌, ◌≡◌, ◌≢◌, ◌<◌, refl, ◌∙◌, ap, sym, subst, inl, inr, ◌⊎◌, false, arith, Result,
  ok, fault, assert_failed, ◌>>=◌, Returns, Option-cases, none, lt→ltb,
}
use zone_buffer.Base.Int.{ℤ}
use zone_buffer.Env.{Env}
use zone_buffer.Zns.{Zns, ZoneDesc, full, empty, reset_zone, zone_at}
use zone_buffer.Zns.Keeps.{IsReliable, IsReadable}
use zone_buffer.Zns.Spares.{spares}
use zone_buffer.Zns.Valid.{bits_in}
use zone_buffer.Zns.Move.{IsSound, SameStore, Keeps-SameStore, SameStore-trans, IsCount}
use zone_buffer.Zns.Vacate.{
  Vacated, visits, zone_unused, positions-numbered, in_zone, move_pages-Vacated,
}
use zone_buffer.Zns.Gc.{move_pages, positions, recycle}
use zone_buffer.Zns.Reset.{
  resets-SameStore, reset_part, recycled, recycled-Keeps, clear_reset, reset_part-lem,
}

module _ (E : Env) (m : ℕ) where
  open E.params use {page_size, max_zone_num}

  -- The store is kept, the zone is empty, with no page in use, and no other one was reopened.
  pub record Recycled (i : ℕ) (s t : Zns E) : Type 0 where
    pub same : SameStore E m s t
    pub bare : (t.zone i).cond ≡ empty
    pub closed : (j : ℕ) → j ≢ i → (s.zone j).cond ≡ full → (t.zone j).cond ≡ full
    pub unused : (l : ℕ) → l / m ≡ i → t.meta_page l ≡ false

  -- The pages of the zone have been moved, and then the device does not reset it.
  abbrev pub Refuses : ℕ → Result (Zns E) → Type 0
  Refuses i r =
      Returns r (λ t. E.device.reset_zones (i * m * page_size) (m * page_size) t.device ≡ none)

  -- The zone has more pages in use than there are spare zones.
  abbrev pub IsShort : ℕ → Zns E → Type 0
  IsShort i s = spares E s < bits_in s.meta_page (i * m) (visits E m s.cap)

  abbrev RecyclesOr : ℕ → Zns E → Result (Zns E) → Result (Zns E) → Type 0
  RecyclesOr i s pages r =
      Returns r (Recycled i s) ⊎ (r ≡ fault assert_failed) × (IsShort i s ⊎ Refuses i pages)

  -- What the loop over the pages of the zone gives.
  abbrev pub zone_moved : ℕ → (Zns E → ℤ) → (Zns E → Zns E) → ℕ → Zns E → Result (Zns E)
  zone_moved tries cf_of note i s =
      move_pages E (suc tries) cf_of note (positions E (s.zone i).ofst s.cap) s

  reset_fails :
      (i : ℕ) (s : Zns E)
      → i < max_zone_num
      → E.device.reset_zones (s.zone i).ofst s.zone_size s.device ≡ none
      → reset_part E m i s ≡ fault assert_failed
  unfolding reset_zone zone_at
  reset_fails i s h fails = rw (lt→ltb i max_zone_num h, fails) refl

  pub zone_at-in : (i : ℕ) (s : Zns E) → i < max_zone_num → zone_at E i s ≡ ok (s.zone i)
  unfolding zone_at
  zone_at-in i s h = rw (lt→ltb i max_zone_num h) refl

  recycle_split :
      (tries : ℕ) (cf_of : Zns E → ℤ) (note : Zns E → Zns E) (i : ℕ) (s : Zns E)
      → i < max_zone_num
      → recycle E tries cf_of note i s
        ≡ (move_pages E tries cf_of note (positions E (s.zone i).ofst s.cap) s >>= reset_part E m i)
  unfolding recycle
  recycle_split tries cf_of note i s h =
      ap
        (λ (q : Result (ZoneDesc E)). q >>= λ z.
          move_pages E tries cf_of note (positions E z.ofst s.cap) s >>= reset_part E m i)
        (zone_at-in i s h)

  refused :
      (i : ℕ) (s : Zns E)
      → i < max_zone_num
      → IsSound E m s
      → E.device.reset_zones (s.zone i).ofst s.zone_size s.device ≡ none
      → E.device.reset_zones (i * m * page_size) (m * page_size) s.device ≡ none
  refused i s h sound fails =
      let c = sound.consistent in rw (← c.origin i h, ← c.geometry.zone_pages) fails

  -- The second part, on a zone of which no page is in use.
  reset_part-Recycled :
      (i : ℕ) (s : Zns E)
      → i < max_zone_num
      → IsSound E m s
      → ((l : ℕ) → l / m ≡ i → s.meta_page l ≡ false)
      → Returns (reset_part E m i s) (Recycled i s)
        ⊎ (reset_part E m i s ≡ fault assert_failed)
          × (E.device.reset_zones (i * m * page_size) (m * page_size) s.device ≡ none)
  reset_part-Recycled i s h sound unused =
      elim (Option-cases (E.device.reset_zones (s.zone i).ofst s.zone_size s.device)) [
        | inl fails ↦ inr (reset_fails i s h fails, refused i s h sound fails)
        | inr (d, reset) ↦
            let same = resets-SameStore E m i s d h sound reset unused in
            inl (
              recycled E m i d s,
              reset_part-lem E m i s d h reset (clear_reset E m i s d h sound same unused),
              record {
                same =
                    SameStore-trans E m same
                      (Keeps-SameStore E m same.sound (recycled-Keeps E m i d s));
                bare = ground arith;
                closed = λ j ne e. ground (arith, ne, e);
                unused = unused;
              },
            )
      ]

  module _ (rel : IsReliable E) (readable : IsReadable E) (tries : ℕ) (cf_of : Zns E → ℤ)
      (note : Zns E → Zns E) (count : IsCount E m note) (i : ℕ) (in_range : i < max_zone_num) where
    recycle_then :
        (s : Zns E) (r : Result (Zns E))
        → Returns r (Vacated E m i (i * m) (visits E m s.cap) s)
          ⊎ (r ≡ fault assert_failed) × IsShort i s
        → RecyclesOr i s r (r >>= reset_part E m i)
    recycle_then s r (inr (fails, short)) = inr (rw fails refl, inl short)
    recycle_then s r (inl (t, run, v)) =
        elim (reset_part-Recycled i t in_range v.same.sound (zone_unused E m i s t in_range v)) [
          | inr (fails, refuses) ↦ inr (rw (run, fails) refl, inr (t, run, refuses))
          | inl (u, done, p) ↦ inl (
            u,
            rw (run, done) refl,
            record {
              same = SameStore-trans E m v.same p.same;
              bare = p.bare;
              closed = λ j ne e. p.closed j ne (v.closed j e);
              unused = p.unused;
            },
          )
        ]

    pub recycle-Recycled :
        (s : Zns E)
        → IsSound E m s
        → (s.zone i).cond ≡ full
        → RecyclesOr i s (zone_moved tries cf_of note i s) (recycle E (suc tries) cf_of note i s)
    recycle-Recycled s sound shut =
        let c = sound.consistent in
        let at =
          ap (λ (x : ℕ). positions E x s.cap) (c.origin i in_range)
          ∙ positions-numbered E m i s.cap in
        let moved =
          move_pages-Vacated E m rel readable tries cf_of note count i in_range (i * m)
            (visits E m s.cap) s
            (λ l lo hi.
              in_zone E m i s.cap l c.geometry.pages_pos c.geometry.page_pos c.cap-le lo hi)
            sound shut in
        subst (RecyclesOr i s (zone_moved tries cf_of note i s))
          (sym (recycle_split (suc tries) cf_of note i s in_range))
          (recycle_then s (zone_moved tries cf_of note i s) (rw at moved))
