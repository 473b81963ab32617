-- ===== src/Zns/Restruct.antt =====
-- `cold_data_restruct`: the zones that are cold are recycled one after the other.
use zone_buffer.Base.{
  ℕ, suc, ◌+◌, ◌≡◌, ◌≢◌, ◌<◌, ◌≤◌, refl, ap, ◌++◌, inl, inr, ◌⊎◌, Bool, true, false, List, [], ◌∷◌,
  arith, count, Result, fault, assert_failed, Returns,
}
use zone_buffer.Base.Int.{pos}
use zone_buffer.Env.{Env}
use zone_buffer.Zns.{Zns, full}
use zone_buffer.Zns.Keeps.{IsReliable, IsReadable, Keeps, Keeps-refl}
use zone_buffer.Zns.Move.{IsSound, SameStore, Keeps-SameStore, SameStore-trans}
use zone_buffer.Zns.Recycle.{Recycled, IsShort, Refuses, zone_moved, recycle-Recycled}
use zone_buffer.Zns.Gc.{restruct_zones, cold_data_restruct}

head_in : (k : ℕ) (ids : List ℕ) → 0 < count k (k ∷ ids)
unfolding count
head_in k ids = ground arith

tail_in : (j k : ℕ) (ids : List ℕ) → 0 < count j ids → 0 < count j (k ∷ ids)
unfolding count
tail_in j k ids h = ground (arith, h)

tail_once : (j k : ℕ) (ids : List ℕ) → count j (k ∷ ids) ≤ 1 → count j ids ≤ 1
unfolding count
tail_once j k ids h = ground (arith, h)

head_apart : (j k : ℕ) (ids : List ℕ) → count j (k ∷ ids) ≤ 1 → 0 < count j ids → j ≢ k
unfolding count
head_apart j k ids once h = ground (arith, once, h)

module _ (E : Env) (m : ℕ) where
  open E.params use {max_zone_num}

  -- The zones are different ones, and full.
  pub record AreFull (ids : List ℕ) (s : Zns E) : Type 0 where
    pub once : (j : ℕ) → count j ids ≤ 1
    pub shut : (j : ℕ) → 0 < count j ids → (j < max_zone_num) × ((s.zone j).cond ≡ full)

  -- What stops the recycling of a zone: there are fewer spare zones than pages in use, or its pages
  -- are moved and the device does not reset it.
  abbrev pub CannotRecycle : ℕ → ℕ → Zns E → Type 0
  CannotRecycle tries i t =
      IsShort E m i t ⊎ Refuses E m i (zone_moved E m tries (λ u. pos 0) (λ u. u) i t)

  -- The zones before one of the list are recycled, with the store as it was, and that one cannot be.
  abbrev pub IsStuck : ℕ → List ℕ → Zns E → Type 0
  IsStuck tries ids s =
      (before : List ℕ) × (i : ℕ) × (after : List ℕ) × (ids ≡ before ++ i ∷ after)
      × Returns (restruct_zones E (suc tries) before s)
          (λ t. SameStore E m s t × CannotRecycle tries i t)

  abbrev pub KeepsOr : ℕ → List ℕ → Zns E → Zns E → Result (Zns E) → Type 0
  KeepsOr tries ids s begun r =
      Returns r (SameStore E m s) ⊎ (r ≡ fault assert_failed) × IsStuck tries ids begun

  -- The state in which the loop over the zones starts.
  abbrev pub begin_restruct : Zns E → Zns E
  begin_restruct s = record s { cd = true; cd_count = s.cd_count + 1 }

  rest-AreFull :
      (k : ℕ) (ids : List ℕ) (s t : Zns E)
      → AreFull (k ∷ ids) s
      → Recycled E m k s t
      → AreFull ids t
  rest-AreFull k ids s t a r = record {
    once = λ j. tail_once j k ids (a.once j);
    shut = λ j h.
        let (below, e) = a.shut j (tail_in j k ids h) in
        (below, r.closed j (head_apart j k ids (a.once j) h) e);
  }

  restruct_zones-KeepsOr :
      (rel : IsReliable E) (readable : IsReadable E) (tries : ℕ) (ids : List ℕ) (s : Zns E)
      → IsSound E m s
      → AreFull ids s
      → KeepsOr tries ids s s (restruct_zones E (suc tries) ids s)
  unfolding restruct_zones
  restruct_zones-KeepsOr rel readable tries [] s sound a =
      inl (s, refl, Keeps-SameStore E m sound (Keeps-refl E s))
  restruct_zones-KeepsOr rel readable tries (k ∷ ids) s sound a =
      let (below, shut) = a.shut k (head_in k ids) in
      elim (recycle-Recycled E m rel readable tries (λ t. pos 0) (λ t. t)
        (λ t. (Keeps-refl E t, refl)) k below s sound shut) [
          | inr (fails, why) ↦ inr (
            rw fails refl,
            ([], k, ids, refl, (s, refl, (Keeps-SameStore E m sound (Keeps-refl E s), why))),
          )
          | inl (t, run, r) ↦
              elim (restruct_zones-KeepsOr rel readable tries ids t r.same.sound
                (rest-AreFull k ids s t a r)) [
                  | inl (u, done, same) ↦
                      inl (u, rw (run, done) refl, SameStore-trans E m r.same same)
                  | inr (fails, (before, i, after, split, (u, done, (same, why)))) ↦ inr (
                    rw (run, fails) refl,
                    (
                      k ∷ before,
                      i,
                      after,
                      ap (λ js. k ∷ js) split,
                      (u, rw run done, (SameStore-trans E m r.same same, why)),
                    ),
                  )
                ]
        ]

  -- The flag and the counter of the restructuring.
  flags-Keeps :
      (s : Zns E) (busy : Bool) (done : ℕ) → Keeps E s (record s { cd = busy; cd_count = done })
  flags-Keeps s busy done = record {
    cap = refl;
    zone_size = refl;
    setup = (refl, refl);
    bits = refl;
    table = refl;
    meta_page = refl;
    zones = λ j. (refl, refl, refl);
    unused = λ j e. e;
    closed = λ j e. e;
    bytes = λ a. refl;
  }

  -- On a device whose reads, writes, openings and finishings succeed, from a state as for
  -- `garbage_collection-Recycled`, `cold_data_restruct` of different full zones returns: the
  -- same frames are stored under the same ids, and the state is of the same kind. Or an
  -- assertion fails, and then the zones before some zone of the list are recycled, with the same
  -- frames stored, and in the state that this leaves that zone has more pages in use than there
  -- are empty zones without a cluster, or its pages are moved and the device refuses to reset it
  -- in the state that this leaves.
  pub cold_data_restruct-KeepsOr :
      (rel : IsReliable E) (readable : IsReadable E) (tries : ℕ) (ids : List ℕ) (s : Zns E)
      → IsSound E m s
      → AreFull ids s
      → KeepsOr tries ids s (begin_restruct s) (cold_data_restruct E (suc tries) ids s)
  unfolding cold_data_restruct
  cold_data_restruct-KeepsOr rel readable tries ids s sound a =
      let begun = begin_restruct s in
      let start = Keeps-SameStore E m sound (flags-Keeps s true (s.cd_count + 1)) in
      let full_then : AreFull ids begun = record { once = a.once; shut = a.shut } in
      elim (restruct_zones-KeepsOr rel readable tries ids begun start.sound full_then) [
        | inl (t, run, same) ↦ inl (
          record t { cd = false },
          rw run refl,
          SameStore-trans E m start (
              SameStore-trans E m same
                (Keeps-SameStore E m same.sound (flags-Keeps t false t.cd_count))),
        )
        | inr (fails, stuck) ↦ inr (rw fails refl, stuck)
      ]
