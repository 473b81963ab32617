-- ===== src/Zns/Collect.antt =====
-- `garbage_collection` of a full zone, from the counters that it prints to the flags that it clears.
use zone_buffer.Base.{
  ℕ, suc, ◌+◌, ◌*◌, ◌≡◌, ◌<◌, refl, ◌∙◌, ap, inl, inr, ◌⊎◌, Bool, true, false, List, [], ◌∷◌, ◌||◌,
  arith, fault, assert_failed, Returns, Result, Bool-cases, range_from,
}
use zone_buffer.Base.Int.{pos}
use zone_buffer.Env.{Env}
use zone_buffer.Zns.{Zns, full, add32, is_open, is_full, put_zone}
use zone_buffer.Zns.Keeps.{IsReliable, IsReadable, Keeps, Keeps-refl, Keeps-trans}
use zone_buffer.Zns.Move.{IsSound, Keeps-SameStore, SameStore-trans}
use zone_buffer.Zns.Spares.{is_spare, spares, bits_in-same}
use zone_buffer.Zns.Valid.{bits_in}
use zone_buffer.Zns.Vacate.{visits}
use zone_buffer.Zns.Recycle.{Recycled, IsShort, Refuses, zone_moved, recycle-Recycled, zone_at-in}
use zone_buffer.Zns.Gc.{
  gc_info_zone, count_used, gc_info_loop, get_gc_info, print_gc_info, garbage_collection,
}

short_alike : {x x' y y' : ℕ} → x' ≡ x → y' ≡ y → x' < y' → x < y
short_alike e f h = omega (arith, e, f, h)

module _ (E : Env) where
  open E.params use {page_size, max_zone_num}
  open E.float use {Double, of_ℤ}

  -- The figures and the flag that a collection sets.
  figures-Keeps :
      (s : Zns E) (valid real : Double) (used collected moved : ℕ) (busy : Bool)
      → Keeps E s (record s {
        valid_data = valid;
        real_data = real;
        used_zone = used;
        gc_count = collected;
        gc_valid_count = moved;
        gc = busy;
      })
  figures-Keeps s valid real used collected moved busy = record {
    cap = refl;
    zone_size = refl;
    setup = (refl, refl);
    bits = refl;
    table = refl;
    meta_page = refl;
    zones = λ j. (refl, refl, refl);
    unused = λ j e. e;
    closed = λ j e. e;
    bytes = λ a. refl;
  }

  gc_info_zone-Keeps : (i : ℕ) (s : Zns E) → Keeps E s (gc_info_zone E i s)
  unfolding gc_info_zone
  gc_info_zone-Keeps i s = elim (Bool-cases (is_open (s.zone i).cond || is_full (s.zone i).cond)) [
    | inr other ↦ rw other (Keeps-refl E s)
    | inl used ↦ rw used record {
      cap = refl;
      zone_size = refl;
      setup = (refl, refl);
      bits = refl;
      table = refl;
      meta_page = refl;
      zones = λ j. (ground arith, ground arith, ground arith);
      unused = λ j e. ground (arith, e);
      closed = λ j e. ground (arith, e);
      bytes = λ a. refl;
    }
  ]

  gc_info_loop-Keeps : (is : List ℕ) (s : Zns E) → Keeps E s (gc_info_loop E is s)
  unfolding gc_info_loop
  gc_info_loop-Keeps [] s = Keeps-refl E s
  gc_info_loop-Keeps (i ∷ is) s =
      Keeps-trans E (gc_info_zone-Keeps i s) (gc_info_loop-Keeps is (gc_info_zone E i s))

  get_gc_info-Keeps : (s : Zns E) → Keeps E s (get_gc_info E s)
  unfolding get_gc_info
  get_gc_info-Keeps s =
      let zero_data : Zns E = record s { valid_data = of_ℤ (pos 0); real_data = of_ℤ (pos 0) } in
      Keeps-trans E
        (figures-Keeps s (of_ℤ (pos 0)) (of_ℤ (pos 0)) s.used_zone s.gc_count s.gc_valid_count s.gc)
        (gc_info_loop-Keeps (range_from 0 s.zone_number) zero_data)

  print_gc_info-Keeps : (s : Zns E) → Keeps E s (print_gc_info E s)
  unfolding print_gc_info
  print_gc_info-Keeps s =
      let t = get_gc_info E s in
      Keeps-trans E (get_gc_info-Keeps s) (
        figures-Keeps t t.valid_data t.real_data
          (count_used E t.zone_used (range_from 0 t.zone_number)) t.gc_count t.gc_valid_count t.gc)

  gc_info_zone-is_spare :
      (i : ℕ) (s : Zns E) (j : ℕ) → is_spare E (gc_info_zone E i s) j ≡ is_spare E s j
  unfolding gc_info_zone
  gc_info_zone-is_spare i s j = ground arith

  gc_info_loop-is_spare :
      (is : List ℕ) (s : Zns E) (j : ℕ) → is_spare E (gc_info_loop E is s) j ≡ is_spare E s j
  unfolding gc_info_loop
  gc_info_loop-is_spare [] s j = refl
  gc_info_loop-is_spare (i ∷ is) s j =
      gc_info_loop-is_spare is (gc_info_zone E i s) j ∙ gc_info_zone-is_spare i s j

  print_gc_info-spares : (s : Zns E) → spares E (print_gc_info E s) ≡ spares E s
  unfolding print_gc_info get_gc_info
  print_gc_info-spares s =
      let zero_data : Zns E = record s { valid_data = of_ℤ (pos 0); real_data = of_ℤ (pos 0) } in
      bits_in-same _ (is_spare E s) 0 max_zone_num
        λ j lo hi. gc_info_loop-is_spare (range_from 0 s.zone_number) zero_data j

  -- The flags of the zone and of the controller, when the collection is over.
  abbrev done_with : ℕ → Zns E → Zns E
  done_with i s = record (put_zone E i (record (s.zone i) { in_gc = false }) s) { gc = false }

  done_with-Keeps : (i : ℕ) (s : Zns E) → Keeps E s (done_with i s)
  done_with-Keeps i s = record {
    cap = refl;
    zone_size = refl;
    setup = (refl, refl);
    bits = refl;
    table = refl;
    meta_page = refl;
    zones = λ j. (ground arith, ground arith, ground arith);
    unused = λ j e. ground (arith, e);
    closed = λ j e. ground (arith, e);
    bytes = λ a. refl;
  }

  -- The state in which the loop of a collection starts, and what the loop gives.
  abbrev begin_collection : Zns E → Zns E
  begin_collection s = print_gc_info E (record s { gc = true; gc_count = s.gc_count + 1 })

  abbrev pub collected_pages : ℕ → ℕ → ℕ → Zns E → Result (Zns E)
  collected_pages m tries i s =
      zone_moved E m tries (λ t. (t.zone i).cf)
        (λ t. record t { gc_valid_count = add32 t.gc_valid_count 1 }) i (begin_collection s)

  module _ (m : ℕ) (rel : IsReliable E) (readable : IsReadable E) (tries i : ℕ) (s : Zns E)
      (in_range : i < max_zone_num) (sound : IsSound E m s) (shut : (s.zone i).cond ≡ full) where
    abbrev started : Zns E
    started = begin_collection s

    started-Keeps : Keeps E s started
    started-Keeps =
        Keeps-trans E
          (figures-Keeps s s.valid_data s.real_data s.used_zone (s.gc_count + 1) s.gc_valid_count
            true)
          (print_gc_info-Keeps (record s { gc = true; gc_count = s.gc_count + 1 }))

    IsShort-before : IsShort E m i started → IsShort E m i s
    IsShort-before short =
        let same = print_gc_info-spares (record s { gc = true; gc_count = s.gc_count + 1 }) in
        short_alike same
          (ap (λ (f : ℕ → Bool). bits_in f (i * m) (visits E m started.cap)) started-Keeps.meta_page
            ∙ ap (λ (n : ℕ). bits_in s.meta_page (i * m) (visits E m n)) started-Keeps.cap)
          short

    -- On a device whose reads, writes, openings and finishings succeed, from a consistent
    -- state with `covzs` set, a positive number of clusters, zones that hold a page and every
    -- stored frame carrying its page id, `garbage_collection` of a full zone returns: the same
    -- frames are stored under the same ids, the state is of the same kind, the zone is empty,
    -- no page of it is in use, and the other full zones are still full. Or an assertion fails,
    -- and then the zone had more pages in use than there were empty zones without a cluster,
    -- or all its pages were moved and the device refuses to reset it in the state that this
    -- leaves.
    pub garbage_collection-Recycled :
        Returns (garbage_collection E (suc tries) i s) (Recycled E m i s)
        ⊎ (garbage_collection E (suc tries) i s ≡ fault assert_failed)
          × (IsShort E m i s ⊎ Refuses E m i (collected_pages m tries i s))
    unfolding garbage_collection
    garbage_collection-Recycled =
        elim (recycle-Recycled E m rel readable tries (λ t. (t.zone i).cf)
          (λ t. record t { gc_valid_count = add32 t.gc_valid_count 1 })
          (λ t. (
            figures-Keeps t t.valid_data t.real_data t.used_zone t.gc_count
                (add32 t.gc_valid_count 1) t.gc,
            refl,
          ))
          i in_range started (Keeps-SameStore E m sound started-Keeps).sound
          (started-Keeps.closed i shut)) [
            | inr (fails, inr refuses) ↦ inr (rw fails refl, inr refuses)
            | inr (fails, inl short) ↦ inr (rw fails refl, inl (IsShort-before short))
            | inl (t, run, p) ↦ inl (
              done_with i t,
              rw (run, zone_at-in E m i t in_range) refl,
              record {
                same = SameStore-trans E m (Keeps-SameStore E m sound started-Keeps) (
                    SameStore-trans E m p.same
                      (Keeps-SameStore E m p.same.sound (done_with-Keeps i t)));
                bare = ground (arith, p.bare);
                closed = λ j ne e.
                    (done_with-Keeps i t).closed j (p.closed j ne (started-Keeps.closed j e));
                unused = p.unused;
              },
            )
          ]
