-- ===== src/Zns/Gc.antt =====
-- src/zController.cpp: garbage collection and the restructuring of cold data. The source starts a
-- detached thread for each; here a thread is a job, which `garbage_collection_detect` and
-- `cd_detect` return and which the caller runs to its end when it chooses. A busy-wait on `Cd` or
-- `Gc` is passed when the flag is off. What goes to the log is left out.
use zone_buffer.Base.{
  ℕ, ◌+◌, ◌-◌, ◌*◌, ◌/◌, Bool, true, false, not, ◌&&◌, ◌||◌, List, [], ◌∷◌, ltb, leb, if◌then◌else◌,
  Result, ok, fault, out_of_fuel, ◌>>=◌, length, range_from, map,
}
use zone_buffer.Base.Int.{ℤ, pos, negsuc}
use zone_buffer.Env.{Env}
use zone_buffer.Zns.{
  Zns, ZoneDesc, empty, is_full, is_open, add32, read_id, update, zone_at, put_zone, get_valid,
  set_valid, pread, reset_zone,
}
use zone_buffer.Zns.Write.{write_page_gc, inc_write_count}

-- A thread that has been started.
pub data Job : Type 0 where
  collect : ℕ → Job
  restruct : List ℕ → Job

module _ (E : Env) where
  open E.params use {page_size, max_zone_num}
  open E.float use {Double, of_ℤ, add, sub, mul, div, lt, decimal}

  -- One round of the loop of `get_gc_info`.
  unfoldable pub gc_info_zone : ℕ → Zns E → Zns E
  gc_info_zone i s =
      let z : ZoneDesc E = s.zone i in
      if is_open z.cond || is_full z.cond
      then record s {
        zone = update s.zone i (record z {
          idle_rate = div (of_ℤ (pos (z.wp - z.ofst))) (of_ℤ (pos s.cap));
          gc_rate = sub (of_ℤ (pos 1)) (div (of_ℤ z.valid_page) (of_ℤ (pos (s.cap / page_size))));
        });
        real_data = add s.real_data (div (of_ℤ (pos (z.wp - z.ofst))) (of_ℤ (pos page_size)));
        valid_data = add s.valid_data (of_ℤ z.valid_page);
      }
      else s

  unfoldable pub gc_info_loop : List ℕ → Zns E → Zns E
  gc_info_loop [] s = s
  gc_info_loop (i ∷ is) s = gc_info_loop is (gc_info_zone i s)

  unfoldable pub get_gc_info : Zns E → Zns E
  get_gc_info s =
      gc_info_loop (range_from 0 s.zone_number)
        (record s { valid_data = of_ℤ (pos 0); real_data = of_ℤ (pos 0) })

  -- The sum of `zone_used`.
  unfoldable pub count_used : (ℕ → Bool) → List ℕ → ℕ
  count_used used [] = 0
  count_used used (i ∷ is) = (if used i then 1 else 0) + count_used used is

  unfoldable pub print_gc_info : Zns E → Zns E
  print_gc_info s =
      let t = get_gc_info s in
      record t { used_zone = count_used t.zone_used (range_from 0 t.zone_number) }

  -- The addresses of the loops `for (pos = ofst; pos < ofst + cap; pos += PAGE_SIZE)`.
  unfoldable pub positions : ℕ → ℕ → List ℕ
  positions ofst cap =
      map (λ i. ofst + i * page_size) (range_from 0 ((cap + page_size - 1) / page_size))

  -- A page that is in use is read and written anew, for the cluster of `cf_of`.
  unfoldable pub move_page : ℕ → (Zns E → ℤ) → (Zns E → Zns E) → ℕ → Zns E → Result (Zns E)
  move_page tries cf_of note addr s = do
    b ← get_valid E addr s
    if not b then ok s else (do
      let t : Zns E = inc_write_count E 1 (note s)
      buf ← pread E page_size addr t
      write_page_gc E tries (cf_of t) (read_id buf) buf t)

  unfoldable pub move_pages : ℕ → (Zns E → ℤ) → (Zns E → Zns E) → List ℕ → Zns E → Result (Zns E)
  move_pages tries cf_of note [] s = ok s
  move_pages tries cf_of note (addr ∷ addrs) s = do
    s ← move_page tries cf_of note addr s
    move_pages tries cf_of note addrs s

  unfoldable pub clear_pages : List ℕ → Zns E → Result (Zns E)
  clear_pages [] s = ok s
  clear_pages (addr ∷ addrs) s = do
    b ← get_valid E addr s
    s ← (if b then set_valid E addr false s else ok s)
    clear_pages addrs s

  -- The zone after `reset_zone`.
  abbrev pub emptied : ZoneDesc E → ZoneDesc E
  emptied z = record z { cond = empty; cf = negsuc 0; wp = z.ofst }

  abbrev pub zero_rates : ZoneDesc E → ZoneDesc E
  zero_rates z = record z { gc_rate = of_ℤ (pos 0); idle_rate = of_ℤ (pos 0) }

  -- What both do with a zone: its pages go elsewhere, and it is reset.
  unfoldable pub recycle : ℕ → (Zns E → ℤ) → (Zns E → Zns E) → ℕ → Zns E → Result (Zns E)
  recycle tries cf_of note id s = do
    z ← zone_at E id s
    s ← move_pages tries cf_of note (positions z.ofst s.cap) s
    s ← reset_zone E id s
    z ← zone_at E id s
    let t : Zns E = put_zone E id (emptied z) s
    s ← clear_pages (positions z.ofst t.cap) t
    z ← zone_at E id s
    ok (put_zone E id (zero_rates z) s)

  unfoldable pub garbage_collection : ℕ → ℕ → Zns E → Result (Zns E)
  garbage_collection tries id s = do
    let started : Zns E = record s { gc = true; gc_count = s.gc_count + 1 }
    s ←
        recycle tries (λ t. (t.zone id).cf)
          (λ t. record t { gc_valid_count = add32 t.gc_valid_count 1 }) id (print_gc_info started)
    z ← zone_at E id s
    let t : Zns E = put_zone E id (record z { in_gc = false }) s
    ok (record t { gc = false })

  unfoldable pub restruct_zones : ℕ → List ℕ → Zns E → Result (Zns E)
  restruct_zones tries [] s = ok s
  restruct_zones tries (id ∷ ids) s = do
    s ← recycle tries (λ t. pos 0) (λ t. t) id s
    restruct_zones tries ids s

  unfoldable pub cold_data_restruct : ℕ → List ℕ → Zns E → Result (Zns E)
  cold_data_restruct tries ids s = do
    s ← restruct_zones tries ids (record s { cd = true; cd_count = s.cd_count + 1 })
    ok (record s { cd = false })

  unfoldable pub run_job : ℕ → Job → Zns E → Result (Zns E)
  run_job tries (collect id) s = garbage_collection tries id s
  run_job tries (restruct ids) s = cold_data_restruct tries ids s

  -- The loop of `garbage_collection_detect`: the zones to collect are marked.
  unfoldable pub mark_zones : List ℕ → Zns E → Zns E × List Job
  mark_zones [] s = (s, [])
  mark_zones (i ∷ is) s =
      let z : ZoneDesc E = s.zone i in
      let due = is_full z.cond && lt (decimal 85 2) z.gc_rate && not z.in_gc in
      let (t, jobs) =
        mark_zones is (if due then put_zone E i (record z { in_gc = true }) s else s) in
      (t, if due then collect i ∷ jobs else jobs)

  -- The wait on `Cd` ends when it is off; with one caller and no job at work it is.
  unfoldable pub garbage_collection_detect : Zns E → Result (Zns E × List Job)
  garbage_collection_detect s =
      if s.cd
      then fault out_of_fuel
      else (let t = get_gc_info s in
          if not t.gc then ok (mark_zones (range_from 0 t.zone_number) t) else ok (t, []))

  -- The test of `cd_detect` for one zone.
  unfoldable pub is_cold : ZoneDesc E → Bool
  is_cold z =
      is_full z.cond
      && lt (sub z.gc_rate z.gc_rate_last) (decimal 5 3)
      && lt (of_ℤ (pos 0)) (sub z.gc_rate z.gc_rate_last)
      && lt (mul z.idle_rate (sub (of_ℤ (pos 1)) z.gc_rate)) (decimal 6 1)

  unfoldable pub cold_zones : List ℕ → Zns E → List ℕ
  cold_zones [] s = []
  cold_zones (i ∷ is) s = if is_cold (s.zone i) then i ∷ cold_zones is s else cold_zones is s

  abbrev pub keep_rates : Zns E → Zns E
  keep_rates s = record s {
    zone = λ i.
        let z : ZoneDesc E = s.zone i in
        if ltb i s.zone_number then record z { gc_rate_last = z.gc_rate } else z;
  }

  unfoldable pub cd_detect : Zns E → Result (Zns E × List Job)
  cd_detect s =
      if s.gc
      then fault out_of_fuel
      else if s.cd
      then ok (s, [])
      else (let t = get_gc_info s in
          let cold = cold_zones (range_from 0 t.zone_number) t in
          let many = leb 3 (length cold) in
          let u = (if many then print_gc_info t else t) in
          ok (keep_rates (get_gc_info u), if many then restruct cold ∷ [] else []))
