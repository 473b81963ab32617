-- ===== src/Zns/Write.antt =====
-- src/zController.cpp: the choice of a zone, and the reads and writes of pages. Each function that
-- calls itself again when its zone has been closed in the meantime takes the number of calls left.
use zone_buffer.Base.{
  ℕ, zero, suc, ◌+◌, ◌*◌, ◌/◌, ◌%◌, true, false, not, ◌&&◌, List, [], ◌∷◌, Option, none, some, ◌==◌,
  leb, if◌then◌else◌, Result, ok, fault, assert_failed, undefined, out_of_fuel, ◌>>=◌, length, take,
  drop, range_from,
}
use zone_buffer.Base.Int.{ℤ, pos, negsuc, eqb_ℤ, rem_ℤ}
use zone_buffer.Env.{Env}
use zone_buffer.Zns.{
  Zns, ZoneDesc, exp_open, full, is_open, is_empty, add32, Frame, update, zone_at, put_zone,
  set_valid, set_valid_gc, get_page_addr, set_page_addr, inc_io_count, pread, pwrite, open_zone,
  finish_zone,
}

module _ (E : Env) where
  open E.params use {page_size, max_zone_num, write_batch}

  -- The first loop of `select_write_zone`: the open zones of the cluster, until one has room. The
  -- ones without room are finished.
  unfoldable pub scan_open : ℤ → ℕ → List ℕ → Zns E → Result (Option ℕ × Zns E)
  scan_open cf n [] s = ok (none, s)
  scan_open cf n (i ∷ is) s =
      let rest = scan_open cf n is in
      do
        z ← zone_at E i s
        if eqb_ℤ z.cf cf && is_open z.cond
            then (if leb (z.wp + n * page_size) (z.ofst + s.cap)
                then ok (some i, s)
                else (do t ← finish_zone E i s; rest (put_zone E i (record z { cond = full }) t)))
            else rest s

  -- The second: an empty zone is opened for the cluster.
  unfoldable pub scan_empty : ℤ → List ℕ → Zns E → Result (ℕ × Zns E)
  scan_empty cf [] s = fault assert_failed
  scan_empty cf (i ∷ is) s =
      let rest = scan_empty cf is in
      do
        z ← zone_at E i s
        if eqb_ℤ z.cf (negsuc 0) && is_empty z.cond
            then (do
              t ← open_zone E i s
              let y : ZoneDesc E = record z { cond = exp_open; cf = cf }
              ok (i, record (put_zone E i y t) { zone_used = update t.zone_used i true }))
            else rest s

  -- After the first loop.
  unfoldable pub or_empty : ℤ → Option ℕ × Zns E → Result (ℕ × Zns E)
  or_empty cf (some i, s) = ok (i, s)
  or_empty cf (none, s) = scan_empty cf (range_from 0 max_zone_num) s

  unfoldable pub select_write_zone : ℤ → ℕ → Zns E → Result (ℕ × Zns E)
  select_write_zone cf cluster_size s = if s.cluster_num == 0 then fault undefined else (do
    found ← scan_open (rem_ℤ cf s.cluster_num) cluster_size (range_from 0 max_zone_num) s
    or_empty (rem_ℤ cf s.cluster_num) found)

  -- The body has no `return`: it is undefined on every path. `covzs` is always set.
  unfoldable pub select_write_zone_ach : ℤ → ℕ → Zns E → Result (ℕ × Zns E)
  select_write_zone_ach cf cluster_size s = fault undefined

  unfoldable pub select : ℤ → ℕ → Zns E → Result (ℕ × Zns E)
  select cf n s = if s.covzs then select_write_zone cf n s else select_write_zone_ach cf n s

  -- `Zone[w].wp += ret`
  unfoldable pub advance : ℕ → ℕ → Zns E → Result (Zns E)
  advance w n s = do z ← zone_at E w s; ok (put_zone E w (record z { wp = z.wp + n }) s)

  abbrev pub inc_write_count : ℕ → Zns E → Zns E
  inc_write_count n s = record s { write_count = add32 s.write_count n }

  -- `write_page` below the test of the zone's condition.
  unfoldable pub write_page_at : ℕ → ℕ → Frame → Zns E → Result (Zns E)
  write_page_at w page_id frame s = do
    z ← zone_at E w s
    old ← get_page_addr E page_id s
    s ← set_valid E old false s
    let t : Zns E = set_page_addr E page_id z.wp s
    s ← pwrite E z.wp (take page_size frame) t
    s ← advance w page_size s
    new ← get_page_addr E page_id s
    s ← set_valid E new true s
    ok (inc_io_count E (inc_write_count 1 s))

  unfoldable pub write_page : ℕ → ℤ → ℕ → Frame → Zns E → Result (Zns E)
  write_page zero cf page_id frame s = fault out_of_fuel
  write_page (suc tries) cf page_id frame s =
      let again = write_page tries cf page_id frame in
      do
        (w, s) ← select cf 1 s
        z ← zone_at E w s
        if not (is_open z.cond) then again s else write_page_at w page_id frame s

  -- `write_page_gc` below the test: the write comes before the change of the table.
  unfoldable pub write_page_gc_at : ℕ → ℕ → Frame → Zns E → Result (Zns E)
  write_page_gc_at w page_id frame s = do
    z ← zone_at E w s
    old ← get_page_addr E page_id s
    s ← set_valid_gc E old false s
    s ← pwrite E z.wp (take page_size frame) s
    let t : Zns E = set_page_addr E page_id z.wp s
    new ← get_page_addr E page_id t
    s ← set_valid_gc E new true t
    s ← advance w page_size s
    ok (inc_write_count 1 (inc_io_count E s))

  unfoldable pub write_page_gc : ℕ → ℤ → ℕ → Frame → Zns E → Result (Zns E)
  write_page_gc zero cf page_id frame s = fault out_of_fuel
  write_page_gc (suc tries) cf page_id frame s =
      let again = write_page_gc tries cf page_id frame in
      do
        (w, s) ← select cf 1 s
        z ← zone_at E w s
        if not (is_open z.cond) then again s else write_page_gc_at w page_id frame s

  -- The loop over `page_list`, whose pages get the addresses from `addr` on.
  unfoldable pub place_pages : ℕ → List ℕ → Zns E → Result (Zns E)
  place_pages addr [] s = ok s
  place_pages addr (page_id ∷ page_list) s = do
    old ← get_page_addr E page_id s
    s ← set_valid E old false s
    let t : Zns E = set_page_addr E page_id addr s
    new ← get_page_addr E page_id t
    s ← set_valid E new true t
    place_pages (addr + page_size) page_list s

  -- `n` whole batches and the rest of `cluster_size % write_batch` pages, at the write pointer.
  unfoldable pub write_batches : ℕ → ℕ → ℕ → Frame → Zns E → Result (Zns E)
  write_batches w zero last buffer s = do
    z ← zone_at E w s
    s ← pwrite E z.wp (take (page_size * last) buffer) s
    s ← advance w (page_size * last) s
    ok (inc_write_count last s)
  write_batches w (suc n) last buffer s = do
    z ← zone_at E w s
    s ← pwrite E z.wp (take (page_size * write_batch) buffer) s
    s ← advance w (page_size * write_batch) s
    write_batches w n last (drop (page_size * write_batch) buffer) (inc_write_count write_batch s)

  unfoldable pub write_cluster : ℕ → ℤ → Frame → List ℕ → Zns E → Result (Zns E)
  write_cluster zero cf buffer page_list s = fault out_of_fuel
  write_cluster (suc tries) cf buffer page_list s =
      let again = write_cluster tries cf buffer page_list in
      let n = length page_list in
      do
        (w, s) ← select cf n s
        z ← zone_at E w s
        if not (is_open z.cond) then again s else (do
          s ← place_pages z.wp page_list s
          s ← write_batches w (n / write_batch) (n % write_batch) buffer s
          ok (inc_io_count E s))

  -- `create_new_page` below the test.
  unfoldable pub create_page_at : ℕ → ℕ → Frame → Zns E → Result (Zns E)
  create_page_at w page_id frame s = do
    z ← zone_at E w s
    let t : Zns E = set_page_addr E page_id z.wp s
    new ← get_page_addr E page_id t
    s ← set_valid E new true t
    s ← pwrite E z.wp (take page_size frame) s
    s ← advance w page_size s
    ok (inc_write_count 1 (inc_io_count E s))

  -- If the zone has been closed in the meantime, it is `write_page` that is called.
  unfoldable pub create_new_page : ℕ → ℕ → Frame → Zns E → Result (Zns E)
  create_new_page tries page_id frame s = do
    (w, s) ← select (pos 0) 1 s
    z ← zone_at E w s
    if not (is_open z.cond)
        then write_page tries (pos 0) page_id frame s
        else create_page_at w page_id frame s

  -- The frame that was read, the zone that it came from, and the state.
  unfoldable pub read_page : ℕ → Zns E → Result (Frame × ℕ × Zns E)
  read_page page_id s = do
    addr ← get_page_addr E page_id s
    frame ← pread E page_size addr s
    ok (frame, addr / s.zone_size, inc_io_count E s)
