-- ===== src/Zns/Close.antt =====
-- src/zController.cpp: the calls of libzbd that the writes and the recycling do not use, and what the
-- end of a run leaves on the device.
use zone_buffer.Base.{
  ℕ, zero, suc, ◌+◌, ◌≡◌, ◌≤◌, refl, List, [], ◌∷◌, ◌==◌, if◌then◌else◌, some, arith, Result, ok,
  assert_failed, ◌>>=◌, or_fault, Returns, range_from, lt→ltb,
}
use zone_buffer.Device.{ZbdZone}
use zone_buffer.Env.{Env}
use zone_buffer.Zns.{Zns, zone_at, finish_zone}
use zone_buffer.Zns.Keeps.{IsReliable, Keeps, Keeps-refl, Keeps-trans}
use zone_buffer.Zns.Stored.{stored, Keeps-stored}

module _ (E : Env) where
  open E.params use {max_zone_num}

  -- The report on one zone, as `get_zone_cond` and `get_zone_wp` both ask for it.
  unfoldable pub report : ℕ → Zns E → Result ZbdZone
  report zone_id s = do
    z ← zone_at E zone_id s
    or_fault (E.device.report_zones z.ofst s.zone_size s.device) assert_failed

  unfoldable pub get_zone_cond : ℕ → Zns E → Result ℕ
  get_zone_cond zone_id s = do info_zone ← report zone_id s; ok info_zone.cond

  unfoldable pub get_zone_wp : ℕ → Zns E → Result ℕ
  get_zone_wp zone_id s = do info_zone ← report zone_id s; ok info_zone.wp

  unfoldable pub close_zone : ℕ → Zns E → Result (Zns E)
  close_zone zone_id s = do
    cond ← get_zone_cond zone_id s
    if cond == E.device.cond_closed then ok s else (do
      z ← zone_at E zone_id s
      d ← or_fault (E.device.close_zones z.ofst s.zone_size s.device) assert_failed
      ok (record s { device = d }))

  unfoldable pub reset_all : Zns E → Result (Zns E)
  reset_all s = do
    d ← or_fault (E.device.reset_zones 0 0 s.device) assert_failed
    ok (record s { device = d })

  -- The loop of `close_file` over the zones from `i` on.
  unfoldable pub finish_all : List ℕ → Zns E → Result (Zns E)
  finish_all [] s = ok s
  finish_all (i ∷ is) s = do t ← finish_zone E i s; finish_all is t

  unfoldable pub close_file : Zns E → Result (Zns E)
  close_file s = finish_all (range_from 0 s.zone_number) s

  -- `PAGE_ID` is a `long int`, which this count does not reach.
  abbrev pub inc_pages_num : Zns E → Zns E
  inc_pages_num s = record s { pages_num = s.pages_num + 1 }

  abbrev pub io_count_clear : Zns E → Zns E
  io_count_clear s = record s { io_count = 0 }

  finished-Keeps :
      (s : Zns E) (at len : ℕ) (d : E.device.State)
      → E.device.finish_zones at len s.device ≡ some d
      → Keeps E s (record s { device = d })
  finished-Keeps s at len d e = record {
    cap = refl;
    zone_size = refl;
    setup = (refl, refl);
    bits = refl;
    table = refl;
    meta_page = refl;
    zones = λ i. (refl, refl, refl);
    unused = λ i h. h;
    closed = λ i h. h;
    bytes = λ a. E.device.byte-finish_zones a at len s.device d e;
  }

  finish_all-Keeps :
      (rel : IsReliable E) (a n : ℕ) (s : Zns E)
      → a + n ≤ max_zone_num
      → Returns (finish_all (range_from a n) s) (λ t. Keeps E s t × (t.zone ≡ s.zone))
  unfolding finish_all finish_zone zone_at
  finish_all-Keeps rel a zero s h = (s, refl, (Keeps-refl E s, refl))
  finish_all-Keeps rel a (suc n) s h =
      let (d, e) = rel.finishes (s.zone a).ofst s.zone_size s.device in
      let t : Zns E = record s { device = d } in
      let (u, run, (keeps, same)) = finish_all-Keeps rel (suc a) n t (omega (arith, h)) in
      (
        u,
        rw (lt→ltb a max_zone_num (omega (arith, h)), e) run,
        (Keeps-trans E (finished-Keeps s (s.zone a).ofst s.zone_size d e) keeps, same),
      )

  -- On a device whose zones can be finished, `close_file` returns, and leaves what is stored and the
  -- descriptions of the zones as they are: a zone that was open is still marked open.
  pub close_file-stored :
      (rel : IsReliable E) (s : Zns E)
      → s.zone_number ≤ max_zone_num
      → Returns (close_file s) (λ t. ((id : ℕ) → stored E t id ≡ stored E s id) × (t.zone ≡ s.zone))
  unfolding close_file
  close_file-stored rel s h =
      let (t, run, (keeps, same)) = finish_all-Keeps rel 0 s.zone_number s (omega (arith, h)) in
      (t, run, (Keeps-stored E keeps, same))
