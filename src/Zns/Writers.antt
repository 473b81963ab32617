-- ===== src/Zns/Writers.antt =====
-- src/zController.cpp: `write_page` and the moves of a collection by several threads at once. A call
-- of `write_page` has two steps: the choice of a zone, and what it does under the lock of the zone,
-- which begins with the test whether the zone is still open. A collection reads a page in one step
-- and writes it by `write_page_gc`, which has the same two; one thread moves one page. Zones are not
-- reset.
use zone_buffer.Base.{ℕ, suc, ◌+◌, ◌*◌, ◌<◌, ◌≡◌, Bool, true, false, ok}
use zone_buffer.Base.Int.{ℤ}
use zone_buffer.Env.{Env}
use zone_buffer.Zns.{add32, Zns, Frame, is_open, update, get_valid, pread, read_id, full}
use zone_buffer.Zns.Write.{select, write_page_at, write_page_gc_at, inc_write_count}
pub mod Forward
pub mod Conds
pub mod Unfilled
pub mod Waits
pub mod Alone
pub mod Lost

-- Where a thread is: before the choice of a zone, after it, with a page that it has read, with that
-- page and a zone for it, or at the end. With the page goes the cluster of the zone that it came from.
pub data Pc : Type 0 where
  idle done : Pc
  chosen : ℕ → Pc
  carries : ℤ → Frame → Pc
  moves : ℤ → Frame → ℕ → Pc

-- The arguments of a thread's call.
pub record Call : Type 0 where
  pub cf : ℤ
  pub page_id : ℕ
  pub frame : Frame

module _ (E : Env) where
  open E.params use {page_size, max_zone_num}

  -- The loop of `garbage_collection` at the position `addr` of a full zone that is marked for it: the
  -- page is in use, `buf` is what the read gives, and `cf` is the cluster of the zone.
  pub record Collects (addr : ℕ) (s : Zns E) (cf : ℤ) (buf : Frame) : Type 0 where
    pub id : ℕ
    pub id-lt : id < max_zone_num
    pub shut : (s.zone id).cond ≡ full
    pub marked : (s.zone id).in_gc ≡ true
    pub place : ℕ
    pub position : addr ≡ (s.zone id).ofst + place * page_size
    pub position-lt : addr < (s.zone id).ofst + s.cap
    pub used : get_valid E addr s ≡ ok true
    pub has : pread E page_size addr s ≡ ok buf
    pub cluster : cf ≡ (s.zone id).cf

  -- `gc_valid_count++` and `write_count++`
  abbrev pub count_move : Zns E → Zns E
  count_move s = inc_write_count E 1 (record s { gc_valid_count = add32 s.gc_valid_count 1 })

  -- `taken` counts the steps of each thread.
  pub record System : Type 0 where
    pub zdsm : Zns E
    pub pc : ℕ → Pc
    pub taken : ℕ → ℕ

  -- Thread `i` takes a step.
  abbrev pub turn : ℕ → Pc → Zns E → System → System
  turn i p t s = record {
    zdsm = t;
    pc = update s.pc i p;
    taken = update s.taken i (suc (s.taken i));
  }

  pub data Step (calls : ℕ → Call) (s : System) : System → Type 0 where
    choose :
        (i w : ℕ) (t : Zns E)
        → s.pc i ≡ idle
        → select E (calls i).cf 1 s.zdsm ≡ ok (w, t)
        → Step calls s (turn i (chosen w) t s)
    -- The zone was closed after the choice: `write_page` calls itself.
    again :
        (i w : ℕ)
        → s.pc i ≡ chosen w
        → is_open (s.zdsm.zone w).cond ≡ false
        → Step calls s (turn i idle s.zdsm s)
    commit :
        (i w : ℕ) (t : Zns E)
        → s.pc i ≡ chosen w
        → is_open (s.zdsm.zone w).cond ≡ true
        → write_page_at E w (calls i).page_id (calls i).frame s.zdsm ≡ ok t
        → Step calls s (turn i done t s)
    -- The collection of a zone reads one of its pages,
    fetch :
        (i addr : ℕ) (cf : ℤ) (buf : Frame)
        → s.pc i ≡ idle
        → Collects addr s.zdsm cf buf
        → Step calls s (turn i (carries cf buf) (count_move s.zdsm) s)
    -- and writes it, under the id that stands in it.
    choose_gc :
        (i w : ℕ) (cf : ℤ) (buf : Frame) (t : Zns E)
        → s.pc i ≡ carries cf buf
        → select E cf 1 s.zdsm ≡ ok (w, t)
        → Step calls s (turn i (moves cf buf w) t s)
    again_gc :
        (i w : ℕ) (cf : ℤ) (buf : Frame)
        → s.pc i ≡ moves cf buf w
        → is_open (s.zdsm.zone w).cond ≡ false
        → Step calls s (turn i (carries cf buf) s.zdsm s)
    commit_gc :
        (i w : ℕ) (cf : ℤ) (buf : Frame) (t : Zns E)
        → s.pc i ≡ moves cf buf w
        → is_open (s.zdsm.zone w).cond ≡ true
        → write_page_gc_at E w (read_id buf) buf s.zdsm ≡ ok t
        → Step calls s (turn i done t s)

  pub data Reach (calls : ℕ → Call) (s : System) : System → Type 0 where
    start : Reach calls s s
    later : {t u : System} → Reach calls s t → Step calls t u → Reach calls s u
