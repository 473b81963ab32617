-- ===== src/Buffer/Ach.antt =====
-- src/zBuffer.cpp: `evict_victim_ach`, the eviction of the default policy, which sorts the
-- candidates by their last two evictions.
use zone_buffer.Base.{
  ℕ, zero, suc, ◌+◌, ◌-◌, ◌*◌, ◌%◌, ◌^◌, Bool, not, ◌&&◌, List, [], ◌∷◌, ◌++◌, Option, none, some,
  ◌==◌, ltb, if◌then◌else◌, Result, ok, fault, assert_failed, undefined, out_of_range, ◌>>=◌,
  or_fault, length, map,
}
use zone_buffer.Base.Int.{ℤ, pos, negsuc, eqb_ℤ, ltb_ℤ, ◌-ℤ◌, int_of_unsigned}
use zone_buffer.Env.{Env}
use zone_buffer.Zalp
use zone_buffer.Zns.{Zns, Frame, add32, update}
use zone_buffer.Zns.Gc.{Job, cd_detect, garbage_collection_detect}
use zone_buffer.Zns.Write.{write_cluster}
use zone_buffer.Buffer.{Buffer, Modes, get_page_id, unset_dirty, clock}

-- The tries of a write. The zone that is chosen is open, so one is enough.
abbrev pub tries : ℕ
tries = 1

-- The difference of two numbers of type `int`, which is not defined where it overflows.
unfoldable pub sub_int : ℤ → ℤ → Result ℤ
sub_int a b =
    let d = a -ℤ b in
    if ltb_ℤ d (pos (2 ^ 31)) && not (ltb_ℤ d (negsuc (2 ^ 31 - 1))) then ok d else fault undefined

module _ (E : Env) where
  open E.params use {def_buf_size, work_reg_size}

  abbrev pub threshold : ℤ
  threshold = pos (16 * (def_buf_size - work_reg_size))

  -- `ach_clutser`
  unfoldable pub ach_cluster : ℕ → ℤ × ℤ → Result Bool
  ach_cluster zero acht = ok (eqb_ℤ acht.0 (negsuc 0))
  ach_cluster (suc zero) acht = do d ← sub_int acht.1 acht.0; ok (ltb_ℤ d threshold)
  ach_cluster (suc (suc zero)) acht = do d ← sub_int acht.1 acht.0; ok (not (ltb_ℤ d threshold))
  ach_cluster _ acht = fault assert_failed

  -- The new access times of a page: the last eviction before, and this one.
  abbrev pub next_access : Option (ℤ × ℤ) → ℤ → ℤ × ℤ
  next_access none now = (negsuc 0, now)
  next_access (some (first, second)) now = (second, now)

  abbrev pub access : ℕ → Buffer E → Buffer E
  access page_id b = record b {
    access_h = elim (E.maps.find page_id b.access_h) [
      | none ↦ E.maps.insert page_id (next_access none (int_of_unsigned (clock E b))) b.access_h
      | some p ↦
          E.maps.insert_or_assign page_id (next_access (some p) (int_of_unsigned (clock E b)))
            b.access_h
    ];
  }

  -- The first loop over the candidates.
  unfoldable pub access_all : List ℕ → Buffer E → Buffer E
  access_all [] b = b
  access_all (iter ∷ candidates) b = access_all candidates (access (get_page_id E iter b) b)

  -- The candidates of level `cf`, in their order.
  unfoldable pub victims_of : ℕ → List ℕ → Buffer E → Result (List ℕ)
  victims_of cf [] b = ok []
  victims_of cf (iter ∷ candidates) b = do
    acht ← or_fault (E.maps.find (get_page_id E iter b) b.access_h) out_of_range
    hit ← ach_cluster cf acht
    victims ← victims_of cf candidates b
    ok (if hit then iter ∷ victims else victims)

  -- The frames one after the other, each of them `FRAME_SIZE` bytes.
  abbrev pub gather : List ℕ → Buffer E → Frame
  gather [] b = []
  gather (iter ∷ victims) b = b.buffer iter ++ gather victims b

  abbrev pub add_flush : ℕ → ℕ → Buffer E → Buffer E
  add_flush cf n b = record b { flush_count = update b.flush_count cf (b.flush_count cf + n) }

  -- One round of the loop over the three levels.
  unfoldable pub flush_level : ℕ → List ℕ → Buffer E → Result (Buffer E)
  flush_level cf candidates b = do
    victims ← victims_of cf candidates b
    z ←
        write_cluster E tries (pos cf) (gather victims b) (map (λ i. get_page_id E i b) victims)
          b.zdsm
    ok (add_flush cf (length victims) (record b { zdsm = z }))

  -- The loop over the candidates after they have been written.
  unfoldable pub forget : List ℕ → Buffer E → Buffer E
  forget [] b = b
  forget (iter ∷ victims) b = forget victims (
      unset_dirty E iter
        (record b { page2frame = E.maps.erase (get_page_id E iter b) b.page2frame }))

  abbrev pub add_jobs : Zns E × List Job → Buffer E → Buffer E
  add_jobs (z, jobs) b = record b { zdsm = z; jobs = b.jobs ++ jobs }

  abbrev pub report_writes : Buffer E → Buffer E
  report_writes b =
      let z : Zns E = b.zdsm in record b { zdsm = record z { buffer_write_count = clock E b } }

  -- The part on cold data: `cd_count % cd_interval` with no interval is a division by zero.
  unfoldable pub detect_cold : Buffer E → Result (Buffer E)
  detect_cold b =
      let modes : Modes E = b.modes in
      if not (modes.cd_detect && ltb b.cd_interval b.cd_count)
      then ok b
      else if b.cd_interval == 0
      then fault undefined
      else (do
        let c : Buffer E = report_writes (record b { cd_count = b.cd_count % b.cd_interval })
        found ← cd_detect E c.zdsm
        ok (add_jobs found c))

  unfoldable pub detect_garbage : Buffer E → Result (Buffer E)
  detect_garbage b = do
    let c : Buffer E = report_writes b
    found ← garbage_collection_detect E c.zdsm
    ok (add_jobs found c)

  abbrev pub count_evicted : ℕ → Buffer E → Buffer E
  count_evicted n b = record b { evict_count = add32 b.evict_count n; cd_count = b.cd_count + n }

  unfoldable pub evict_victim_ach : Buffer E → Result (Buffer E)
  evict_victim_ach b = do
    candidates ← Zalp.get_candidate E.maps E.params b.strategy
    b ← flush_level 0 candidates (access_all candidates b)
    b ← flush_level 1 candidates b
    b ← flush_level 2 candidates b
    b ← detect_cold (forget candidates (count_evicted (length candidates) b))
    s ← Zalp.dirty_to_clean E.maps candidates b.strategy
    detect_garbage (record b { strategy = s })
