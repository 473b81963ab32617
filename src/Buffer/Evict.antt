-- ===== src/Buffer/Evict.antt =====
-- src/zBuffer.cpp: `evict_victim`, the eviction of the other policies, and `select_victim` of the
-- plain LRU one.
use zone_buffer.Base.{
  assert_failed, ℕ, zero, suc, ◌+◌, ◌-◌, ◌/◌, not, List, [], ◌∷◌, ◌==◌, ltb, if◌then◌else◌, Result,
  ok, fault, undefined, ◌>>=◌, length, map, get_or,
}
use zone_buffer.Base.Int.{pos}
use zone_buffer.Env.{Env}
use zone_buffer.Lru
use zone_buffer.Zalp
use zone_buffer.Zns.{Zns}
use zone_buffer.Zns.Write.{write_page, write_cluster}
use zone_buffer.Buffer.{Buffer, Modes, get_page_id}
use zone_buffer.Buffer.Ach.{
  tries, gather, add_flush, forget, detect_cold, detect_garbage, count_evicted,
}

abbrev pub hot : ℕ
hot = 2

-- `HC_Lv`: cold, warm or hot.
unfoldable pub hc_level : ℕ → ℕ
hc_level zero = 0
hc_level (suc zero) = 1
hc_level (suc (suc n)) = hot

-- `dirty_cluster[c]` after the loop that counts: how many candidates have cluster `c`.
unfoldable pub cluster_size : (ℕ → ℕ) → ℕ → List ℕ → ℕ
cluster_size cluster c [] = 0
cluster_size cluster c (iter ∷ candidates) =
    (if cluster iter == c then 1 else 0) + cluster_size cluster c candidates

-- The loop `cf = cfnum > dirty_cluster[i] ? cf : i; cfnum = …`, from cluster `i` on for `n` more.
unfoldable pub largest_from : (ℕ → ℕ) → ℕ → ℕ → ℕ → ℕ → ℕ
largest_from size i zero cf cfnum = cf
largest_from size i (suc n) cf cfnum =
    largest_from size (suc i) n (if ltb (size i) cfnum then cf else i)
      (if ltb (size i) cfnum then cfnum else size i)

-- The loop starts at -1, which is below every size, so the first cluster is taken. Without a cluster
-- `cf` stays -1, and the assertion after the loop fails.
unfoldable pub largest : (ℕ → ℕ) → ℕ → Result ℕ
largest size zero = fault assert_failed
largest size (suc n) = ok (largest_from size 1 n 0 (size 0))

unfoldable pub members : (ℕ → ℕ) → ℕ → List ℕ → List ℕ
members cluster cf [] = []
members cluster cf (iter ∷ candidates) =
    let rest = members cluster cf candidates in if cluster iter == cf then iter ∷ rest else rest

module _ (E : Env) where
  open E.params use {def_buf_size, work_reg_size, hc_lv}

  abbrev pub with_strategy : Buffer E → Zalp.Zalp E.maps → Buffer E
  with_strategy b s = record b { strategy = s }

  -- `zalp_wc` with `wh_only`: the hot cluster, unless it is small.
  abbrev pub hot_or_largest : (ℕ → ℕ) → List ℕ → Result ℕ
  hot_or_largest cluster candidates =
      let size = λ (c : ℕ). cluster_size cluster c candidates in
      if ltb (size hot) ((def_buf_size - work_reg_size) / 4) then largest size hc_lv else ok hot

  -- The victims, their cluster, and the buffer with its lists updated, for each policy.
  unfoldable pub choose_victims : Buffer E → Result (List ℕ × ℕ × Buffer E)
  choose_victims b =
      let modes : Modes E = b.modes in
      let level = λ (iter : ℕ). hc_level (b.cluster_flag iter) in
      if modes.zalp_wc
      then (if modes.wh_only
          then (do
            candidates ← Zalp.get_candidate E.maps E.params b.strategy
            cf ← hot_or_largest level candidates
            let victims = members level cf candidates
            s ← Zalp.dirty_to_clean E.maps victims b.strategy
            ok (victims, cf, count_evicted E (length victims) (with_strategy b s)))
          else (do
            candidates ← Zalp.get_candidate E.maps E.params b.strategy
            cf ← largest (λ c. cluster_size level c candidates) hc_lv
            let victims = members level cf candidates
            s ← Zalp.update_dirty E.maps victims b.strategy
            ok (victims, cf, count_evicted E (length victims) (with_strategy b s))))
      else if modes.zalp
      then (do
        candidates ← Zalp.get_candidate E.maps E.params b.strategy
        let z : Zns E = b.zdsm
        cf ← largest (λ c. cluster_size b.cluster_flag c candidates) z.cluster_num
        let victims = members b.cluster_flag cf candidates
        s ← Zalp.dirty_to_clean E.maps victims b.strategy
        ok (victims, cf, count_evicted E (length victims) (with_strategy b s)))
      else if modes.cflru
      then (do
        victims ← Zalp.get_candidate_cflru E.maps b.strategy
        s ← Zalp.update_dirty E.maps victims b.strategy
        ok (victims, 0, count_evicted E 1 (with_strategy b s)))
      else fault undefined

  -- One victim is written by `write_page`, any other number by `write_cluster`.
  unfoldable pub flush_victims : List ℕ → ℕ → Buffer E → Result (Buffer E)
  flush_victims victims cf b = do
    let pages = map (λ i. get_page_id E i b) victims
    z ←
        (if length victims == 1
          then write_page E tries (pos cf) (get_or pages 0 0) (gather E victims b) b.zdsm
          else write_cluster E tries (pos cf) (gather E victims b) pages b.zdsm)
    ok (add_flush E cf (length victims) (record b { zdsm = z }))

  -- With no policy set, `cf` is read without having been written.
  unfoldable pub evict_victim : Buffer E → Result (Buffer E)
  evict_victim b = do
    (victims, cf, b) ← choose_victims b
    b ← flush_victims victims cf b
    b ← detect_cold E (forget E victims b)
    detect_garbage E b

  -- The first part of `select_victim`: a dirty frame is written.
  unfoldable pub flush_frame : ℕ → Buffer E → Result (Buffer E)
  flush_frame frame_id b = if not (b.frame_dirty frame_id) then ok b else (do
    z ← write_page E tries (pos 0) (get_page_id E frame_id b) (b.buffer frame_id) b.zdsm
    detect_garbage E (add_flush E 0 1 (record b { zdsm = z })))

  unfoldable pub select_victim : Buffer E → Result (ℕ × Buffer E)
  select_victim b = do
    (frame_id, l) ← Lru.get_victim b.lrus
    c ← flush_frame frame_id (record b { lrus = l })
    ok (frame_id, record c { page2frame = E.maps.erase (get_page_id E frame_id c) c.page2frame })
