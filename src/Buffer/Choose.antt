-- ===== src/Buffer/Choose.antt =====
-- What `evict_victim` chooses under `zalp_wc` without `wh_only`.
use zone_buffer.Base.{
  ℕ, ◌-◌, ◌≡◌, ◌<◌, ◌==◌, refl, ap, inl, inr, Bool-cases, true, false, List, [], ◌∷◌, ◌++◌,
  if◌then◌else◌, arith, count, count-append, length, Returns, ok,
}
use zone_buffer.Env.{Env}
use zone_buffer.Zalp
use zone_buffer.StdList.{values, size}
use zone_buffer.Zalp.View.{view, freed}
use zone_buffer.Zalp.Inv.{IsValid}
use zone_buffer.Zalp.Evict.{is_evict-WalksBack}
use zone_buffer.Zalp.Clean.{update_dirty-freed}
use zone_buffer.Zns.{add32}
use zone_buffer.Buffer.{Buffer}
use zone_buffer.Buffer.Evict.{hc_level, cluster_size, members, choose_victims, with_strategy}
use zone_buffer.Buffer.Ach.{count_evicted}
use zone_buffer.Buffer.Largest.{IsLargest, largest-IsLargest}

count-members :
    (cluster : ℕ → ℕ) (cf k : ℕ) (xs : List ℕ)
    → count k (members cluster cf xs) ≡ (if cluster k == cf then count k xs else 0)
unfolding members count
count-members cluster cf k [] = ground arith
count-members cluster cf k (x ∷ xs) = elim (Bool-cases (x == k)) [
  | inl same ↦
      let e : cluster x ≡ cluster k = ap cluster (ground (arith, same)) in
      ground (arith, same, e, count-members cluster cf k xs)
  | inr other ↦ ground (arith, other, count-members cluster cf k xs)
]

module _ (E : Env) where
  open E.params use {def_buf_size, work_reg_size, hc_lv}

  -- The victims `victims` of level `cf`, and the buffer after the choice.
  pub record IsChoice (b : Buffer E) (victims : List ℕ) (cf : ℕ) (c : Buffer E) : Type 0 where
    pub others : List ℕ
    pub candidates : List ℕ
    pub dirty : values b.strategy.d_list ≡ others ++ candidates
    pub many : length candidates ≡ def_buf_size - work_reg_size
    pub level :
        IsLargest (λ l. cluster_size (λ f. hc_level (b.cluster_flag f)) l candidates) hc_lv cf
    pub are :
        (k : ℕ)
        → count k victims ≡ (if hc_level (b.cluster_flag k) == cf then count k candidates else 0)
    pub counted : c.evict_count ≡ add32 b.evict_count (length victims)
    pub valid : IsValid E.maps def_buf_size [] c.strategy
    pub frees : view E.maps c.strategy ≡ freed victims (view E.maps b.strategy)

  -- Under `zalp_wc` without `wh_only`, with a positive number of levels, if the invariant of the
  -- policy holds, `is_evict` says yes and there are more than `def_buf_size - work_reg_size`
  -- dirty frames, `choose_victims` returns. Of the last so many dirty frames, the candidates, it
  -- takes those of one level, and no level has more candidates; it counts them, they leave the
  -- dirty ones and the LRU order and go behind the free ones, and the invariant holds.
  pub choose_victims-IsChoice :
      (b : Buffer E)
      → b.modes.zalp_wc ≡ true
      → b.modes.wh_only ≡ false
      → 0 < hc_lv
      → IsValid E.maps def_buf_size [] b.strategy
      → Zalp.is_evict E.maps E.params b.strategy ≡ ok true
      → def_buf_size - work_reg_size < size b.strategy.d_list
      → Returns (choose_victims E b) (λ (victims, cf, c). IsChoice b victims cf c)
  unfolding choose_victims
  choose_victims-IsChoice b zalp_wc all some_level valid evict more =
      elim (is_evict-WalksBack E.maps E.params b.strategy valid evict) [
        | inl (just, run) ↦ absurd (omega (arith, just, more))
        | inr (more', (others, candidates, run, split, len)) ↦
            let level = λ (f : ℕ). hc_level (b.cluster_flag f) in
            let (cf, picks, best) =
              largest-IsLargest (λ c. cluster_size level c candidates) hc_lv some_level in
            let victims = members level cf candidates in
            let are = λ (k : ℕ). count-members level cf k candidates in
            let (s, done, (valid', frees)) =
              update_dirty-freed E.maps def_buf_size victims b.strategy valid (λ k.
                ground (arith, are k, ap (count k) split, count-append k others candidates)) in
            (
              (victims, cf, count_evicted E (length victims) (with_strategy E b s)),
              rw (zalp_wc, all, run, picks, done) refl,
              record {
                others = others;
                candidates = candidates;
                dirty = split;
                many = len;
                level = best;
                are = are;
                counted = refl;
                valid = valid';
                frees = frees;
              },
            )
      ]
