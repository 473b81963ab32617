-- ===== src/Zns/Cluster/Spend.antt =====
-- `write_cluster` takes at most one of the zones that can still be opened.
use zone_buffer.Base.{
  ℕ, suc, ◌*◌, ◌≡◌, ◌<◌, ◌≤◌, refl, sym, subst, true, List, arith, Returns, length, lt→ltb, inl,
  inr,
}
use zone_buffer.Base.Int.{ℤ}
use zone_buffer.Env.{Env}
use zone_buffer.Zns.{Zns, Frame, zone_at, inc_io_count}
use zone_buffer.Zns.Consistent.{IsConsistent}
use zone_buffer.Zns.Keeps.{IsReliable, Keeps-IsConsistent}
use zone_buffer.Zns.Select.Cases.{select_cases}
use zone_buffer.Zns.Spares.{spares, NoSpare-spares}
use zone_buffer.Zns.Write.{write_cluster}
use zone_buffer.Zns.Cluster.Place.{Known}
use zone_buffer.Zns.Cluster.Run.{StoresAll, chosen-StoresAll}

module _ (E : Env) (m : ℕ) where
  open E.params use {page_size, max_zone_num, write_batch}

  pub write_cluster-spares :
      (rel : IsReliable E) (fill : ℕ → ℕ) (s : Zns E)
      → IsConsistent E m fill s
      → s.covzs ≡ true
      → 0 < s.cluster_num
      → 1 ≤ spares E s
      → (tries : ℕ) (cf : ℤ) (ids : List ℕ) (buffer : Frame) → length ids * page_size ≤ s.cap
      → Known E 0 ids (λ i. E.maps.find i s.table)
      → length buffer ≡ length ids * page_size
      → Returns
          (write_cluster E (suc tries) cf buffer ids s)
          (λ t. StoresAll E m ids buffer s t × (spares E s ≤ suc (spares E t)))
  unfolding write_cluster zone_at
  write_cluster-spares rel fill s consistent cov clusters some_spare tries cf ids buffer big known
        whole =
      elim (select_cases E rel cf (length ids) consistent cov clusters big) [
        | inr (fails, taken) ↦ absurd (omega (arith, some_spare, NoSpare-spares E s taken))
        | inl ((w, t), run, (keeps, space, but)) ↦
            let c = Keeps-IsConsistent E keeps consistent in
            let known' =
              subst (λ f. Known E 0 ids (λ i. E.maps.find i f)) (sym keeps.table) known in
            let (u, v, placed, wrote, all, spent) =
              chosen-StoresAll E m rel fill w ids buffer s t keeps c space known' whole in
            (
              inc_io_count E v,
              rw (run, lt→ltb w max_zone_num space.0, space.1, placed, wrote) refl,
              (all, spent but),
            )
      ]
