-- ===== src/Buffer/Levels.antt =====
-- The levels of `evict_victim_ach`: which of them a page belongs to.
use zone_buffer.Base.{ℕ, ◌+◌, ◌^◌, ◌≡◌, ◌<◌, refl, true, inl, inr, arith, ok, Bool-cases}
use zone_buffer.Base.Int.{pos, negsuc, ltb_ℤ, ◌-ℤ◌}
use zone_buffer.Env.{Env}
use zone_buffer.Buffer.Ach.{ach_cluster, sub_int, threshold}

pub sub_int-first : (t : ℕ) → t + 1 < 2 ^ 31 → sub_int (pos t) (negsuc 0) ≡ ok (pos (t + 1))
unfolding sub_int ◌-ℤ◌ ltb_ℤ
sub_int-first t h = ground arith

module _ (E : Env) where
  -- A page whose access before the last is -1 and whose last is below the greatest `int`, as at
  -- its first eviction, is in level 0 and in one of the two other levels too.
  pub ach_cluster-twice :
      (t : ℕ)
      → t + 1 < 2 ^ 31
      → (ach_cluster E 0 (negsuc 0, pos t) ≡ ok true)
        × ((c : ℕ) × (0 < c) × (c < 3) × (ach_cluster E c (negsuc 0, pos t) ≡ ok true))
  unfolding ach_cluster
  ach_cluster-twice t h = (
    refl,
    elim (Bool-cases (ltb_ℤ (pos (t + 1)) (threshold E))) [
      | inl near ↦ (1, omega arith, omega arith, rw (sub_int-first t h, near))
      | inr far ↦ (2, omega arith, omega arith, rw (sub_int-first t h, far))
    ],
  )
