-- ===== src/Tests/Flushes.antt =====
-- Frames 1 and 2 are evicted, both of page 7.
use zone_buffer.Base.{
  ℕ, zero, suc, ◌<◌, ◌>>=◌, count, ◌≡◌, ◌==◌, refl, [], ◌∷◌, some, none, ok, arith, Returns,
  if◌then◌else◌,
}
use zone_buffer.Base.Int.{pos, negsuc, ltb_ℤ, ◌-ℤ◌}
use zone_buffer.Zns.Valid.{bits_in}
use zone_buffer.Buffer.{Buffer}
use zone_buffer.Buffer
use zone_buffer.Buffer.Ach.{victims_of, flush_level, ach_cluster, sub_int}
use zone_buffer.Buffer.Rounds.{IsSteady, HaveOwnPages, AllStored, flush_level-AllStored}
use zone_buffer.Buffer.Evict.{flush_victims}
use zone_buffer.Buffer.Flush.{IsFlushed, flush_victims-IsFlushed}
use zone_buffer.Tests.{machine}
use zone_buffer.Tests.Controller.{reliable, ready}
use zone_buffer.Tests.Manager.{fresh}

abbrev leaving : Buffer machine
leaving = record fresh {
  buffer = λ f. 7 ∷ f ∷ [];
  frame_to_page = λ f. 7;
  access_h = λ p. if p == 7 then some (negsuc 0, pos 9) else none;
}

flush_victims-IsFlushed_example :
    Returns
      (flush_victims machine (1 ∷ 2 ∷ []) 1 leaving)
      (IsFlushed machine 4 1 (1 ∷ 2 ∷ []) leaving)
unfolding Buffer.init
flush_victims-IsFlushed_example =
    flush_victims-IsFlushed machine 4 reliable leaving ready 1 (1 ∷ 2 ∷ []) (refl, (refl, tt))
      ((0, refl), ((0, refl), tt)) (omega arith)

sorted : (cf : ℕ) → cf < 2 → victims_of machine cf (1 ∷ []) leaving ≡ ok (1 ∷ [])
unfolding victims_of ach_cluster sub_int ltb_ℤ ◌-ℤ◌
sorted zero h = refl
sorted (suc zero) h = refl
sorted (suc (suc cf)) h = absurd (omega (arith, h))

none_far : victims_of machine 2 (1 ∷ []) leaving ≡ ok []
unfolding victims_of ach_cluster sub_int ltb_ℤ ◌-ℤ◌
none_far = refl

steady : IsSteady machine 4 (1 ∷ []) leaving
unfolding Buffer.init
steady = record {
  fill = ready.fill;
  consistent = ready.consistent;
  covzs = refl;
  clusters = omega arith;
  fits = omega arith;
  whole = λ i mem. refl;
  known = λ i mem. (_, refl);
}

own_page : HaveOwnPages machine 4 (1 ∷ []) leaving
unfolding count
own_page i k mem other e = ground (arith, mem, other)

flush_level-AllStored_example :
    Returns
      (flush_level machine 0 (1 ∷ []) leaving >>= λ c.
        flush_level machine 1 (1 ∷ []) c >>= flush_level machine 2 (1 ∷ []))
      (AllStored machine 4 (1 ∷ []) leaving)
unfolding Buffer.init bits_in
flush_level-AllStored_example =
    flush_level-AllStored machine 4 reliable (1 ∷ []) (1 ∷ []) (1 ∷ []) [] leaving steady
      (omega arith) own_page (sorted 0 (omega arith)) (sorted 1 (omega arith)) none_far
