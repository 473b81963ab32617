-- ===== src/Zns/Writers/Unfilled.antt =====
-- How many zones are not full, and what a zone that becomes full makes of the number.
use zone_buffer.Base.{
  ℕ, zero, suc, ◌+◌, ◌≡◌, ◌<◌, ◌≤◌, refl, ◌∙◌, ap, true, false, not, Bool, Bool-cases, inl, inr,
  ◌==◌, ==_iff, arith,
}
use zone_buffer.Env.{Env}
use zone_buffer.Zns.{Zns, Cond, empty, exp_open, full, is_full, is_open}
use zone_buffer.Zns.Valid.{bits_in}
use zone_buffer.Zns.Spares.{bits_in-le}
use zone_buffer.Zns.Writers.Forward.{level, level-le, Forward}

-- Two tests of which one is true only where the other is, and not at `w`.
bits_in-lt :
    (f g : ℕ → Bool) (w a n : ℕ)
    → ((i : ℕ) → f i ≡ true → g i ≡ true)
    → f w ≡ false
    → g w ≡ true
    → a ≤ w
    → w < a + n
    → suc (bits_in f a n) ≤ bits_in g a n
unfolding bits_in
bits_in-lt f g w a zero h off on lo hi = omega (arith, lo, hi)
bits_in-lt f g w a (suc n) h off on lo hi = elim (Bool-cases (a == w)) [
  | inl here ↦
      let at : a ≡ w = (==_iff a w).0 here in
      let rest = bits_in-le f g (suc a) n λ i lo e. h i e in
      let off_a : f a ≡ false = ap f at ∙ off in
      let on_a : g a ≡ true = ap g at ∙ on in ground (arith, off_a, on_a, rest)
  | inr other ↦
      ground (arith, other, h a, bits_in-lt f g w (suc a) n h off on (ground arith) (omega arith))
]

full-level : (c : Cond) → not (is_full c) ≡ true → level c ≤ 1
full-level empty e = omega arith
full-level exp_open e = omega arith
full-level full e = cc

level-full : (c : Cond) → level c ≤ 1 → not (is_full c) ≡ true
level-full empty e = refl
level-full exp_open e = refl
level-full full e = absurd (omega (arith, e))

full-not : (c : Cond) → level c ≡ 2 → not (is_full c) ≡ false
full-not empty e = absurd (omega (arith, e))
full-not exp_open e = absurd (omega (arith, e))
full-not full e = refl

pub closed-level : (c : Cond) → 1 ≤ level c → is_open c ≡ false → level c ≡ 2
closed-level empty h e = absurd (omega (arith, h))
closed-level exp_open h e = cc
closed-level full h e = refl

module _ (E : Env) where
  open E.params use {page_size, max_zone_num}

  -- How many zones are not full.
  abbrev pub unfilled : Zns E → ℕ
  unfilled s = bits_in (λ j. not (is_full (s.zone j).cond)) 0 max_zone_num

  pub unfilled-le : (s t : Zns E) → Forward E s t → unfilled t ≤ unfilled s
  unfilled-le s t f =
      bits_in-le _ _ 0 max_zone_num
        λ j lo e. level-full (s.zone j).cond (omega (arith, f j, full-level (t.zone j).cond e))

  unfilled-lt :
      (s t : Zns E) (w : ℕ)
      → Forward E s t
      → w < max_zone_num
      → level (s.zone w).cond ≤ 1
      → level (t.zone w).cond ≡ 2
      → suc (unfilled t) ≤ unfilled s
  unfilled-lt s t w f below was now =
      bits_in-lt _ _ w 0 max_zone_num
        (λ j e. level-full (s.zone j).cond (omega (arith, f j, full-level (t.zone j).cond e)))
        (full-not (t.zone w).cond now) (level-full (s.zone w).cond was) (omega arith)
        (omega (arith, below))

  -- The zones that are not full and the level of `w` do not both grow.
  pub trade :
      (s t : Zns E) (w : ℕ)
      → Forward E s t
      → w < max_zone_num
      → 1 ≤ level (s.zone w).cond
      → unfilled t + level (t.zone w).cond ≤ unfilled s + level (s.zone w).cond
  trade s t w f below some_level =
      elim (Bool-cases (level (t.zone w).cond == level (s.zone w).cond)) [
        | inl same ↦ ground (arith, same, unfilled-le s t f)
        | inr other ↦
            let now : level (t.zone w).cond ≡ 2 =
              ground (arith, other, f w, some_level, level-le E (t.zone w).cond) in
            let was : level (s.zone w).cond ≤ 1 = ground (arith, other, f w, now) in
            omega (arith, unfilled-lt s t w f below was now, now, was, some_level)
      ]
