-- ===== src/Zns/Spares.antt =====
-- The zones that are empty and belong to no cluster, which the choice of a zone can still open.
use zone_buffer.Base.{
  ℕ, zero, suc, ◌+◌, ◌≡◌, ◌≢◌, ◌<◌, ◌≤◌, refl, ap, Bool, true, false, ◌&&◌, ◌==◌, arith, inl, inr,
  Bool-cases,
}
use zone_buffer.Base.Int.{ℤ, negsuc, eqb_ℤ}
use zone_buffer.Env.{Env}
use zone_buffer.Zns.{Zns, ZoneDesc, Cond, empty, exp_open, full, is_empty}
use zone_buffer.Zns.Valid.{bits_in}
use zone_buffer.Zns.Select.{NoSpare}

pub bits_in-le :
    (f g : ℕ → Bool) (a n : ℕ)
    → ((i : ℕ) → a ≤ i → f i ≡ true → g i ≡ true)
    → bits_in f a n ≤ bits_in g a n
unfolding bits_in
bits_in-le f g a zero h = omega arith
bits_in-le f g a (suc n) h =
    ground (arith, h a, bits_in-le f g (suc a) n λ i lo e. h i (omega arith) e)

-- Without one of the bits at most one is lost.
bits_in-but :
    (f g : ℕ → Bool) (w a n : ℕ)
    → ((i : ℕ) → i ≢ w → f i ≡ true → g i ≡ true)
    → bits_in f a n ≤ suc (bits_in g a n)
unfolding bits_in
bits_in-but f g w a zero h = omega arith
bits_in-but f g w a (suc n) h = elim (Bool-cases (a == w)) [
  | inl here ↦ ground (arith, here, bits_in-le f g (suc a) n λ i lo e. h i (ground (arith, here)) e)
  | inr other ↦ ground (arith, other, h a, bits_in-but f g w (suc a) n h)
]

pub bits_in-same :
    (f g : ℕ → Bool) (a n : ℕ)
    → ((i : ℕ) → a ≤ i → i < a + n → f i ≡ g i)
    → bits_in f a n ≡ bits_in g a n
unfolding bits_in
bits_in-same f g a zero h = refl
bits_in-same f g a (suc n) h =
    ground (arith, h a, bits_in-same f g (suc a) n λ i lo hi. h i (omega arith) (omega arith))

bits_in-none :
    (f : ℕ → Bool) (a n : ℕ) → ((i : ℕ) → a ≤ i → i < a + n → f i ≡ false) → bits_in f a n ≡ 0
unfolding bits_in
bits_in-none f a zero h = refl
bits_in-none f a (suc n) h =
    ground (arith, h a, bits_in-none f (suc a) n λ i lo hi. h i (omega arith) (omega arith))

spare_parts :
    (c : Cond) (cf : ℤ) → (is_empty c && eqb_ℤ cf (negsuc 0)) ≡ true → (c ≡ empty) × (cf ≡ negsuc 0)
spare_parts empty cf e = (refl, ground (arith, e))
spare_parts exp_open cf e = cc
spare_parts full cf e = cc

module _ (E : Env) where
  open E.params use {max_zone_num}

  abbrev pub is_spare : Zns E → ℕ → Bool
  is_spare s i = is_empty (s.zone i).cond && eqb_ℤ (s.zone i).cf (negsuc 0)

  -- How many there are.
  abbrev pub spares : Zns E → ℕ
  spares s = bits_in (is_spare s) 0 max_zone_num

  -- The empty zones but `w` are still empty, and belong to whom they did.
  abbrev pub AlikeBut : ℕ → Zns E → Zns E → Type 0
  AlikeBut w s t =
      (j : ℕ)
      → j ≢ w
      → (s.zone j).cond ≡ empty
      → ((t.zone j).cond ≡ (s.zone j).cond) × ((t.zone j).cf ≡ (s.zone j).cf)

  still_spare :
      (w : ℕ) (s t : Zns E)
      → AlikeBut w s t
      → (j : ℕ) → j ≢ w
      → is_spare s j ≡ true
      → is_spare t j ≡ true
  still_spare w s t alike j ne e =
      let (bare, free) = spare_parts (s.zone j).cond (s.zone j).cf e in
      let (c, f) = alike j ne bare in rw (c, f) e

  pub spares-AlikeBut : (w : ℕ) (s t : Zns E) → AlikeBut w s t → spares s ≤ suc (spares t)
  spares-AlikeBut w s t alike =
      bits_in-but (is_spare s) (is_spare t) w 0 max_zone_num (still_spare w s t alike)

  pub NoSpare-spares : (s : Zns E) → NoSpare E s → spares s ≡ 0
  NoSpare-spares s taken = bits_in-none (is_spare s) 0 max_zone_num λ i lo hi.
      elim (Bool-cases (is_spare s i)) [
        | inr other ↦ other
        | inl spare ↦
            let (bare, free) = spare_parts (s.zone i).cond (s.zone i).cf spare in
            absurd (taken i (omega arith) bare free)
      ]

  pub spares-zones : (s t : Zns E) → t.zone ≡ s.zone → spares t ≡ spares s
  spares-zones s t e =
      ap
        (λ (z : ℕ → ZoneDesc E).
          bits_in (λ i. is_empty (z i).cond && eqb_ℤ (z i).cf (negsuc 0)) 0 max_zone_num)
        e
