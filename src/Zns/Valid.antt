-- ===== src/Zns/Valid.antt =====
-- The bitmap `meta_page` and the counters `valid_page` of the zones. Pages are numbered by their
-- address over `page_size`, and zone `i` has the `m` pages from `i * m` on.
use native.Mathlib.Nat.{
  mul-div_cancel, mul-div-mul_right, div-lt_iff_lt-mul, le-div_iff_mul-le, mod-lt, div-add-mod',
}
use zone_buffer.Base.{
  ℕ, zero, suc, ◌+◌, ◌*◌, ◌/◌, ◌≡◌, ◌≢◌, ◌<◌, ◌≤◌, refl, ◌∙◌, ap, sym, Bool, true, false, not, ◌==◌,
  ltb, if◌then◌else◌, ok, fault, assert_failed, arith, Bool-cases, inl, inr, ◌⊎◌, lt→ltb, ltb→lt,
  ==_iff,
}
use zone_buffer.Base.Int.{ℤ, pos, inc_ℤ, dec_ℤ}
use zone_buffer.Env.{Env}
use zone_buffer.Zns.{Zns, ZoneDesc, update, zone_at, get_valid, count_valid, set_valid}

-- How many of the `n` bits from `a` on are set.
unfoldable pub bits_in : (ℕ → Bool) → ℕ → ℕ → ℕ
bits_in f a zero = 0
bits_in f a (suc n) = (if f a then 1 else 0) + bits_in f (suc a) n

abbrev pub to_nat : Bool → ℕ
to_nat true = 1
to_nat false = 0

pub bits_in-above :
    (f : ℕ → Bool) (k : ℕ) (b : Bool) (a n : ℕ)
    → a + n ≤ k
    → bits_in (update f k b) a n ≡ bits_in f a n
unfolding bits_in
bits_in-above f k b a zero h = refl
bits_in-above f k b a (suc n) h = ground (arith, bits_in-above f k b (suc a) n)

pub bits_in-below :
    (f : ℕ → Bool) (k : ℕ) (b : Bool) (a n : ℕ) → k < a → bits_in (update f k b) a n ≡ bits_in f a n
unfolding bits_in
bits_in-below f k b a zero h = refl
bits_in-below f k b a (suc n) h = ground (arith, bits_in-below f k b (suc a) n)

pub bits_in-inside :
    (f : ℕ → Bool) (k : ℕ) (b : Bool) (a n : ℕ)
    → a ≤ k
    → k < a + n
    → bits_in (update f k b) a n + to_nat (f k) ≡ bits_in f a n + to_nat b
unfolding bits_in
bits_in-inside f k b a zero h h' = absurd (omega arith)
bits_in-inside f k b a (suc n) h h' =
    ground (arith, bits_in-inside f k b (suc a) n, bits_in-below f k b (suc a) n)

pub div_ne : (k m i : ℕ) → 0 < m → k / m ≢ i → (k < i * m) ⊎ (i * m + m ≤ k)
div_ne k m i h ne = elim (Bool-cases (ltb (k / m) i)) [
  | inl lo ↦ inl ((div-lt_iff_lt-mul {x = k} {y = i} h).0 (ltb→lt (k / m) i lo))
  | inr hi ↦ inr (
      let next : suc i ≤ k / m = ground arith in
      omega (arith, (le-div_iff_mul-le {x = suc i} {y = k} h).0 next))
]

module _ (E : Env) (m : ℕ) where
  open E.params use {page_size, max_zone_num}

  -- The sizes fit: `m` pages make a zone, and the bitmap has a bit for each page.
  pub record HasGeometry (s : Zns E) : Type 0 where
    pub page_pos : 0 < page_size
    pub pages_pos : 0 < m
    pub zone_pages : s.zone_size ≡ m * page_size
    pub bitmap : max_zone_num * m ≤ s.block_per_zone * s.zone_number

  -- Each counter is the number of the set bits of its zone.
  abbrev pub IsCounted : Zns E → Type 0
  IsCounted s =
      (i : ℕ) → i < max_zone_num → (s.zone i).valid_page ≡ pos (bits_in s.meta_page (i * m) m)

  abbrev pub counted_by : Bool → ℤ → ℤ
  counted_by b n = if b then inc_ℤ n else dec_ℤ n

  -- The state after the bit of page `k` has been set to `b`.
  abbrev pub marked : ℕ → Bool → Zns E → Zns E
  marked k b s =
      let z : ZoneDesc E = s.zone (k / m) in
      record s {
        zone = update s.zone (k / m) (record z { valid_page = counted_by b z.valid_page });
        meta_page = update s.meta_page k b;
      }

  module _ {s : Zns E} (g : HasGeometry s) (k : ℕ) where
    pub page_of : k * page_size / page_size ≡ k
    page_of = mul-div_cancel k g.page_pos

    pub zone_of : k * page_size / s.zone_size ≡ k / m
    zone_of = rw g.zone_pages (mul-div-mul_right k m g.page_pos)

    bit-lt : k / m < max_zone_num → k < s.block_per_zone * s.zone_number
    bit-lt h =
        omega (arith, (div-lt_iff_lt-mul {x = k} {y = max_zone_num} g.pages_pos).0 h, g.bitmap)

    pub get_valid-meta_page :
        k / m < max_zone_num → get_valid E (k * page_size) s ≡ ok (s.meta_page k)
    unfolding get_valid
    get_valid-meta_page h = rw (page_of, lt→ltb k _ (bit-lt h))

    count_valid_lem :
        (f : ℤ → ℤ)
        → k / m < max_zone_num
        → let z : ZoneDesc E = s.zone (k / m) in
          count_valid E f (k * page_size) s
          ≡ ok
              (record s { zone = update s.zone (k / m) (record z { valid_page = f z.valid_page }) })
    unfolding count_valid zone_at
    count_valid_lem f h = rw (zone_of, lt→ltb (k / m) max_zone_num h)

    -- If the sizes fit, `set_valid` on the page of a zone whose bit is to change returns: the
    -- bit is changed, and counted in the zone of the page.
    pub set_valid-marked :
        (b : Bool)
        → k / m < max_zone_num
        → s.meta_page k ≡ not b
        → set_valid E (k * page_size) b s ≡ ok (marked k b s)
    unfolding set_valid
    set_valid-marked true h e = rw (get_valid-meta_page h, e, count_valid_lem inc_ℤ h, page_of)
    set_valid-marked false h e = rw (get_valid-meta_page h, e, count_valid_lem dec_ℤ h, page_of)

    pub set_valid-fault :
        (b : Bool)
        → k / m < max_zone_num
        → s.meta_page k ≡ b
        → set_valid E (k * page_size) b s ≡ fault assert_failed
    unfolding set_valid
    set_valid-fault true h e = rw (get_valid-meta_page h, e)
    set_valid-fault false h e = rw (get_valid-meta_page h, e)

    marked-here :
        (b : Bool)
        → s.meta_page k ≡ not b
        → IsCounted s
        → k / m < max_zone_num
        → (counted_by b (s.zone (k / m)).valid_page)
          ≡ pos (bits_in (update s.meta_page k b) (k / m * m) m)
    marked-here b e c h = ground (
      arith,
      c (k / m) h,
      bits_in-inside s.meta_page k b (k / m * m) m,
      div-add-mod' k m,
      mod-lt k g.pages_pos,
    )

    outside :
        (i : ℕ) (b : Bool)
        → k / m ≢ i
        → bits_in (update s.meta_page k b) (i * m) m ≡ bits_in s.meta_page (i * m) m
    outside i b ne = elim (div_ne k m i g.pages_pos ne) [
      | inl below ↦ bits_in-below s.meta_page k b (i * m) m below
      | inr above ↦ bits_in-above s.meta_page k b (i * m) m above
    ]

    -- If the sizes fit and each counter is the number of the set bits of its zone, they still
    -- are after a bit that is to change is changed and counted in the zone of its page.
    pub marked-IsCounted :
        (b : Bool)
        → k / m < max_zone_num
        → s.meta_page k ≡ not b
        → IsCounted s
        → IsCounted (marked k b s)
    marked-IsCounted b h e c i hi = elim (Bool-cases (k / m == i)) [
      | inl same ↦ rw same (rw (← (==_iff (k / m) i).0 same) (marked-here b e c h))
      | inr other ↦ rw other (c i hi ∙ ap pos (sym (outside i b (ground arith))))
    ]
