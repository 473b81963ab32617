-- ===== src/Zns/Vacate.antt =====
-- The loop of a recycling over the pages of a zone, after which none of them is in use.
use native.Mathlib.Nat.{div-lt_iff_lt-mul, le-div_iff_mul-le, div-add-mod'}
use zone_buffer.Base.{
  ℕ, zero, suc, ◌+◌, ◌-◌, ◌*◌, ◌/◌, ◌%◌, ◌≡◌, ◌<◌, ◌≤◌, refl, ◌∙◌, ap, sym, subst, Bool, inl, inr,
  ◌⊎◌, true, false, List, ◌==◌, if◌then◌else◌, arith, fault, assert_failed, Returns, Bool-cases,
  map, range_from,
}
use zone_buffer.Base.Int.{ℤ}
use zone_buffer.Env.{Env}
use zone_buffer.Zns.{Zns, full}
use zone_buffer.Zns.Keeps.{IsReliable, IsReadable, Keeps-refl}
use zone_buffer.Zns.Valid.{bits_in}
use zone_buffer.Zns.Spares.{spares, bits_in-same}
use zone_buffer.Zns.Rewrite.{Leaves}
use zone_buffer.Zns.Move.{
  IsSound, SameStore, Keeps-SameStore, SameStore-trans, IsCount, move_page-Vacates,
}
use zone_buffer.Zns.Gc.{move_pages, positions}

if_false : (b c : Bool) → c ≡ false → (if b then false else c) ≡ false
if_false true c e = refl
if_false false c e = e

short_now : {x : ℕ} (y : ℕ) (b : Bool) → b ≡ true → x ≡ 0 → x < (if b then 1 else 0) + y
short_now y b set e = ground (arith, set, e)

short_later :
    {x y z z' : ℕ} (b : Bool)
    → x ≤ (if b then 1 else 0) + y
    → y < z
    → z ≡ z'
    → x < (if b then 1 else 0) + z'
short_later b h h' e = ground (arith, h, h', e)

module _ (E : Env) (m : ℕ) where
  open E.params use {page_size, max_zone_num}

  -- The pages from `a` on, `n` of them, are out of use, and the full zones are still full.
  pub record Vacated (i a n : ℕ) (s t : Zns E) : Type 0 where
    pub same : SameStore E m s t
    pub closed : (j : ℕ) → (s.zone j).cond ≡ full → (t.zone j).cond ≡ full
    pub gone : (l : ℕ) → a ≤ l → l < a + n → t.meta_page l ≡ false
    pub stays : (l : ℕ) → l / m ≡ i → s.meta_page l ≡ false → t.meta_page l ≡ false

  abbrev pub numbered : ℕ → ℕ → List ℕ
  numbered a n = map (λ l. l * page_size) (range_from a n)

  module _ (rel : IsReliable E) (readable : IsReadable E) (tries : ℕ) (cf_of : Zns E → ℤ)
      (note : Zns E → Zns E) (count : IsCount E m note) (i : ℕ) (in_range : i < max_zone_num) where
    next-Vacated :
        (a n : ℕ) (s t u : Zns E)
        → a / m ≡ i
        → (s.zone i).cond ≡ full
        → SameStore E m s t
        → Leaves E m a s t
        → Vacated i (suc a) n t u
        → Vacated i a (suc n) s u
    next-Vacated a n s t u at shut same leaves v =
        let after : (l : ℕ)
            → l / m ≡ i
            → t.meta_page l ≡ (if a == l then false else s.meta_page l) =
          λ l e. leaves.bits l (subst (λ (j : ℕ). (s.zone j).cond ≡ full) (sym e) shut) in
        record {
          same = SameStore-trans E m same v.same;
          closed = λ j e. v.closed j (leaves.closed j e);
          gone = λ l lo hi. elim (Bool-cases (a == l)) [
            | inl here ↦
                let e : a ≡ l = ground (arith, here) in
                let there : l / m ≡ i = ap (λ (x : ℕ). x / m) (sym e) ∙ at in
                v.stays l there (after l there ∙ rw here refl)
            | inr other ↦ v.gone l (ground (arith, other)) (omega arith)
          ];
          stays = λ l h unset. v.stays l h (after l h ∙ if_false (a == l) (s.meta_page l) unset);
        }

    pub move_pages-Vacated :
        (a n : ℕ) (s : Zns E)
        → ((l : ℕ) → a ≤ l → l < a + n → l / m ≡ i)
        → IsSound E m s
        → (s.zone i).cond ≡ full
        → Returns (move_pages E (suc tries) cf_of note (numbered a n) s) (Vacated i a n s)
          ⊎ (move_pages E (suc tries) cf_of note (numbered a n) s ≡ fault assert_failed)
            × (spares E s < bits_in s.meta_page a n)
    unfolding move_pages bits_in
    move_pages-Vacated a zero s h sound shut = inl (
      s,
      refl,
      record {
        same = Keeps-SameStore E m sound (Keeps-refl E s);
        closed = λ j e. e;
        gone = λ l lo hi. absurd (omega arith);
        stays = λ l at unset. unset;
      },
    )
    move_pages-Vacated a (suc n) s h sound shut =
        let at : a / m ≡ i = h a (omega arith) (omega arith) in
        elim (move_page-Vacates E m rel readable tries cf_of note count a s (rw at in_range)
          sound) [
            | inr (fails, none_left, set) ↦ inr (
              rw fails refl,
              short_now (bits_in s.meta_page (suc a) n) (s.meta_page a) set none_left,
            )
            | inl (t, run, (same, leaves, spent)) ↦
                elim (move_pages-Vacated (suc a) n t (λ l lo hi. h l (omega arith) (omega arith))
                  same.sound (leaves.closed i shut)) [
                    | inr (fails, short) ↦
                        let rest : bits_in t.meta_page (suc a) n ≡ bits_in s.meta_page (suc a) n =
                          bits_in-same t.meta_page s.meta_page (suc a) n λ l lo hi.
                            let there : l / m ≡ i = h l (omega arith) (omega arith) in
                            let apart : (a == l) ≡ false = ground arith in
                            leaves.bits l
                              (subst (λ (j : ℕ). (s.zone j).cond ≡ full) (sym there) shut)
                            ∙ rw apart refl in
                        inr (rw (run, fails) refl, short_later (s.meta_page a) spent short rest)
                    | inl (u, done, v) ↦
                        inl (u, rw (run, done) refl, next-Vacated a n s t u at shut same leaves v)
                  ]
          ]

  -- The addresses of the loop are those of the pages from the first of the zone on.
  positions_from :
      (b a n : ℕ) → map (λ j. b * page_size + j * page_size) (range_from a n) ≡ numbered (b + a) n
  positions_from b a zero = refl
  positions_from b a (suc n) =
      let first : b * page_size + a * page_size ≡ (b + a) * page_size = grind arith in
      let next : b + suc a ≡ suc (b + a) = omega arith in
      rw (first, positions_from b (suc a) n, next) refl

  -- The number of pages that the loop visits.
  abbrev pub visits : ℕ → ℕ
  visits cap = (cap + page_size - 1) / page_size

  visits-le : (cap : ℕ) → 0 < page_size → cap ≤ m * page_size → visits cap ≤ m
  visits-le cap p h =
      let below : cap + page_size - 1 < suc m * page_size = grind arith in
      let less : visits cap < suc m =
        (div-lt_iff_lt-mul {x = cap + page_size - 1} {y = suc m} p).1 below in
      omega (arith, less)

  le-visits : (f cap : ℕ) → 0 < page_size → f * page_size ≤ cap → f ≤ visits cap
  le-visits f cap p h =
      (le-div_iff_mul-le {x = f} {y = cap + page_size - 1} p).1 (omega (arith, h, p))

  pub positions-numbered :
      (i cap : ℕ) → positions E (i * m * page_size) cap ≡ numbered (i * m) (visits cap)
  unfolding positions
  positions-numbered i cap =
      let e : i * m + 0 ≡ i * m = omega arith in
      positions_from (i * m) 0 (visits cap) ∙ ap (λ (x : ℕ). numbered x (visits cap)) e

  pub in_zone :
      (i cap l : ℕ)
      → 0 < m
      → 0 < page_size
      → cap ≤ m * page_size
      → i * m ≤ l
      → l < i * m + visits cap
      → l / m ≡ i
  in_zone i cap l m_pos p h lo hi =
      let below : l < suc i * m = omega (arith, visits-le cap p h, hi) in
      let up : l / m < suc i = (div-lt_iff_lt-mul {x = l} {y = suc i} m_pos).1 below in
      let down : i ≤ l / m = (le-div_iff_mul-le {x = i} {y = l} m_pos).1 lo in
      omega (arith, up, down)

  -- No page of the zone is in use after the loop.
  pub zone_unused :
      (i : ℕ) (s t : Zns E)
      → i < max_zone_num
      → Vacated i (i * m) (visits s.cap) s t
      → (l : ℕ) → l / m ≡ i
      → t.meta_page l ≡ false
  zone_unused i s t h v l at = elim (Bool-cases (t.meta_page l)) [
    | inr unset ↦ unset
    | inl set ↦
        let c = v.same.sound.consistent in
        let (_, below) = c.mapping.written l set in
        let f = v.same.sound.fill in
        let few : f i ≤ visits s.cap =
          le-visits (f i) s.cap c.geometry.page_pos (omega (arith, c.within i h, v.same.setup.0)) in
        let here : l % m < f i = subst (λ (j : ℕ). l % m < f j) at below in
        let parts : i * m + l % m ≡ l =
          subst (λ (j : ℕ). j * m + l % m ≡ l) at (div-add-mod' l m) in
        v.gone l (omega (arith, parts)) (omega (arith, parts, here, few))
  ]
