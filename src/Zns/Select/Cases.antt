-- ===== src/Zns/Select/Cases.antt =====
-- The choice of a zone without an empty zone to fall back on: it returns one, or there is none.
use zone_buffer.Base.{
  ℕ, zero, suc, ◌+◌, ◌*◌, ◌≡◌, ◌≢◌, ◌<◌, ◌≤◌, refl, ◌∙◌, sym, inl, inr, ◌⊎◌, fault, assert_failed,
  true, false, ◌&&◌, Option, none, some, ◌==◌, arith, Returns, Bool-cases, lt→ltb, range_from,
}
use zone_buffer.Base.Int.{ℤ, negsuc, eqb_ℤ, rem_ℤ}
use zone_buffer.Env.{Env}
use zone_buffer.Zns.{Zns, ZoneDesc, empty, is_empty, zone_at}
use zone_buffer.Zns.Consistent.{IsConsistent}
use zone_buffer.Zns.Write.{scan_empty, or_empty, select_write_zone, select}
use zone_buffer.Zns.Keeps.{IsReliable, Keeps, Keeps-trans, HasSpace, Fits, Spares}
use zone_buffer.Zns.Select.{
  NoSpare, SparesBut, not-mine, empty_of, scan_open-Keeps, scan_empty-Keeps, pointer-origin,
  select-covzs,
}

module _ (E : Env) where
  open E.params use {page_size, max_zone_num}

  -- Either some zone of the range is empty and belongs to no cluster, or the second loop fails.
  spare_cases :
      (cf : ℤ) (a k : ℕ) (s : Zns E)
      → a + k ≤ max_zone_num
      → ((i : ℕ) × (a ≤ i) × (i < a + k) × ((s.zone i).cond ≡ empty) × ((s.zone i).cf ≡ negsuc 0))
        ⊎ (scan_empty E cf (range_from a k) s ≡ fault assert_failed)
          × ((j : ℕ) → a ≤ j → j < a + k → (s.zone j).cond ≡ empty → (s.zone j).cf ≢ negsuc 0)
  unfolding scan_empty zone_at
  spare_cases cf a zero s h = inr (refl, λ j lo hi. absurd (omega arith))
  spare_cases cf a (suc k) s h =
      let z : ZoneDesc E = s.zone a in
      let in_range = lt→ltb a max_zone_num (omega arith) in
      elim (Bool-cases (eqb_ℤ z.cf (negsuc 0) && is_empty z.cond)) [
        | inl mine ↦
            inl
              (a, omega arith, omega arith, empty_of E z.cond (ground arith), ground (arith, mine))
        | inr other ↦ elim (spare_cases cf (suc a) k s (omega arith)) [
          | inl (i, lo, hi, e, f) ↦ inl (i, omega arith, omega arith, e, f)
          | inr (fails, taken) ↦ inr (
            rw (in_range, other) fails,
            λ j lo hi e f. elim (Bool-cases (a == j)) [
              | inl here ↦
                  let at : a ≡ j = ground (arith, here) in not-mine E s j (rw (← at) other) e f
              | inr ne ↦ taken j (ground (arith, ne)) (omega arith) e f
            ],
          )
        ]
      ]

  or_empty_cases :
      (rel : IsReliable E) (cf : ℤ) (n : ℕ) {m : ℕ} {fill : ℕ → ℕ} {s : Zns E}
      → IsConsistent E m fill s
      → n * page_size ≤ s.cap
      → (r : Option ℕ × Zns E) → Keeps E s r.1
      → Fits E n r
      → Spares E s r.1
      → Returns
          (or_empty E cf r)
          (λ q. Keeps E s q.1 × HasSpace E n q.0 q.1 × SparesBut E q.0 s q.1)
        ⊎ (or_empty E cf r ≡ fault assert_failed) × NoSpare E s
  unfolding or_empty
  or_empty_cases rel cf n c big (some w, t) keeps fits spares =
      inl ((w, t), refl, (keeps, fits, λ j ne e. spares j e))
  or_empty_cases rel cf n {m} {fill} c big (none, t) keeps fits spares =
      let start = λ (j : ℕ) (h : j < max_zone_num) (u : (t.zone j).cond ≡ empty).
        (keeps.zones j).0 ∙ pointer-origin E c j h (keeps.unused j u) ∙ sym (keeps.zones j).1 in
      elim (spare_cases cf 0 max_zone_num t (omega arith)) [
        | inl (i, lo, hi, e, f) ↦
            let (q, run, (keeps', space, only)) =
              scan_empty-Keeps E rel cf n 0 max_zone_num t (omega arith) start
                (omega (arith, big, keeps.cap)) i lo hi e f in
            inl (q, run, (Keeps-trans E keeps keeps', space, λ j ne e. only j ne ∙ spares j e))
        | inr (fails, taken) ↦ inr (
          fails,
          λ j h e f.
              let same = spares j e in taken j (omega arith) (omega arith) (rw same e) (rw same f),
        )
      ]

  abbrev pub Chooses : ℤ → ℕ → Zns E → Type 0
  Chooses cf n s =
      Returns (select E cf n s) (λ r. Keeps E s r.1 × HasSpace E n r.0 r.1 × SparesBut E r.0 s r.1)
      ⊎ (select E cf n s ≡ fault assert_failed) × NoSpare E s

  -- Without the assumption of an empty zone: the choice returns a zone, or its assertion
  -- fails and there is no such zone.
  pub select_cases :
      (rel : IsReliable E) (cf : ℤ) (n : ℕ) {m : ℕ} {fill : ℕ → ℕ} {s : Zns E}
      → IsConsistent E m fill s
      → s.covzs ≡ true
      → 0 < s.cluster_num
      → n * page_size ≤ s.cap
      → Chooses cf n s
  unfolding select_write_zone
  select_cases rel cf n {s} c cov clusters big =
      let cf' = rem_ℤ cf s.cluster_num in
      let (r, run, (keeps, fits, spares)) =
        scan_open-Keeps E rel cf' n 0 max_zone_num s (omega arith) in
      let positive : (s.cluster_num == 0) ≡ false = ground arith in
      elim (or_empty_cases rel cf' n c big r keeps fits spares) [
        | inl (q, found, p) ↦ inl (q, select-covzs E cf n s cov ∙ rw (positive, run) found, p)
        | inr (fails, taken) ↦ inr (select-covzs E cf n s cov ∙ rw (positive, run) fails, taken)
      ]
