-- ===== src/Zns/Select.antt =====
-- `select_write_zone`: on a device that does not fail it returns an open zone with room, as long as
-- there is an empty zone to fall back on, and it touches neither pages nor table.
pub mod Cases
use zone_buffer.Base.{
  ℕ, zero, suc, ◌+◌, ◌*◌, ◌≡◌, ◌≢◌, ◌<◌, ◌≤◌, refl, ◌∙◌, ap, sym, inl, inr, ◌⊎◌, fault,
  assert_failed, Bool, true, false, ◌&&◌, Option, none, some, ◌==◌, leb, if◌then◌else◌, arith,
  Returns, Bool-cases, ==_iff, lt→ltb, leb→le, range_from,
}
use zone_buffer.Base.Int.{ℤ, negsuc, eqb_ℤ, rem_ℤ}
use zone_buffer.Env.{Env}
use zone_buffer.Zns.{
  Zns, ZoneDesc, Cond, empty, exp_open, full, is_open, is_empty, update, zone_at, finish_zone,
  open_zone,
}
use zone_buffer.Zns.Consistent.{IsConsistent}
use zone_buffer.Zns.Write.{
  scan_open, scan_empty, or_empty, select_write_zone, select_write_zone_ach, select,
}
use zone_buffer.Zns.Keeps.{
  IsReliable, Keeps, Keeps-refl, Keeps-trans, recond-Keeps, HasSpace, Fits, Spares,
}

module _ (E : Env) where
  open E.params use {page_size, max_zone_num}

  open_of : (c : Cond) → is_open c ≡ true → c ≡ exp_open
  open_of exp_open e = refl
  open_of empty e = cc
  open_of full e = cc

  empty_of : (c : Cond) → is_empty c ≡ true → c ≡ empty
  empty_of empty e = refl
  empty_of exp_open e = cc
  empty_of full e = cc

  not-mine :
      (s : Zns E) (i : ℕ)
      → (eqb_ℤ (s.zone i).cf (negsuc 0) && is_empty (s.zone i).cond) ≡ false
      → (s.zone i).cond ≡ empty
      → (s.zone i).cf ≡ negsuc 0
      → ⊥
  not-mine s i h e f = ground arith

  apart :
      (s : Zns E) (a i : ℕ)
      → (s.zone a).cond ≡ exp_open
      → (s.zone i).cond ≡ empty
      → (a == i) ≡ false
  apart s a i o e = elim (Bool-cases (a == i)) [
    | inl same ↦ absurd (clash (sym o ∙ ap (λ (j : ℕ). (s.zone j).cond) ((==_iff a i).0 same) ∙ e))
    | inr other ↦ other
  ]
    where
      clash : exp_open ≡ empty → ⊥
      clash e = cc

  -- No other zone than `w` has changed.
  abbrev Only : ℕ → Zns E → Zns E → Type 0
  Only w s t = (j : ℕ) → j ≢ w → t.zone j ≡ s.zone j

  -- The empty zones but `w` stay as they are.
  abbrev pub SparesBut : ℕ → Zns E → Zns E → Type 0
  SparesBut w s t = (j : ℕ) → j ≢ w → (s.zone j).cond ≡ empty → t.zone j ≡ s.zone j

  -- No zone is empty without a cluster.
  abbrev pub NoSpare : Zns E → Type 0
  NoSpare s = (j : ℕ) → j < max_zone_num → (s.zone j).cond ≡ empty → (s.zone j).cf ≢ negsuc 0

  module _ (rel : IsReliable E) (cf : ℤ) (n : ℕ) where
    finished-Keeps :
        (s : Zns E) (i : ℕ) (d : E.device.State)
        → E.device.finish_zones (s.zone i).ofst s.zone_size s.device ≡ some d
        → let z : ZoneDesc E = s.zone i in
          Keeps E s (record s { zone = update s.zone i (record z { cond = full }); device = d })
    finished-Keeps s i d e =
        recond-Keeps E s i full (s.zone i).cf s.zone_used d (λ f. cc) (λ f. refl)
          λ a. E.device.byte-finish_zones a (s.zone i).ofst s.zone_size s.device d e

    -- The first loop ends, and what it finds fits.
    scan_open-Keeps :
        (a k : ℕ) (s : Zns E)
        → a + k ≤ max_zone_num
        → Returns
            (scan_open E cf n (range_from a k) s)
            (λ r. Keeps E s r.1 × Fits E n r × Spares E s r.1)
    unfolding scan_open zone_at finish_zone
    scan_open-Keeps a zero s h = ((none, s), refl, (Keeps-refl E s, tt, λ i e. refl))
    scan_open-Keeps a (suc k) s h =
        let z : ZoneDesc E = s.zone a in
        let in_range = lt→ltb a max_zone_num (omega arith) in
        elim (Bool-cases (eqb_ℤ z.cf cf && is_open z.cond)) [
          | inr other ↦
              let (r, e, p) = scan_open-Keeps (suc a) k s (omega arith) in
              (r, rw (in_range, other) e, p)
          | inl mine ↦
              let opened : z.cond ≡ exp_open = open_of z.cond (ground arith) in
              elim (Bool-cases (leb (z.wp + n * page_size) (z.ofst + s.cap))) [
                | inl fits ↦ (
                  (some a, s),
                  rw (in_range, mine, fits),
                  (Keeps-refl E s, (omega arith, opened, leb→le _ _ fits), λ i e. refl),
                )
                | inr tight ↦
                    let (d, f) = rel.finishes z.ofst s.zone_size s.device in
                    let t : Zns E = record s {
                      zone = update s.zone a (record z { cond = full });
                      device = d;
                    } in
                    let (r, e, (keeps, fits, spares)) = scan_open-Keeps (suc a) k t (omega arith) in
                    (
                      r,
                      rw (in_range, mine, tight, f) e,
                      (
                        Keeps-trans E (finished-Keeps s a d f) keeps,
                        fits,
                        λ i e. let other = apart s a i opened e in spares i (rw other e) ∙ rw other,
                      ),
                    )
              ]
        ]

    not_full : {c : Cond} → c ≡ empty → c ≡ full → ⊥
    not_full e f = clash (sym e ∙ f)
      where
        clash : empty ≡ full → ⊥
        clash e = cc

    opened-Keeps :
        (s : Zns E) (i : ℕ) (d : E.device.State)
        → (s.zone i).cond ≡ empty
        → E.device.open_zones (s.zone i).ofst s.zone_size s.device ≡ some d
        → let z : ZoneDesc E = s.zone i in
          Keeps E s (record s {
            zone = update s.zone i (record z { cond = exp_open; cf = cf });
            zone_used = update s.zone_used i true;
            device = d;
          })
    opened-Keeps s i d unused e =
        recond-Keeps E s i exp_open cf (update s.zone_used i true) d (λ f. cc)
          (λ f. absurd (not_full unused f))
          λ a. E.device.byte-open_zones a (s.zone i).ofst s.zone_size s.device d e

    -- The second loop finds a zone, if there is an empty one without a cluster.
    scan_empty-Keeps :
        (a k : ℕ) (s : Zns E)
        → a + k ≤ max_zone_num
        → ((i : ℕ) → i < max_zone_num → (s.zone i).cond ≡ empty → (s.zone i).wp ≡ (s.zone i).ofst)
        → n * page_size ≤ s.cap
        → (i : ℕ) → a ≤ i
        → i < a + k
        → (s.zone i).cond ≡ empty
        → (s.zone i).cf ≡ negsuc 0
        → Returns
            (scan_empty E cf (range_from a k) s)
            (λ r. Keeps E s r.1 × HasSpace E n r.0 r.1 × Only r.0 s r.1)
    unfolding scan_empty zone_at open_zone
    scan_empty-Keeps a zero s h start big i lo hi e f = absurd (omega arith)
    scan_empty-Keeps a (suc k) s h start big i lo hi e f =
        let z : ZoneDesc E = s.zone a in
        let in_range = lt→ltb a max_zone_num (omega arith) in
        elim (Bool-cases (eqb_ℤ z.cf (negsuc 0) && is_empty z.cond)) [
          | inl mine ↦
              let (d, g) = rel.opens z.ofst s.zone_size s.device in
              let t : Zns E = record s {
                zone = update s.zone a (record z { cond = exp_open; cf = cf });
                zone_used = update s.zone_used a true;
                device = d;
              } in
              let unused : z.cond ≡ empty = empty_of z.cond (ground arith) in
              (
                (a, t),
                rw (in_range, mine, g),
                (
                  opened-Keeps s a d unused g,
                  (omega arith, ground arith, ground (arith, start a (omega arith) unused)),
                  λ j ne. ground (arith, ne),
                ),
              )
          | inr other ↦
              let ne : a ≢ i = λ same. not-mine s i (rw (← same) other) e f in
              let (r, q, p) =
                scan_empty-Keeps (suc a) k s (omega arith) start big i (omega arith) (omega arith) e
                  f in
              (r, rw (in_range, other) q, p)
        ]

  pointer-origin :
      {m : ℕ} {fill : ℕ → ℕ} {s : Zns E}
      → IsConsistent E m fill s
      → (i : ℕ) → i < max_zone_num
      → (s.zone i).cond ≡ empty
      → (s.zone i).wp ≡ (s.zone i).ofst
  pointer-origin {m} c i h e =
      omega (arith, c.pointer i h, c.origin i h, ap (λ (n : ℕ). n * page_size) (c.unused i h e))

  -- The choice after the first loop.
  or_empty-HasSpace :
      (rel : IsReliable E) (cf : ℤ) (n : ℕ) {m : ℕ} {fill : ℕ → ℕ} {s : Zns E}
      → IsConsistent E m fill s
      → n * page_size ≤ s.cap
      → (i : ℕ) → i < max_zone_num
      → (s.zone i).cond ≡ empty
      → (s.zone i).cf ≡ negsuc 0
      → (r : Option ℕ × Zns E) → Keeps E s r.1
      → Fits E n r
      → Spares E s r.1
      → Returns (or_empty E cf r) (λ q. Keeps E s q.1 × HasSpace E n q.0 q.1)
  unfolding or_empty
  or_empty-HasSpace rel cf n c big i hi e f (some w, t) keeps fits spares =
      ((w, t), refl, (keeps, fits))
  or_empty-HasSpace rel cf n {m} {fill} c big i hi e f (none, t) keeps fits spares =
      let same = spares i e in
      let start = λ (j : ℕ) (h : j < max_zone_num) (u : (t.zone j).cond ≡ empty).
        (keeps.zones j).0 ∙ pointer-origin c j h (keeps.unused j u) ∙ sym (keeps.zones j).1 in
      let (q, run, (keeps', space, _)) =
        scan_empty-Keeps rel cf n 0 max_zone_num t (omega arith) start (omega (arith, keeps.cap)) i
          (omega arith) (omega arith) (rw same e) (rw same f) in
      (q, run, (Keeps-trans E keeps keeps', space))

  select-covzs :
      (cf : ℤ) (n : ℕ) (s : Zns E) → s.covzs ≡ true → select E cf n s ≡ select_write_zone E cf n s
  unfolding select
  select-covzs cf n s e =
      ap (λ (b : Bool). if b then select_write_zone E cf n s else select_write_zone_ach E cf n s) e

  -- On a device whose writes, openings and finishings succeed, from a consistent state with an
  -- empty zone that belongs to no cluster, with `covzs` set, a positive number of clusters and
  -- zones that hold `n` pages, `select` returns an open zone with room for `n` pages, and keeps
  -- data, table, bitmap and write pointers.
  pub select-HasSpace :
      (rel : IsReliable E) (cf : ℤ) (n : ℕ) {m : ℕ} {fill : ℕ → ℕ} {s : Zns E}
      → IsConsistent E m fill s
      → s.covzs ≡ true
      → 0 < s.cluster_num
      → n * page_size ≤ s.cap
      → (i : ℕ) → i < max_zone_num
      → (s.zone i).cond ≡ empty
      → (s.zone i).cf ≡ negsuc 0
      → Returns (select E cf n s) (λ r. Keeps E s r.1 × HasSpace E n r.0 r.1)
  unfolding select_write_zone
  select-HasSpace rel cf n {s} c cov clusters big i hi e f =
      let cf' = rem_ℤ cf s.cluster_num in
      let (r, run, (keeps, fits, spares)) =
        scan_open-Keeps rel cf' n 0 max_zone_num s (omega arith) in
      let positive : (s.cluster_num == 0) ≡ false = ground arith in
      let (q, run', p) = or_empty-HasSpace rel cf' n c big i hi e f r keeps fits spares in
      (q, select-covzs cf n s cov ∙ rw (positive, run) run', p)
