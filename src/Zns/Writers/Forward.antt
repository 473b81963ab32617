-- ===== src/Zns/Writers/Forward.antt =====
-- A zone goes from empty to open to full, and not back, unless it is reset.
use zone_buffer.Base.{
  ◌*◌, ==_iff, ℕ, ◌+◌, ◌≡◌, ◌<◌, ◌≤◌, refl, sym, subst, true, false, ◌&&◌, Bool, Bool-cases, inl,
  inr, List, [], ◌∷◌, Option, or_fault, assert_failed, none, some, ◌==◌, if◌then◌else◌, arith, leb,
  ltb, ltb→lt, Result, ok, fault, ◌>>=◌, range_from,
}
use zone_buffer.Base.Int.{ℤ, negsuc, eqb_ℤ, rem_ℤ}
use zone_buffer.Env.{Env}
use zone_buffer.Zns.{
  Zns, ZoneDesc, Cond, empty, exp_open, full, is_open, is_empty, zone_at, put_zone, finish_zone,
  open_zone,
}
use zone_buffer.Zns.Write.{
  scan_open, scan_empty, or_empty, select_write_zone, select, select_write_zone_ach,
}

-- What holds of the result, if there is one.
abbrev pub Whenever {ℓ} : {A : Type ℓ} → Result A → (A → Type 0) → Type 0
Whenever (fault e) P = Unit {0}
Whenever (ok a) P = P a

pub bind-Whenever {ℓ κ} :
    {A : Type ℓ} {B : Type κ} (r : Result A) (f : A → Result B) (P : A → Type 0) (Q : B → Type 0)
    → Whenever r P
    → ((a : A) → P a → Whenever (f a) Q)
    → Whenever (r >>= f) Q
bind-Whenever (fault e) f P Q p h = tt
bind-Whenever (ok a) f P Q p h = h a p

pub imp-Whenever {ℓ} :
    {A : Type ℓ} (r : Result A) (P Q : A → Type 0)
    → Whenever r P
    → ((a : A) → P a → Q a)
    → Whenever r Q
imp-Whenever (fault e) P Q p h = tt
imp-Whenever (ok a) P Q p h = h a p

pub if-Whenever {ℓ} :
    {A : Type ℓ} (b : Bool) (x y : Result A) (P : A → Type 0)
    → (b ≡ true → Whenever x P)
    → (b ≡ false → Whenever y P)
    → Whenever (if b then x else y) P
if-Whenever true x y P f g = f refl
if-Whenever false x y P f g = g refl

pub ok-Whenever {ℓ} :
    {A : Type ℓ} (r : Result A) (P : A → Type 0) (a : A) → Whenever r P → r ≡ ok a → P a
ok-Whenever r P a p e = subst (λ q. Whenever q P) e p

abbrev pub level : Cond → ℕ
level empty = 0
level exp_open = 1
level full = 2

level-open : (c : Cond) → is_open c ≡ true → level c ≡ 1
level-open exp_open e = refl
level-open empty e = cc
level-open full e = cc

level-empty : (c : Cond) → is_empty c ≡ true → level c ≡ 0
level-empty empty e = refl
level-empty exp_open e = cc
level-empty full e = cc

module _ (E : Env) where
  open E.params use {page_size, max_zone_num}

  abbrev pub Forward : Zns E → Zns E → Type 0
  Forward s t = (j : ℕ) → level (s.zone j).cond ≤ level (t.zone j).cond

  pub Forward-refl : (s : Zns E) → Forward s s
  Forward-refl s j = omega arith

  pub Forward-trans : (s t u : Zns E) → Forward s t → Forward t u → Forward s u
  Forward-trans s t u f g j = omega (arith, f j, g j)

  pub zone_at-Whenever :
      (i : ℕ) (s : Zns E) → Whenever (zone_at E i s) (λ z. (z ≡ s.zone i) × (i < max_zone_num))
  unfolding zone_at
  zone_at-Whenever i s = elim (Bool-cases (ltb i max_zone_num)) [
    | inl below ↦ rw below (refl, ltb→lt i max_zone_num below)
    | inr above ↦ rw above tt
  ]

  -- One zone gets a condition that comes after the one that it had.
  put-Forward :
      (i : ℕ) (s t : Zns E) (z : ZoneDesc E)
      → t.zone ≡ s.zone
      → level (s.zone i).cond ≤ level z.cond
      → Forward s (put_zone E i z t)
  put-Forward i s t z same h j = elim (Bool-cases (i == j)) [
    | inl here ↦
        let at : i ≡ j = ground (arith, here) in
        rw here (subst (λ k. level (s.zone k).cond ≤ level z.cond) at h)
    | inr other ↦ rw (other, same) (omega arith)
  ]

  pub any-Whenever : {A : Type 0} (r : Result A) → Whenever r (λ a. Unit {0})
  any-Whenever (fault e) = tt
  any-Whenever (ok a) = tt

  finish_zone-Whenever : (i : ℕ) (s : Zns E) → Whenever (finish_zone E i s) (λ t. t.zone ≡ s.zone)
  unfolding finish_zone
  finish_zone-Whenever i s = bind-Whenever (zone_at E i s) _ _ _ (any-Whenever _) λ z h.
      bind-Whenever (or_fault (E.device.finish_zones z.ofst s.zone_size s.device) assert_failed) _ _
        _ (any-Whenever _) λ d g. refl

  open_zone-Whenever : (i : ℕ) (s : Zns E) → Whenever (open_zone E i s) (λ t. t.zone ≡ s.zone)
  unfolding open_zone
  open_zone-Whenever i s = bind-Whenever (zone_at E i s) _ _ _ (any-Whenever _) λ z h.
      bind-Whenever (or_fault (E.device.open_zones z.ofst s.zone_size s.device) assert_failed) _ _ _
        (any-Whenever _) λ d g. refl

  opened : (z : ZoneDesc E) (cf : ℤ) → (eqb_ℤ z.cf cf && is_open z.cond) ≡ true → level z.cond ≡ 1
  opened z cf mine = level-open z.cond (ground (arith, mine))

  -- The zone that is found is open.
  abbrev pub Found : Zns E → Option ℕ → Type 0
  Found s none = Unit {0}
  Found s (some w) = (w < max_zone_num) × (level (s.zone w).cond ≡ 1)

  pub level-le : (c : Cond) → level c ≤ 2
  level-le empty = omega arith
  level-le exp_open = omega arith
  level-le full = omega arith

  scan_open-Whenever :
      (cf : ℤ) (n : ℕ) (is : List ℕ) (s : Zns E)
      → Whenever (scan_open E cf n is s) (λ r. Forward s r.1 × Found r.1 r.0)
  unfolding scan_open
  scan_open-Whenever cf n [] s = (Forward-refl s, tt)
  scan_open-Whenever cf n (i ∷ is) s =
      let rec = scan_open-Whenever cf n is in
      bind-Whenever (zone_at E i s) _ _ _ (zone_at-Whenever i s) λ z (same, below).
        let finished : ZoneDesc E = record z { cond = full } in
        if-Whenever (eqb_ℤ z.cf cf && is_open z.cond) _ _ _
          (λ mine.
            if-Whenever (leb (z.wp + n * page_size) (z.ofst + s.cap)) _ _ _
              (λ fits. (
                Forward-refl s,
                (below, subst (λ (y : ZoneDesc E). level y.cond ≡ 1) same (opened z cf mine)),
              ))
              λ over. bind-Whenever (finish_zone E i s) _ _ _ (finish_zone-Whenever i s) λ t kept.
                let u = put_zone E i finished t in
                imp-Whenever (scan_open E cf n is u) _ _ (rec u) λ r (on, found). (
                  Forward-trans s u r.1 (put-Forward i s t finished kept (level-le (s.zone i).cond))
                      on,
                  found,
                ))
          λ other. rec s

  scan_empty-Whenever :
      (cf : ℤ) (is : List ℕ) (s : Zns E)
      → Whenever (scan_empty E cf is s) (λ r. Forward s r.1 × Found r.1 (some r.0))
  unfolding scan_empty
  scan_empty-Whenever cf [] s = tt
  scan_empty-Whenever cf (i ∷ is) s =
      let rec = scan_empty-Whenever cf is in
      bind-Whenever (zone_at E i s) _ _ _ (zone_at-Whenever i s) λ z (same, below).
        let opened : ZoneDesc E = record z { cond = exp_open; cf = cf } in
        if-Whenever (eqb_ℤ z.cf (negsuc 0) && is_empty z.cond) _ _ _
          (λ mine. bind-Whenever (open_zone E i s) _ _ _ (open_zone-Whenever i s) λ t kept. (
            put-Forward i s t opened kept
                (rw (sym same, level-empty z.cond (ground (arith, mine))) (omega arith)),
            (below, rw ((==_iff i i).1 refl) refl),
          ))
          λ other. rec s

  or_empty-Whenever :
      (cf : ℤ) (o : Option ℕ) (s : Zns E)
      → Found s o
      → Whenever (or_empty E cf (o, s)) (λ r. Forward s r.1 × Found r.1 (some r.0))
  unfolding or_empty
  or_empty-Whenever cf none s h = scan_empty-Whenever cf (range_from 0 max_zone_num) s
  or_empty-Whenever cf (some i) s h = (Forward-refl s, h)

  select_write_zone-Whenever :
      (cf : ℤ) (n : ℕ) (s : Zns E)
      → Whenever (select_write_zone E cf n s) (λ r. Forward s r.1 × Found r.1 (some r.0))
  unfolding select_write_zone
  select_write_zone-Whenever cf n s =
      let c = rem_ℤ cf s.cluster_num in
      if-Whenever (s.cluster_num == 0) _ _ _ (λ e. tt)
        λ e.
          bind-Whenever (scan_open E c n (range_from 0 max_zone_num) s) _ _ _
            (scan_open-Whenever c n (range_from 0 max_zone_num) s)
            λ (o, t) (f, found).
              imp-Whenever (or_empty E c (o, t)) _ _ (or_empty-Whenever c o t found)
                λ r (g, at). (Forward-trans s t r.1 f g, at)

  -- The choice of a zone moves no zone back, and its zone is not empty.
  pub select-Whenever :
      (cf : ℤ) (n : ℕ) (s : Zns E)
      → Whenever (select E cf n s) (λ r. Forward s r.1 × Found r.1 (some r.0))
  unfolding select select_write_zone_ach
  select-Whenever cf n s =
      if-Whenever s.covzs _ _ _ (λ e. select_write_zone-Whenever cf n s) λ e. tt
