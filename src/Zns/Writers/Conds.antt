-- ===== src/Zns/Writers/Conds.antt =====
-- What a thread does under the lock of a zone leaves the condition of every zone as it is.
use zone_buffer.Base.{
  ℕ, ◌+◌, ◌/◌, ◌≡◌, refl, ◌∙◌, ap, true, false, not, ◌&&◌, Bool, Bool-cases, inl, inr, ◌==◌, ==_iff,
  arith, Result, ok, fault, if◌then◌else◌, ◌>>=◌, or_fault, assert_failed, take,
}
use zone_buffer.Base.Int.{ℤ, inc_ℤ, dec_ℤ}
use zone_buffer.Env.{Env}
use zone_buffer.Zns.{
  Zns, ZoneDesc, Frame, zone_at, put_zone, put_meta, count_valid, get_valid, set_valid,
  set_valid_gc, get_page_addr, set_page_addr, pwrite,
}
use zone_buffer.Zns.Write.{advance, write_page_at, write_page_gc_at}
use zone_buffer.Zns.Writers.Forward.{
  Whenever, bind-Whenever, imp-Whenever, any-Whenever, zone_at-Whenever, Forward,
}

module _ (E : Env) where
  open E.params use {page_size, max_zone_num}

  -- The conditions of `t` are those of `s`.
  abbrev pub KeepsConds : Zns E → Zns E → Type 0
  KeepsConds s t = (j : ℕ) → (t.zone j).cond ≡ (s.zone j).cond

  pub KeepsConds-Forward : (s t : Zns E) → KeepsConds s t → Forward E s t
  KeepsConds-Forward s t k j = rw (k j) (omega arith)

  put-KeepsConds :
      (i : ℕ) (s : Zns E) (z : ZoneDesc E)
      → z.cond ≡ (s.zone i).cond
      → KeepsConds s (put_zone E i z s)
  put-KeepsConds i s z same j = elim (Bool-cases (i == j)) [
    | inl here ↦ rw here (same ∙ ap (λ (k : ℕ). (s.zone k).cond) ((==_iff i j).0 here))
    | inr other ↦ rw other refl
  ]

  advance-KeepsConds : (w n : ℕ) (s : Zns E) → Whenever (advance E w n s) (KeepsConds s)
  unfolding advance
  advance-KeepsConds w n s =
      bind-Whenever (zone_at E w s) _ _ _ (zone_at-Whenever E w s) λ z (same, below).
        put-KeepsConds w s (record z { wp = z.wp + n }) (ap (λ (y : ZoneDesc E). y.cond) same)

  count_valid-KeepsConds :
      (f : ℤ → ℤ) (addr : ℕ) (s : Zns E) → Whenever (count_valid E f addr s) (KeepsConds s)
  unfolding count_valid
  count_valid-KeepsConds f addr s =
      let i = addr / s.zone_size in
      bind-Whenever (zone_at E i s) _ _ _ (zone_at-Whenever E i s) λ z (same, below).
        put-KeepsConds i s (record z { valid_page = f z.valid_page })
          (ap (λ (y : ZoneDesc E). y.cond) same)

  -- The count of the zone, when a bit becomes `b`.
  abbrev recount : ℕ → Bool → Bool → Zns E → Result (Zns E)
  recount addr old b s =
      if not old && b
      then count_valid E inc_ℤ addr s
      else if old && not b
      then count_valid E dec_ℤ addr s
      else fault assert_failed

  recount-KeepsConds :
      (addr : ℕ) (old b : Bool) (s : Zns E) → Whenever (recount addr old b s) (KeepsConds s)
  recount-KeepsConds addr true true s = tt
  recount-KeepsConds addr false false s = tt
  recount-KeepsConds addr false true s = count_valid-KeepsConds inc_ℤ addr s
  recount-KeepsConds addr true false s = count_valid-KeepsConds dec_ℤ addr s

  set_valid-KeepsConds :
      (addr : ℕ) (b : Bool) (s : Zns E) → Whenever (set_valid E addr b s) (KeepsConds s)
  unfolding set_valid
  set_valid-KeepsConds addr b s =
      bind-Whenever (get_valid E addr s) _ _ _ (any-Whenever E _) λ old g.
        bind-Whenever (recount addr old b s) (λ t. ok (put_meta E addr b t)) (KeepsConds s)
          (KeepsConds s) (recount-KeepsConds addr old b s) λ t k. k

  set_valid_gc-KeepsConds :
      (addr : ℕ) (b : Bool) (s : Zns E) → Whenever (set_valid_gc E addr b s) (KeepsConds s)
  unfolding set_valid_gc
  set_valid_gc-KeepsConds addr b s =
      bind-Whenever (get_valid E addr s) _ _ _ (any-Whenever E _) λ old g.
        bind-Whenever (recount addr old b s) (λ t. ok (put_meta E addr b t)) (KeepsConds s)
          (KeepsConds s) (recount-KeepsConds addr old b s) λ t k. k

  pwrite-KeepsConds :
      (addr : ℕ) (bytes : Frame) (s : Zns E) → Whenever (pwrite E addr bytes s) (KeepsConds s)
  unfolding pwrite
  pwrite-KeepsConds addr bytes s =
      bind-Whenever (or_fault (E.device.pwrite addr bytes s.device) assert_failed) _ _ _
        (any-Whenever E _) λ d g j. refl

  -- The next call after one that keeps the conditions.
  then-KeepsConds :
      (s : Zns E) (r : Result (Zns E)) (f : Zns E → Result (Zns E))
      → Whenever r (KeepsConds s)
      → ((t : Zns E) → KeepsConds s t → Whenever (f t) (KeepsConds t))
      → Whenever (r >>= f) (KeepsConds s)
  then-KeepsConds s r f p h =
      bind-Whenever r f _ _ p λ t k. imp-Whenever (f t) _ _ (h t k) λ u l j. l j ∙ k j

  pub write_page_at-KeepsConds :
      (w id : ℕ) (frame : Frame) (s : Zns E)
      → Whenever (write_page_at E w id frame s) (KeepsConds s)
  unfolding write_page_at set_page_addr
  write_page_at-KeepsConds w id frame s =
      bind-Whenever (zone_at E w s) _ _ _ (any-Whenever E _) λ z h.
        bind-Whenever (get_page_addr E id s) _ _ _ (any-Whenever E _) λ old h.
          then-KeepsConds s (set_valid E old false s) _ (set_valid-KeepsConds old false s) λ t k.
            let u = set_page_addr E id z.wp t in
            then-KeepsConds u (pwrite E z.wp (take page_size frame) u) _
              (pwrite-KeepsConds z.wp (take page_size frame) u)
              λ v k.
                then-KeepsConds v (advance E w page_size v) _ (advance-KeepsConds w page_size v)
                  λ x k. bind-Whenever (get_page_addr E id x) _ _ _ (any-Whenever E _) λ new h.
                    bind-Whenever (set_valid E new true x) _ _ _ (set_valid-KeepsConds new true x)
                      λ y k. k

  pub write_page_gc_at-KeepsConds :
      (w id : ℕ) (frame : Frame) (s : Zns E)
      → Whenever (write_page_gc_at E w id frame s) (KeepsConds s)
  unfolding write_page_gc_at set_page_addr
  write_page_gc_at-KeepsConds w id frame s =
      bind-Whenever (zone_at E w s) _ _ _ (any-Whenever E _) λ z h.
        bind-Whenever (get_page_addr E id s) _ _ _ (any-Whenever E _) λ old h.
          then-KeepsConds s (set_valid_gc E old false s) _ (set_valid_gc-KeepsConds old false s)
            λ t k.
              then-KeepsConds t (pwrite E z.wp (take page_size frame) t) _
                (pwrite-KeepsConds z.wp (take page_size frame) t)
                λ v k.
                  let u = set_page_addr E id z.wp v in
                  bind-Whenever (get_page_addr E id u) _ _ _ (any-Whenever E _) λ new h.
                    then-KeepsConds u (set_valid_gc E new true u) _
                      (set_valid_gc-KeepsConds new true u)
                      λ x k.
                        bind-Whenever (advance E w page_size x) _ _ _
                          (advance-KeepsConds w page_size x) λ y k. k
