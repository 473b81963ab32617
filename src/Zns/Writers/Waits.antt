-- ===== src/Zns/Writers/Waits.antt =====
-- A bound on the steps that a thread takes, whatever the others do: each time that it tries again,
-- a zone has become full in the meantime.
use zone_buffer.Base.{
  ℕ, suc, ◌+◌, ◌*◌, ◌≡◌, ◌<◌, ◌≤◌, refl, ap, subst, Bool-cases, inl, inr, ◌==◌, ==_iff, arith, ok,
  Result, Fault, fault, ◌⊎◌, ◌>>=◌, Result-cases,
}
use zone_buffer.Base.Int.{ℤ}
use zone_buffer.Env.{Env}
use zone_buffer.Zns.{Zns, is_open, read_id}
use zone_buffer.Zns.Write.{select, write_page_at, write_page_gc_at}
use zone_buffer.Zns.Writers.{
  Pc, idle, done, chosen, carries, moves, count_move, Call, System, turn, Step, choose, again,
  commit, fetch, choose_gc, again_gc, commit_gc, Reach, start, later,
}
use zone_buffer.Zns.Writers.Forward.{ok-Whenever, level, Forward, Forward-refl, select-Whenever}
use zone_buffer.Zns.Writers.Conds.{
  KeepsConds-Forward, write_page_at-KeepsConds, write_page_gc_at-KeepsConds,
}
use zone_buffer.Zns.Writers.Unfilled.{closed-level, unfilled, unfilled-le, trade}

module _ (E : Env) where
  open E.params use {max_zone_num}

  -- The steps that a thread has left at most, and what is known of its zone.
  abbrev pub left : Zns E → Pc → ℕ
  left s idle = 2 * unfilled E s + 4
  left s done = 0
  left s (chosen w) = 2 * unfilled E s + 2 * level (s.zone w).cond + 1
  left s (carries cf buf) = 2 * unfilled E s + 3
  left s (moves cf buf w) = 2 * unfilled E s + 2 * level (s.zone w).cond

  abbrev pub Holds : Zns E → Pc → Type 0
  Holds s idle = Unit {0}
  Holds s done = Unit {0}
  Holds s (chosen w) = (w < max_zone_num) × (1 ≤ level (s.zone w).cond)
  Holds s (carries cf buf) = Unit {0}
  Holds s (moves cf buf w) = (w < max_zone_num) × (1 ≤ level (s.zone w).cond)

  left-Forward : (s t : Zns E) (p : Pc) → Forward E s t → Holds s p → left t p ≤ left s p
  left-Forward s t idle f h = omega (arith, unfilled-le E s t f)
  left-Forward s t done f h = omega arith
  left-Forward s t (chosen w) f h = omega (arith, trade E s t w f h.0 h.1)
  left-Forward s t (carries cf buf) f h = omega (arith, unfilled-le E s t f)
  left-Forward s t (moves cf buf w) f h = omega (arith, trade E s t w f h.0 h.1)

  Holds-Forward : (s t : Zns E) (p : Pc) → Forward E s t → Holds s p → Holds t p
  Holds-Forward s t idle f h = tt
  Holds-Forward s t done f h = tt
  Holds-Forward s t (chosen w) f h = (h.0, omega (arith, f w, h.1))
  Holds-Forward s t (carries cf buf) f h = tt
  Holds-Forward s t (moves cf buf w) f h = (h.0, omega (arith, f w, h.1))

  -- What holds of a thread along the steps: those that it has taken and has left are bounded.
  pub record Within (bound : ℕ) (s : System E) (i : ℕ) : Type 0 where
    pub steps : s.taken i + left s.zdsm (s.pc i) ≤ bound
    pub holds : Holds s.zdsm (s.pc i)

  -- A step of thread `k` that leaves it less.
  turn-Within :
      (bound k : ℕ) (p : Pc) (t : Zns E) (s : System E)
      → Forward E s.zdsm t
      → suc (left t p) ≤ left s.zdsm (s.pc k)
      → Holds t p
      → (i : ℕ) → Within bound s i
      → Within bound (turn E k p t s) i
  turn-Within bound k p t s f less h i b = elim (Bool-cases (k == i)) [
    | inl here ↦
        let at : k ≡ i = (==_iff k i).0 here in
        let less_i = subst (λ j. suc (left t p) ≤ left s.zdsm (s.pc j)) at less in
        let same = ap s.taken at in
        record { steps = rw here (omega (arith, less_i, b.steps, same)); holds = rw here h }
    | inr other ↦ record {
      steps = rw other (omega (arith, b.steps, left-Forward s.zdsm t (s.pc i) f b.holds));
      holds = rw other (Holds-Forward s.zdsm t (s.pc i) f b.holds);
    }
  ]

  module _ (calls : ℕ → Call) where
    select-at :
        (cf : ℤ) (w : ℕ) (s t : Zns E)
        → select E cf 1 s ≡ ok (w, t)
        → Forward E s t × (w < max_zone_num) × (level (t.zone w).cond ≡ 1)
    select-at cf w s t e =
        let (f, (b, l)) = ok-Whenever (select E cf 1 s) _ (w, t) (select-Whenever E cf 1 s) e in
        (f, b, l)

    Step-Within :
        (bound : ℕ) (s u : System E)
        → Step E calls s u
        → ((i : ℕ) → Within bound s i)
        → (i : ℕ) → Within bound u i
    Step-Within bound s _ (choose k w t at run) all i =
        let (f, below, lvl) = select-at (calls k).cf w s.zdsm t run in
        turn-Within bound k (chosen w) t s f (rw at (omega (arith, lvl, unfilled-le E s.zdsm t f)))
          (below, omega (arith, lvl)) i (all i)
    Step-Within bound s _ (again k w at closed) all i =
        let held = subst (Holds s.zdsm) at (all k).holds in
        let over = closed-level (s.zdsm.zone w).cond held.1 closed in
        turn-Within bound k idle s.zdsm s (Forward-refl E s.zdsm) (rw at (omega (arith, over))) tt i
          (all i)
    Step-Within bound s _ (commit k w t at opened run) all i =
        let keeps = write_page_at-KeepsConds E w (calls k).page_id (calls k).frame s.zdsm in
        turn-Within bound k done t s (KeepsConds-Forward E s.zdsm t (ok-Whenever _ _ t keeps run))
          (rw at (omega arith)) tt i (all i)
    Step-Within bound s _ (fetch k addr cf buf at valid) all i =
        turn-Within bound k (carries cf buf) (count_move E s.zdsm) s (Forward-refl E s.zdsm)
          (rw at (omega arith)) tt i (all i)
    Step-Within bound s _ (choose_gc k w cf buf t at run) all i =
        let (f, below, lvl) = select-at cf w s.zdsm t run in
        turn-Within bound k (moves cf buf w) t s f
          (rw at (omega (arith, lvl, unfilled-le E s.zdsm t f))) (below, omega (arith, lvl)) i
          (all i)
    Step-Within bound s _ (again_gc k w cf buf at closed) all i =
        let held = subst (Holds s.zdsm) at (all k).holds in
        let over = closed-level (s.zdsm.zone w).cond held.1 closed in
        turn-Within bound k (carries cf buf) s.zdsm s (Forward-refl E s.zdsm)
          (rw at (omega (arith, over))) tt i (all i)
    Step-Within bound s _ (commit_gc k w cf buf t at opened run) all i =
        let held = subst (Holds s.zdsm) at (all k).holds in
        let keeps = write_page_gc_at-KeepsConds E w (read_id buf) buf s.zdsm in
        turn-Within bound k done t s (KeepsConds-Forward E s.zdsm t (ok-Whenever _ _ t keeps run))
          (rw at (omega (arith, held.1))) tt i (all i)

    Reach-Within :
        (bound : ℕ) (s u : System E)
        → Reach E calls s u
        → ((i : ℕ) → Within bound s i)
        → (i : ℕ) → Within bound u i
    Reach-Within bound s _ start all i = all i
    Reach-Within bound s u (later {t} before step) all i =
        Step-Within bound t u step (λ j. Reach-Within bound s t before all j) i

    -- What thread `i` calls next, if it does not read a page or begin again.
    abbrev next_call : ℕ → Pc → Zns E → Result (Zns E)
    next_call i idle s = select E (calls i).cf 1 s >>= λ r. ok r.1
    next_call i done s = ok s
    next_call i (chosen w) s = write_page_at E w (calls i).page_id (calls i).frame s
    next_call i (carries cf buf) s = select E cf 1 s >>= λ r. ok r.1
    next_call i (moves cf buf w) s = write_page_gc_at E w (read_id buf) buf s

    -- A thread can take a step.
    abbrev pub CanStep : System E → ℕ → Type 0
    CanStep s i = (u : System E) × Step E calls s u × (u.taken i ≡ suc (s.taken i))

    -- What a thread calls next faults.
    abbrev pub Faults : System E → ℕ → Type 0
    Faults s i = (e : Fault) × (next_call i (s.pc i) s.zdsm ≡ fault e)

    Goes : System E → ℕ → Type 0
    Goes s i = (s.pc i ≡ done) ⊎ (CanStep s i ⊎ Faults s i)

    goes : (s : System E) (i : ℕ) (p : Pc) → s.pc i ≡ p → Goes s i
    unfolding Goes
    goes s i idle at = elim (Result-cases (select E (calls i).cf 1 s.zdsm)) [
      | inl ((w, t), run) ↦
          inr (inl (turn E i (chosen w) t s, choose i w t at run, rw ((==_iff i i).1 refl) refl))
      | inr (e, run) ↦ inr (inr (e, rw (at, run) refl))
    ]
    goes s i done at = inl at
    goes s i (chosen w) at = elim (Bool-cases (is_open (s.zdsm.zone w).cond)) [
      | inl opened ↦
          elim (Result-cases (write_page_at E w (calls i).page_id (calls i).frame s.zdsm)) [
            | inl (t, run) ↦
                inr (
                  inl
                    (turn E i done t s, commit i w t at opened run, rw ((==_iff i i).1 refl) refl))
            | inr (e, run) ↦ inr (inr (e, rw at run))
          ]
      | inr closed ↦
          inr (inl (turn E i idle s.zdsm s, again i w at closed, rw ((==_iff i i).1 refl) refl))
    ]
    goes s i (carries cf buf) at = elim (Result-cases (select E cf 1 s.zdsm)) [
      | inl ((w, t), run) ↦ inr (
          inl (
            turn E i (moves cf buf w) t s,
            choose_gc i w cf buf t at run,
            rw ((==_iff i i).1 refl) refl,
          ))
      | inr (e, run) ↦ inr (inr (e, rw (at, run) refl))
    ]
    goes s i (moves cf buf w) at = elim (Bool-cases (is_open (s.zdsm.zone w).cond)) [
      | inl opened ↦ elim (Result-cases (write_page_gc_at E w (read_id buf) buf s.zdsm)) [
        | inl (t, run) ↦ inr (
            inl (
              turn E i done t s,
              commit_gc i w cf buf t at opened run,
              rw ((==_iff i i).1 refl) refl,
            ))
        | inr (e, run) ↦ inr (inr (e, rw at run))
      ]
      | inr closed ↦ inr (
          inl (
            turn E i (carries cf buf) s.zdsm s,
            again_gc i w cf buf at closed,
            rw ((==_iff i i).1 refl) refl,
          ))
    ]

    taken-le :
        (s u : System E)
        → ((i : ℕ) → s.pc i ≡ idle)
        → ((i : ℕ) → s.taken i ≡ 0)
        → Reach E calls s u
        → (i : ℕ) → u.taken i ≤ 2 * unfilled E s.zdsm + 4
    taken-le s u idle_all none_taken run i =
        let w =
          Reach-Within (2 * unfilled E s.zdsm + 4) s u run
            (λ j. record {
              steps = rw (idle_all j, none_taken j) (omega arith);
              holds = rw (idle_all j) tt;
            })
            i in
        omega (arith, w.steps)

    -- From a system in which every thread is before its call, whatever steps the threads take
    -- in whatever order, no thread takes more than four steps and two for each zone that was
    -- not full at the start. A thread that has not ended has then taken fewer and can take a
    -- step, or the call that it makes next faults.
    pub Reach-ends :
        (s u : System E)
        → ((i : ℕ) → s.pc i ≡ idle)
        → ((i : ℕ) → s.taken i ≡ 0)
        → Reach E calls s u
        → (i : ℕ)
        → (u.taken i ≤ 2 * unfilled E s.zdsm + 4)
          × ((u.pc i ≡ done)
              ⊎ (((u.taken i < 2 * unfilled E s.zdsm + 4) × CanStep u i) ⊎ Faults u i))
    unfolding Goes
    Reach-ends s u idle_all none_taken run i = (
      taken-le s u idle_all none_taken run i,
      elim (goes u i (u.pc i) refl) [
        | inl ended ↦ inl ended
        | inr (inl (v, step, counts)) ↦
            let bound = taken-le s v idle_all none_taken (later run step) i in
            inr (inl (omega (arith, bound, counts), (v, step, counts)))
        | inr (inr fails) ↦ inr (inr fails)
      ],
    )
