-- ===== src/Zns/Writers/Alone.antt =====
-- The steps of a thread that is alone are those of `write_page`.
use zone_buffer.Base.{ℕ, ◌≡◌, ◌≢◌}
use zone_buffer.Env.{Env}
use zone_buffer.Zns.{Zns}
use zone_buffer.Zns.Writers.{Call, System, Reach, start, later}

module _ (E : Env) (calls : ℕ → Call) where
  open E.params use {page_size}

  pub Reach-trans : (s t u : System E) → Reach E calls s t → Reach E calls t u → Reach E calls s u
  Reach-trans s t _ p start = p
  Reach-trans s t u p (later {t = v} q step) = later (Reach-trans s t v p q) step

  -- Of all the threads only `i` has changed.
  abbrev pub OnlyMoves : ℕ → System E → System E → Type 0
  OnlyMoves i s u = (j : ℕ) → j ≢ i → u.pc j ≡ s.pc j
