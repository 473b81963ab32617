-- ===== src/Bench/Play.antt =====
-- The loop of `db_bench` against the plain run of its instructions.
use zone_buffer.Base.{
  ℕ, suc, ◌/◌, ◌≡◌, ◌<◌, ◌≤◌, ◌==◌, refl, List, [], ◌∷◌, arith, Result, ok, fault, undefined, ◌>>=◌,
  length, false, ap, fun_ext, if◌then◌else◌, ◌||◌, leb, leb→le, Bool-cases, inl, inr, ◌∙◌,
}
use zone_buffer.Env.{Env}
use zone_buffer.Buffer.{Buffer}
use zone_buffer.Bench.{Instruction, execute, bench_loop, db_bench}

module _ (E : Env) where
  -- The instructions one after the other.
  unfoldable pub execute_all : (ℕ → ℕ) → ℕ → List Instruction → Buffer E → Result (Buffer E)
  execute_all memory index [] b = ok b
  execute_all memory index (i ∷ is) b =
      execute E (memory index) i b >>= execute_all memory (suc index) is

  bench_loop-execute_all :
      (size : ℕ) (memory : ℕ → ℕ) (index : ℕ) (is : List Instruction) (b : Buffer E)
      → 100 ≤ size
      → bench_loop E size memory index is b ≡ execute_all memory index is b
  unfolding bench_loop execute_all
  bench_loop-execute_all size memory index [] b h = refl
  bench_loop-execute_all size memory index (i ∷ is) b h =
      let tens : (size / 10 == 0) ≡ false = ground arith in
      let hundreds : (size / 100 == 0) ≡ false = ground arith in
      rw (tens, hundreds)
        (ap (λ next. execute E (memory index) i b >>= next)
          (fun_ext λ c. bench_loop-execute_all size memory (suc index) is c h))

  few :
      (memory : ℕ → ℕ) (i : Instruction) (is : List Instruction) (b : Buffer E)
      → length (i ∷ is) < 100
      → db_bench E memory (i ∷ is) b ≡ fault undefined
  unfolding db_bench bench_loop
  few memory i is b h = ground arith

  many :
      (memory : ℕ → ℕ) (is : List Instruction) (b : Buffer E)
      → 100 ≤ length is
      → db_bench E memory is b ≡ execute_all memory 0 is b
  unfolding db_bench
  many memory is b h = bench_loop-execute_all (length is) memory 0 is b h

  -- `db_bench` of no instruction or at least a hundred runs them one after the other, each with
  -- its number and faults included; of any other number it is undefined, by a division by zero.
  pub db_bench-execute_all :
      (memory : ℕ → ℕ) (is : List Instruction) (b : Buffer E)
      → db_bench E memory is b ≡ (
          if length is == 0 || leb 100 (length is)
          then execute_all memory 0 is b
          else fault undefined)
  unfolding db_bench bench_loop execute_all
  db_bench-execute_all memory [] b = refl
  db_bench-execute_all memory (i ∷ is) b =
      let some_left : (length (i ∷ is) == 0) ≡ false = ground arith in
      elim (Bool-cases (leb 100 (length (i ∷ is)))) [
        | inl enough ↦
            many memory (i ∷ is) b (leb→le 100 (length (i ∷ is)) enough)
            ∙ rw (some_left, enough) refl
        | inr small ↦ few memory i is b (ground (arith, small)) ∙ rw (some_left, small) refl
      ]
