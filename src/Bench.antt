-- ===== src/Bench.antt =====
-- src/common.cpp, link.h and main.cpp: the frames of the benchmark, its instructions, and the loops
-- that play them on the buffer. Clocks and prints are left out. The files are read in Bench.Parse;
-- the loops take instructions whose operation is known and whose page id is not negative.
pub mod Frames
pub mod Play
pub mod Bcb
pub mod Parse
use zone_buffer.Base.{
  ℕ, zero, suc, ◌-◌, ◌/◌, ◌%◌, List, [], ◌∷◌, ◌++◌, ◌==◌, if◌then◌else◌, Result, ok, fault,
  undefined, ◌>>=◌, length, replicate, set,
}
use zone_buffer.Env.{Env}
use zone_buffer.Zns.{Frame}
use zone_buffer.Zns.Gc.{print_gc_info}
use zone_buffer.Buffer.{Buffer, hit_count_clear}
use zone_buffer.Buffer.Access.{fix_new_page, read, write, clean_buffer}

-- The `n` bytes of a number in memory, the lowest first.
unfoldable pub bytes_of : ℕ → ℕ → List ℕ
bytes_of zero id = []
bytes_of (suc n) id = id % 256 ∷ bytes_of n (id / 256)

pub data Operate : Type 0 where
  insert scan update read_page : Operate

pub record Instruction : Type 0 where
  pub operate : Operate
  pub page_id : ℕ

module _ (E : Env) where
  open E.params use {page_size}

  -- The page id, whose highest byte is set to 0, then the letter `a`. The last byte is the one that
  -- the memory had.
  unfoldable pub generate_random_frame : ℕ → ℕ → Frame
  generate_random_frame last page_id =
      set (bytes_of 8 page_id) 7 0 ++ replicate (page_size - 8 - 1) 97 ++ last ∷ []

  -- `Instruction::execute`; `last` is the last byte of the frame that it generates.
  unfoldable pub execute : ℕ → Instruction → Buffer E → Result (Buffer E)
  execute last i b = elim (i.operate) [
    | insert ↦ fix_new_page E i.page_id (generate_random_frame last i.page_id) b
    | update ↦ write E i.page_id (generate_random_frame last i.page_id) b
    | read_page ↦ (do (frame, c) ← read E i.page_id b; ok c)
    | scan ↦ ok b
  ]

  -- The loop of `db_bench` over the instructions that are left, of `size` in all. The two tests on
  -- the index divide by `size / 10` and by `size / 100`.
  unfoldable pub bench_loop : ℕ → (ℕ → ℕ) → ℕ → List Instruction → Buffer E → Result (Buffer E)
  bench_loop size memory index [] b = ok b
  bench_loop size memory index (i ∷ is) b =
      let rest = bench_loop size memory (suc index) is in
      if size / 10 == 0
      then fault undefined
      else if size / 100 == 0
      then fault undefined
      else (do c ← execute (memory index) i b; rest c)

  unfoldable pub db_bench : (ℕ → ℕ) → List Instruction → Buffer E → Result (Buffer E)
  db_bench memory is b = bench_loop (length is) memory 0 is b

  -- `main` after the construction of the buffer, with the buffer's destructor.
  unfoldable pub run_main :
      (ℕ → ℕ) → List Instruction → List Instruction → Buffer E → Result (Buffer E)
  run_main memory load query b = do
    b ← db_bench memory load b
    let c : Buffer E = hit_count_clear E b
    b ← db_bench memory query (record c { zdsm = print_gc_info E c.zdsm })
    clean_buffer E b
