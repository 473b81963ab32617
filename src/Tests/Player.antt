-- ===== src/Tests/Player.antt =====
-- The benchmark on a fresh buffer.
use zone_buffer.Base.{
  ◌≡◌, List, [], ◌∷◌, arith, ◌==◌, ◌||◌, leb, length, if◌then◌else◌, fault, undefined,
}
use zone_buffer.Zns.{read_id}
use zone_buffer.Bench.{Instruction, update, db_bench, generate_random_frame}
use zone_buffer.Bench.Frames.{read_id-generate_random_frame}
use zone_buffer.Bench.Play.{db_bench-execute_all, execute_all}
use zone_buffer.Tests.{machine}
use zone_buffer.Tests.Manager.{fresh}

abbrev one : List Instruction
one = record { operate = update; page_id = 5 } ∷ []

read_id-generate_random_frame_example : read_id (generate_random_frame machine 0 300) ≡ 300
read_id-generate_random_frame_example = read_id-generate_random_frame machine 0 300 (omega arith)

db_bench-execute_all_example : db_bench machine (λ i. 0) one fresh ≡ (
    if length one == 0 || leb 100 (length one)
    then execute_all machine (λ i. 0) 0 one fresh
    else fault undefined)
db_bench-execute_all_example = db_bench-execute_all machine (λ i. 0) one fresh
