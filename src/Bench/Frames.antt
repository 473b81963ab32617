-- ===== src/Bench/Frames.antt =====
-- The frames of the benchmark carry their page id.
use native.Mathlib.Nat.{}
use zone_buffer.Base.{ℕ, zero, suc, ◌/◌, ◌^◌, ◌≡◌, ◌<◌, [], ◌∷◌, ◌++◌, arith}
use zone_buffer.Env.{Env}
use zone_buffer.Zns.{little_endian, read_id}
use zone_buffer.Bench.{bytes_of, generate_random_frame}

-- The numbers that have `n` bytes.
HasBytes : ℕ → ℕ → Type 0
HasBytes zero id = id ≡ 0
HasBytes (suc n) id = HasBytes n (id / 256)

little_endian-bytes_of : (n id : ℕ) → HasBytes n id → little_endian (bytes_of n id ++ 0 ∷ []) ≡ id
unfolding HasBytes bytes_of little_endian
little_endian-bytes_of zero id h = ground arith
little_endian-bytes_of (suc n) id h = omega (arith, little_endian-bytes_of n (id / 256) h)

module _ (E : Env) where
  -- For a page id of at most seven bytes, the id that the buffer reads back from the frame
  -- generated for it is that id.
  pub read_id-generate_random_frame :
      (last id : ℕ) → id < 2 ^ 56 → read_id (generate_random_frame E last id) ≡ id
  unfolding generate_random_frame read_id HasBytes bytes_of
  read_id-generate_random_frame last id h = little_endian-bytes_of 7 id (omega arith)
