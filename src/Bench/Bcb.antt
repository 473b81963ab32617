-- ===== src/Bench/Bcb.antt =====
-- src/common.cpp and include/common.h, class `BCB`, which no other part uses. Its getters are the
-- fields.
use zone_buffer.Base.{ℕ, Bool, true, false}

pub record Bcb : Type 0 where
  pub page_id : ℕ
  pub frame_id : ℕ
  pub dirty : Bool

abbrev pub bcb : ℕ → ℕ → Bcb
bcb page_id frame_id = record { page_id = page_id; frame_id = frame_id; dirty = false }

abbrev pub set_dirty : Bcb → Bcb
set_dirty b = record b { dirty = true }

abbrev pub unset_dirty : Bcb → Bcb
unset_dirty b = record b { dirty = false }
