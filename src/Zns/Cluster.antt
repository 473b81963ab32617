-- ===== src/Zns/Cluster.antt =====
-- `write_cluster`: the pages of a cluster get the next pages of one zone, and then their bytes are
-- written in batches.
pub mod Step
pub mod Place
pub mod Batches
pub mod Spec
pub mod Kept
pub mod Run
pub mod Spend
use zone_buffer.Base.{ℕ, ◌+◌}
use zone_buffer.Env.{Env}
use zone_buffer.Zns.{Zns, ZoneDesc, put_zone}

-- The state with the write pointer of a zone advanced.
abbrev pub shifted : (E : Env) → ℕ → ℕ → Zns E → Zns E
shifted E w q s = let z : ZoneDesc E = s.zone w in put_zone E w (record z { wp = z.wp + q }) s
