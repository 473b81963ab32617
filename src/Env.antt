-- ===== src/Env.antt =====
-- All that the program is given: the constants of the build, the map of libcuckoo, the device and
-- the arithmetic of `double`.
use zone_buffer.Cuckoo.{Cuckoo}
use zone_buffer.Device.{Device, Float}
use zone_buffer.Params.{Params}

pub record Env : Type 1 where
  pub params : Params
  pub maps : Cuckoo
  pub device : Device
  pub float : Float
