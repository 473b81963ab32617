-- ===== src/Device.antt =====
-- The zoned device behind libzbd, `pread` and `pwrite64`, and the machine's `double`: what the
-- program calls and does not implement. A call of the device that fails, or reads or writes
-- less than it was asked to, is `none`.
use zone_buffer.Base.{
  ℕ, ◌+◌, ◌-◌, ◌≡◌, ◌≤◌, ◌<◌, ◌⊎◌, Bool, ◌&&◌, List, Option, some, ltb, leb, if◌then◌else◌, get_or,
  length, map, range_from,
}
use zone_buffer.Base.Int.{ℤ}

-- The fields of `struct zbd_zone` that the program reads.
pub record ZbdZone : Type 0 where
  pub cond : ℕ
  pub wp : ℕ

pub record Device : Type 1 where
  pub State : Type 0
  -- The byte that is at an address.
  pub byte : ℕ → State → ℕ
  -- The bytes that a whole read gives, from an address, of a length.
  pub pread : ℕ → ℕ → State → Option (List ℕ)
  pub pwrite : ℕ → List ℕ → State → Option State
  pub open_zones : ℕ → ℕ → State → Option State
  pub finish_zones : ℕ → ℕ → State → Option State
  pub reset_zones : ℕ → ℕ → State → Option State
  pub close_zones : ℕ → ℕ → State → Option State
  -- The first zone of a report.
  pub report_zones : ℕ → ℕ → State → Option ZbdZone
  -- `ZBD_ZONE_COND_CLOSED`
  pub cond_closed : ℕ
  pub pread-byte :
      (at len : ℕ) (s : State) (bytes : List ℕ)
      → pread at len s ≡ some bytes
      → bytes ≡ map (λ a. byte a s) (range_from at len)
  pub byte-pwrite :
      (a at : ℕ) (bytes : List ℕ) (s t : State)
      → pwrite at bytes s ≡ some t
      → byte a t
        ≡ (if leb at a && ltb a (at + length bytes) then get_or bytes (a - at) 0 else byte a s)
  pub byte-open_zones :
      (a at len : ℕ) (s t : State) → open_zones at len s ≡ some t → byte a t ≡ byte a s
  pub byte-finish_zones :
      (a at len : ℕ) (s t : State) → finish_zones at len s ≡ some t → byte a t ≡ byte a s
  pub byte-close_zones :
      (a at len : ℕ) (s t : State) → close_zones at len s ≡ some t → byte a t ≡ byte a s
  -- A reset of length 0 is one of the whole device.
  pub byte-reset_zones :
      (a at len : ℕ) (s t : State)
      → reset_zones at len s ≡ some t
      → 0 < len
      → (a < at) ⊎ (at + len ≤ a)
      → byte a t ≡ byte a s

-- The fields of `struct zbd_info` that the program reads.
pub record ZbdInfo : Type 0 where
  pub zone_size : ℕ
  pub nr_zones : ℕ
  pub pblock_size : ℕ

pub record Float : Type 1 where
  pub Double : Type 0
  pub of_ℤ : ℤ → Double
  pub add : Double → Double → Double
  pub sub : Double → Double → Double
  pub mul : Double → Double → Double
  pub div : Double → Double → Double
  pub lt : Double → Double → Bool
  -- The literal `m / 10 ^ n`.
  pub decimal : ℕ → ℕ → Double
