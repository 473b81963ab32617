-- ===== src/Zns.antt =====
-- src/zController.cpp and include/zController.h, class `ZNSController`: its state and the small
-- methods that the others are made of. Arrays are functions with a guard at each access. The
-- counters that are `unsigned int` wrap.
pub mod Write
pub mod Gc
pub mod Valid
pub mod Mapping
pub mod Consistent
pub mod Pages
pub mod Keeps
pub mod Select
pub mod Bytes
pub mod Spares
pub mod Stored
pub mod Rewrite
pub mod Store
pub mod Move
pub mod Vacate
pub mod Reset
pub mod Recycle
pub mod Collect
pub mod Restruct
pub mod Writers
pub mod Cluster
pub mod Close
pub mod Create
pub mod Insert
use zone_buffer.Base.{
  ℕ, suc, ◌+◌, ◌*◌, ◌/◌, ◌%◌, ◌^◌, Bool, true, false, not, ◌&&◌, ◌||◌, List, Option, none, some,
  ◌==◌, ltb, if◌then◌else◌, is_some, Result, ok, fault, assert_failed, out_of_range, undefined,
  ◌>>=◌, ◌>>◌, or_fault, map, range_from, take, get_or, [],
}
use zone_buffer.Base.Int.{ℤ, pos, negsuc, inc_ℤ, dec_ℤ}
use zone_buffer.Device.{ZbdInfo}
use zone_buffer.Env.{Env}

-- The zone conditions that the program tells apart.
pub data Cond : Type 0 where
  empty exp_open full : Cond

abbrev pub is_open : Cond → Bool
is_open exp_open = true
is_open empty = false
is_open full = false

abbrev pub is_empty : Cond → Bool
is_empty empty = true
is_empty exp_open = false
is_empty full = false

abbrev pub is_full : Cond → Bool
is_full full = true
is_full empty = false
is_full exp_open = false

-- `++` on an `unsigned int`, and `+= n`.
abbrev pub add32 : ℕ → ℕ → ℕ
add32 a b = (a + b) % 2 ^ 32

-- A frame is the list of its bytes.
abbrev pub Frame : Type 0
Frame = List ℕ

-- The `PAGE_ID` in the first eight bytes of a frame, the lowest byte first.
unfoldable pub little_endian : List ℕ → ℕ
little_endian List.[] = 0
little_endian (List.◌∷◌ b bs) = b + 256 * little_endian bs

unfoldable pub read_id : Frame → ℕ
read_id frame = little_endian (take 8 frame)

abbrev pub update {ℓ} : {A : Type ℓ} → (ℕ → A) → ℕ → A → ℕ → A
update f i a j = if i == j then a else f j

module _ (E : Env) where
  open E.params use {page_size, max_zone_num, capacity}
  open E.maps use {Map}
  open E.float use {Double}

  pub record ZoneDesc : Type 0 where
    pub id : ℕ
    pub ofst : ℕ
    pub wp : ℕ
    pub cond : Cond
    pub valid_page : ℤ
    pub cf : ℤ
    pub idle_rate : Double
    pub gc_rate : Double
    pub gc_rate_last : Double
    pub in_gc : Bool
    pub in_re : Bool

  pub record Zns : Type 0 where
    pub cap : ℕ
    pub gc_count : ℕ
    pub cd_count : ℕ
    pub cluster_num : ℕ
    pub buffer_write_count : ℕ
    pub zone_number : ℕ
    pub zone : ℕ → ZoneDesc
    pub zone_size : ℕ
    pub block_per_zone : ℕ
    pub meta_page : ℕ → Bool
    pub pages_num : ℕ
    pub table : Map ℕ
    pub io_count : ℕ
    pub gc_valid_count : ℕ
    pub write_count : ℕ
    pub valid_data : Double
    pub real_data : Double
    pub used_zone : ℕ
    pub gc : Bool
    pub cd : Bool
    pub zone_used : ℕ → Bool
    pub covzs : Bool
    pub device : E.device.State

  unfoldable pub zone_at : ℕ → Zns → Result ZoneDesc
  zone_at i s = if ltb i max_zone_num then ok (s.zone i) else fault undefined

  abbrev pub put_zone : ℕ → ZoneDesc → Zns → Zns
  put_zone i z s = record s { zone = update s.zone i z }

  -- `get_valid`: the bit of the page at an address.
  unfoldable pub get_valid : ℕ → Zns → Result Bool
  get_valid page_addr s =
      if ltb (page_addr / page_size) (s.block_per_zone * s.zone_number)
      then ok (s.meta_page (page_addr / page_size))
      else fault undefined

  -- `Zone[page_addr / zone_size].valid_page++`, or `--`.
  unfoldable pub count_valid : (ℤ → ℤ) → ℕ → Zns → Result Zns
  count_valid f page_addr s = do
    z ← zone_at (page_addr / s.zone_size) s
    ok (put_zone (page_addr / s.zone_size) (record z { valid_page = f z.valid_page }) s)

  abbrev pub put_meta : ℕ → Bool → Zns → Zns
  put_meta page_addr b s = record s { meta_page = update s.meta_page (page_addr / page_size) b }

  unfoldable pub set_valid : ℕ → Bool → Zns → Result Zns
  set_valid page_addr is_valid s = do
    old ← get_valid page_addr s
    t ←
        (if not old && is_valid
          then count_valid inc_ℤ page_addr s
          else if old && not is_valid
          then count_valid dec_ℤ page_addr s
          else fault assert_failed)
    ok (put_meta page_addr is_valid t)

  -- The text of `set_valid_gc` is that of `set_valid`.
  unfoldable pub set_valid_gc : ℕ → Bool → Zns → Result Zns
  set_valid_gc page_addr is_valid s = do
    old ← get_valid page_addr s
    t ←
        (if not old && is_valid
          then count_valid inc_ℤ page_addr s
          else if old && not is_valid
          then count_valid dec_ℤ page_addr s
          else fault assert_failed)
    ok (put_meta page_addr is_valid t)

  unfoldable pub get_page_addr : ℕ → Zns → Result ℕ
  get_page_addr page_id s = or_fault (E.maps.find page_id s.table) out_of_range

  unfoldable pub set_page_addr : ℕ → ℕ → Zns → Zns
  set_page_addr page_id addr s =
      let rest =
        (if is_some (E.maps.find page_id s.table) then E.maps.erase page_id s.table else s.table) in
      record s { table = E.maps.insert page_id addr rest }

  abbrev pub inc_io_count : Zns → Zns
  inc_io_count s = record s { io_count = add32 s.io_count 1 }

  -- The bytes that are on the device, as many as `len`, from an address on.
  unfoldable pub bytes_on : ℕ → ℕ → Zns → Frame
  bytes_on len addr s = map (λ a. E.device.byte a s.device) (range_from addr len)

  -- The call of `pread` with the assertion on what it returns.
  unfoldable pub pread : ℕ → ℕ → Zns → Result Frame
  pread len addr s = or_fault (E.device.pread addr len s.device) assert_failed

  -- The call of `pwrite64` with the assertion on what it returns.
  unfoldable pub pwrite : ℕ → List ℕ → Zns → Result Zns
  pwrite addr bytes s = do
    d ← or_fault (E.device.pwrite addr bytes s.device) assert_failed
    ok (record s { device = d })

  unfoldable pub open_zone : ℕ → Zns → Result Zns
  open_zone i s = do
    z ← zone_at i s
    d ← or_fault (E.device.open_zones z.ofst s.zone_size s.device) assert_failed
    ok (record s { device = d })

  unfoldable pub finish_zone : ℕ → Zns → Result Zns
  finish_zone i s = do
    z ← zone_at i s
    d ← or_fault (E.device.finish_zones z.ofst s.zone_size s.device) assert_failed
    ok (record s { device = d })

  unfoldable pub reset_zone : ℕ → Zns → Result Zns
  reset_zone i s = do
    z ← zone_at i s
    d ← or_fault (E.device.reset_zones z.ofst s.zone_size s.device) assert_failed
    ok (record s { device = d })

  -- `zone_desc[i]` as `init` leaves it.
  abbrev pub fresh_zone : ℕ → ℕ → ZoneDesc
  fresh_zone zone_size i = record {
    id = i;
    ofst = i * zone_size;
    wp = i * zone_size;
    cond = empty;
    valid_page = pos 0;
    cf = negsuc 0;
    idle_rate = E.float.of_ℤ (pos 0);
    gc_rate = E.float.of_ℤ (pos 0);
    gc_rate_last = E.float.of_ℤ (pos 0);
    in_gc = false;
    in_re = false;
  }

  -- The constructor, with `init` and `reset_all`. The rates of a zone are not initialised in the
  -- source; here they start at zero.
  unfoldable pub init : ZbdInfo → ℕ → E.device.State → Result Zns
  init info cluster_num device = do
    if info.nr_zones == 0 || info.pblock_size == 0 then fault undefined else ok tt
    d ← or_fault (E.device.reset_zones 0 0 device) assert_failed
    let zone_size = info.zone_size % 2 ^ 32
    ok (record {
      cap = (capacity * 512 / info.nr_zones) % 2 ^ 32 / 4;
      gc_count = 0;
      cd_count = 0;
      cluster_num = cluster_num;
      buffer_write_count = 0;
      zone_number = max_zone_num;
      zone = fresh_zone zone_size;
      zone_size = zone_size;
      block_per_zone = zone_size / info.pblock_size;
      meta_page = λ i. false;
      pages_num = 0;
      table = E.maps.empty;
      io_count = 0;
      gc_valid_count = 0;
      write_count = 0;
      valid_data = E.float.of_ℤ (pos 0);
      real_data = E.float.of_ℤ (pos 0);
      used_zone = 0;
      gc = false;
      cd = false;
      zone_used = λ i. false;
      covzs = true;
      device = d;
    })
