-- ===== src/Buffer.antt =====
-- src/zBuffer.cpp and include/zBuffer.h, class `BufferManager`: its state and the small methods.
-- The threads that the controller starts are collected in `jobs`. Frames are numbers below
-- `def_buf_size`, and arrays over them are functions.
pub mod Ach
pub mod Levels
pub mod Largest
pub mod Choose
pub mod Evict
pub mod Access
pub mod Coherent
pub mod Claim
pub mod Write
pub mod Flush
pub mod Rounds
use zone_buffer.Base.{
  replicate, ℕ, suc, ◌+◌, ◌*◌, ◌/◌, Bool, true, false, not, List, [], ◌++◌, ◌==◌, if◌then◌else◌,
  Result, ok, ◌>>=◌,
}
use zone_buffer.Base.Int.{ℤ, pos}
use zone_buffer.Env.{Env}
use zone_buffer.Lru.{Lru}
use zone_buffer.Lru
use zone_buffer.Zalp.{Zalp}
use zone_buffer.Zalp
use zone_buffer.Zns.{Zns, Frame, add32, update}
use zone_buffer.Zns.Gc.{Job}

module _ (E : Env) where
  open E.params use {frame_size, def_buf_size, hc_lv, cluster_num}
  open E.maps use {Map}

  pub record Modes : Type 0 where
    pub zalp_wc : Bool
    pub wh_only : Bool
    pub ach_only : Bool
    pub zalp : Bool
    pub cflru : Bool
    pub lru : Bool
    pub cd_detect : Bool

  -- The initialisers of the class: the policy `ach_only`, with the detection of cold data.
  abbrev pub default_modes : Modes
  default_modes = record {
    zalp_wc = false;
    wh_only = false;
    ach_only = true;
    zalp = false;
    cflru = false;
    lru = false;
    cd_detect = true;
  }

  pub record Buffer : Type 0 where
    pub modes : Modes
    pub zdsm : Zns E
    pub access_h : Map (ℤ × ℤ)
    pub buffer : ℕ → Frame
    pub cd_interval : ℕ
    pub cluster_flag : ℕ → ℕ
    pub write_count : ℕ → ℕ
    pub read_count : ℕ → ℕ
    pub free_frames_num : ℕ
    pub evict_count : ℕ
    pub insert_count : ℕ
    pub cd_count : ℕ
    pub frame_to_page : ℕ → ℕ
    pub frame_dirty : ℕ → Bool
    pub page2frame : Map ℕ
    pub strategy : Zalp E.maps
    pub lrus : Lru
    pub hit_count : ℕ
    pub flush_count : ℕ → ℕ
    pub jobs : List Job

  -- What the constructor makes of a controller. `cd_count`, which the source does not initialise,
  -- starts at zero, and so do the bytes of the frames, which `posix_memalign` leaves indeterminate.
  unfoldable pub init : Modes → Zns E → Buffer
  init modes zdsm = record {
    modes = modes;
    zdsm = record zdsm {
      cluster_num =
          if modes.ach_only
          then 3
          else if modes.zalp_wc
          then hc_lv
          else if modes.zalp
          then cluster_num
          else 1;
    };
    access_h = E.maps.empty;
    buffer = λ f. replicate frame_size 0;
    cd_interval = zdsm.cap / frame_size / 2;
    cluster_flag = λ f. 0;
    write_count = λ f. 0;
    read_count = λ f. 0;
    free_frames_num = def_buf_size;
    evict_count = 0;
    insert_count = 0;
    cd_count = 0;
    frame_to_page = λ f. 0;
    frame_dirty = λ f. false;
    page2frame = E.maps.empty;
    strategy = Zalp.init E.maps E.params;
    lrus = Lru.init;
    hit_count = 0;
    flush_count = λ c. 0;
    jobs = [];
  }

  abbrev pub set_page_id : ℕ → ℕ → Buffer → Buffer
  set_page_id frame_id page_id b = record b {
    frame_to_page = update b.frame_to_page frame_id page_id;
  }

  abbrev pub get_page_id : ℕ → Buffer → ℕ
  get_page_id frame_id b = b.frame_to_page frame_id

  unfoldable pub set_dirty : ℕ → Buffer → Result Buffer
  set_dirty frame_id b =
      let c : Buffer = record b { frame_dirty = update b.frame_dirty frame_id true } in
      if not b.modes.lru
      then (do s ← Zalp.set_dirty E.maps frame_id c.strategy; ok (record c { strategy = s }))
      else ok c

  abbrev pub unset_dirty : ℕ → Buffer → Buffer
  unset_dirty frame_id b = record b { frame_dirty = update b.frame_dirty frame_id false }

  abbrev pub inc_hit_count : Buffer → Buffer
  inc_hit_count b = record b { hit_count = b.hit_count + 1 }

  -- `hit_count_clear`, with `io_count_clear` of the controller.
  unfoldable pub hit_count_clear : Buffer → Buffer
  hit_count_clear b =
      let z : Zns E = b.zdsm in record b { hit_count = 0; zdsm = record z { io_count = 0 } }

  -- `evict_count + insert_count`, of type `unsigned int`.
  abbrev pub clock : Buffer → ℕ
  clock b = add32 b.evict_count b.insert_count
