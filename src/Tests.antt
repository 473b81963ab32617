-- ===== src/Tests.antt =====
-- A small machine to run the program on: maps and a device that are functions, zones of four pages
-- of two bytes, and a buffer of four frames.
mod Policy
mod Controller
mod Manager
mod Player
mod Collection
mod Recency
mod Structures
mod Threads
mod Files
mod Flushes
use zone_buffer.Base.{
  ℕ, ◌+◌, ◌-◌, ◌≡◌, refl, ap, sym, List, Option, none, some, ◌==◌, leb, ltb, ◌&&◌, if◌then◌else◌,
  is_some, get_or, length, arith, map, range_from,
}
use zone_buffer.Base.Int.{ℤ, pos, ltb_ℤ}
use zone_buffer.Cuckoo.{Cuckoo}
use zone_buffer.Device.{Device, Float}
use zone_buffer.Params.{Params}
use zone_buffer.Env.{Env}

pub some_injective : {A : Type 0} {x y : A} → some x ≡ some y → x ≡ y
some_injective {x} e = ap (λ o. elim o [ none ↦ x | some a ↦ a ]) e

abbrev pub maps : Cuckoo
maps = record {
  Map = λ V. ℕ → Option V;
  empty = λ k. none;
  find = λ k m. m k;
  insert = λ k v m j. if k == j then (if is_some (m j) then m j else some v) else m j;
  insert_or_assign = λ k v m j. if k == j then some v else m j;
  erase = λ k m j. if k == j then none else m j;
  find-empty = λ k. refl;
  find-insert = λ j k v m. refl;
  find-insert_or_assign = λ j k v m. refl;
  find-erase = λ j k m. refl;
}

abbrev pub overwrite : ℕ → List ℕ → (ℕ → ℕ) → ℕ → ℕ
overwrite at bytes s a =
    if leb at a && ltb a (at + length bytes) then get_or bytes (a - at) 0 else s a

abbrev pub device : Device
device = record {
  State = ℕ → ℕ;
  byte = λ a s. s a;
  pread = λ at len s. some (map s (range_from at len));
  pread-byte = λ at len s bytes e. sym (some_injective e);
  pwrite = λ at bytes s. some (overwrite at bytes s);
  open_zones = λ at len s. some s;
  finish_zones = λ at len s. some s;
  reset_zones = λ at len s. some s;
  close_zones = λ at len s. some s;
  report_zones = λ at len s. some (record { cond = 4; wp = at });
  cond_closed = 4;
  byte-pwrite = λ a at bytes s t e. ap (λ (u : ℕ → ℕ). u a) (sym (some_injective e));
  byte-open_zones = λ a at len s t e. ap (λ (u : ℕ → ℕ). u a) (sym (some_injective e));
  byte-finish_zones = λ a at len s t e. ap (λ (u : ℕ → ℕ). u a) (sym (some_injective e));
  byte-close_zones = λ a at len s t e. ap (λ (u : ℕ → ℕ). u a) (sym (some_injective e));
  byte-reset_zones = λ a at len s t e pos outside. ap (λ (u : ℕ → ℕ). u a) (sym (some_injective e));
}

-- Arithmetic on whole numbers.
abbrev pub float : Float
float = record {
  Double = ℤ;
  of_ℤ = λ a. a;
  add = λ a b. a;
  sub = λ a b. a;
  mul = λ a b. a;
  div = λ a b. a;
  lt = λ a b. ltb_ℤ a b;
  decimal = λ m n. pos m;
}

abbrev pub params : Params
params = record {
  frame_size = 2;
  page_size = 2;
  cluster_num = 4;
  hc_lv = 3;
  def_buf_size = 4;
  work_reg_size = 2;
  max_zone_num = 4;
  write_batch = 2;
  capacity = 64;
}

abbrev pub machine : Env
machine = record { params = params; maps = maps; device = device; float = float }
