-- ===== src/Params.antt =====
-- include/parameter.h and `cluster_gc_num` of include/zalp.h: the constants of the build, taken as a
-- record, so that the statements range over every choice of them. `zns` has the values of the file.
-- `PAGE_ID`, `FRAME_ID` and `ZONE_ID` are numbers: the workload's page ids are not negative.
use zone_buffer.Base.{ℕ}

pub record Params : Type 0 where
  pub frame_size : ℕ
  pub page_size : ℕ
  pub cluster_num : ℕ
  pub hc_lv : ℕ
  pub def_buf_size : ℕ
  pub work_reg_size : ℕ
  pub max_zone_num : ℕ
  pub write_batch : ℕ
  pub capacity : ℕ

abbrev pub zns : Params
zns = record {
  frame_size = 4096;
  page_size = 4096;
  cluster_num = 4;
  hc_lv = 3;
  def_buf_size = 32768;
  work_reg_size = 24576;
  max_zone_num = 500;
  write_batch = 100;
  capacity = 0x1dc724000;
}
