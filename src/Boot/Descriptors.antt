-- ===== src/Boot/Descriptors.antt =====
-- The segment descriptors of student-distrib/x86_desc.h that `entry` of student-distrib/kernel.c
-- sets up.
use ece391_linux_os.Base.{ℕ, ◌/◌, ◌%◌}

-- The fields of a segment descriptor, the lowest bits first.
pub record SegDesc : Type 0 where
  pub seg_lim_15_00 : ℕ
  pub base_15_00 : ℕ
  pub base_23_16 : ℕ
  pub seg_type : ℕ
  pub sys : ℕ
  pub dpl : ℕ
  pub present : ℕ
  pub seg_lim_19_16 : ℕ
  pub avail : ℕ
  pub reserved : ℕ
  pub opsize : ℕ
  pub granularity : ℕ
  pub base_31_24 : ℕ

-- `SET_LDT_PARAMS` and `SET_TSS_PARAMS`, which are the same.
pub set_params : SegDesc → (addr lim : ℕ) → SegDesc
set_params str addr lim = record str {
  base_31_24 = addr / 0x1000000 % 256;
  base_23_16 = addr / 0x10000 % 256;
  base_15_00 = addr % 0x10000;
  seg_lim_19_16 = lim / 0x10000 % 16;
  seg_lim_15_00 = lim % 0x10000;
}

-- The two descriptors; `junk` is what is on the stack, whose base and limit are then set.
pub ldt_descriptor : SegDesc → (ldt ldt_size : ℕ) → SegDesc
ldt_descriptor junk ldt ldt_size =
    set_params
      (record junk {
        granularity = 0;
        opsize = 1;
        reserved = 0;
        avail = 0;
        present = 1;
        dpl = 0;
        sys = 0;
        seg_type = 2;
      })
      ldt ldt_size

pub tss_descriptor : SegDesc → (tss tss_size : ℕ) → SegDesc
tss_descriptor junk tss tss_size =
    set_params
      (record junk {
        granularity = 0;
        opsize = 0;
        reserved = 0;
        avail = 0;
        seg_lim_19_16 = 0;
        present = 1;
        dpl = 0;
        sys = 0;
        seg_type = 9;
        seg_lim_15_00 = 104;
      })
      tss tss_size
