-- ===== src/Gdt.antt =====
-- arch/i386/kernel/gdt.c: the segment descriptors. A structure of bit-fields is laid out from the
-- lowest bit on, as the compiler does it for i386, in two words of 32 bits.
pub mod Segments
use turnix.Base.{ℕ, ◌+◌, ◌-◌, ◌*◌, ◌/◌, ◌%◌, ◌^◌, List, [], ◌∷◌}

-- `KERNEL_CS`, `KERNEL_DS`
abbrev pub kernel_cs : ℕ
kernel_cs = 0x8

abbrev pub kernel_ds : ℕ
kernel_ds = 0x10

-- `struct gd`
pub record Gd : Type 0 where
  pub limit_low : ℕ
  pub base_addr_low : ℕ
  pub base_addr_mid : ℕ
  pub access : ℕ
  pub rw_bit : ℕ
  pub dir_conform : ℕ
  pub exe : ℕ
  pub s : ℕ
  pub privilege : ℕ
  pub present : ℕ
  pub limit_high : ℕ
  pub user : ℕ
  pub unused : ℕ
  pub size : ℕ
  pub granularity : ℕ
  pub base_addr_high : ℕ

unfoldable pub gd_set_base_addr : ℕ → Gd → Gd
gd_set_base_addr base gd = record gd {
  base_addr_low = base % 2 ^ 16;
  base_addr_mid = base / 2 ^ 16 % 2 ^ 8;
  base_addr_high = base / 2 ^ 24 % 2 ^ 8;
}

unfoldable pub gd_set_limit : ℕ → Gd → Gd
gd_set_limit limit gd = record gd {
  limit_low = limit % 2 ^ 16;
  limit_high = limit / 2 ^ 16 % 2 ^ 4;
}

abbrev pub gd_zero : Gd
gd_zero = record {
  limit_low = 0;
  base_addr_low = 0;
  base_addr_mid = 0;
  access = 0;
  rw_bit = 0;
  dir_conform = 0;
  exe = 0;
  s = 0;
  privilege = 0;
  present = 0;
  limit_high = 0;
  user = 0;
  unused = 0;
  size = 0;
  granularity = 0;
  base_addr_high = 0;
}

unfoldable pub gd_set_code : ℕ → ℕ → ℕ → Gd → Gd
unfolding gd_set_base_addr gd_set_limit
gd_set_code privilege base limit gd = record (gd_set_limit limit (gd_set_base_addr base gd)) {
  access = 0;
  rw_bit = 1;
  dir_conform = 0;
  exe = 1;
  s = 1;
  privilege = privilege % 2 ^ 2;
  present = 1;
  user = 0;
  unused = 0;
  size = 1;
  granularity = 1;
}

unfoldable pub gd_set_data : ℕ → ℕ → ℕ → Gd → Gd
unfolding gd_set_base_addr gd_set_limit
gd_set_data privilege base limit gd = record (gd_set_limit limit (gd_set_base_addr base gd)) {
  access = 0;
  rw_bit = 1;
  dir_conform = 0;
  exe = 0;
  s = 1;
  privilege = privilege % 2 ^ 2;
  present = 1;
  user = 0;
  unused = 0;
  size = 1;
  granularity = 1;
}

-- The two words of the structure
abbrev pub gd_words : Gd → ℕ × ℕ
gd_words gd = (
  gd.limit_low + gd.base_addr_low * 2 ^ 16,
  gd.base_addr_mid
      + gd.access * 2 ^ 8
      + gd.rw_bit * 2 ^ 9
      + gd.dir_conform * 2 ^ 10
      + gd.exe * 2 ^ 11
      + gd.s * 2 ^ 12
      + gd.privilege * 2 ^ 13
      + gd.present * 2 ^ 15
      + gd.limit_high * 2 ^ 16
      + gd.user * 2 ^ 20
      + gd.unused * 2 ^ 21
      + gd.size * 2 ^ 22
      + gd.granularity * 2 ^ 23
      + gd.base_addr_high * 2 ^ 24,
)

-- The table before `lgdt`, from the one in the data of the program.
unfoldable pub gdt_init : List Gd
unfolding gd_set_code gd_set_data
gdt_init =
    gd_zero
    ∷ gd_set_code 0 0 (2 ^ 32 - 1) gd_zero
    ∷ gd_set_data 0 0 (2 ^ 32 - 1) gd_zero
    ∷ gd_set_code 3 0 (2 ^ 32 - 1) gd_zero
    ∷ gd_set_data 3 0 (2 ^ 32 - 1) gd_zero
    ∷ []
