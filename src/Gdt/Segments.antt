-- ===== src/Gdt/Segments.antt =====
-- What the processor reads in a segment descriptor.
use turnix.Base.{
  ℕ, zero, suc, leb, ◌≤◌, ◌+◌, ◌-◌, ◌*◌, ◌/◌, ◌%◌, ◌^◌, ◌≡◌, ◌<◌, refl, arith, if◌then◌else◌, ◌==◌,
  Bool, true, false, get_or,
}
use turnix.Gdt.{Gd, gd_set_code, gd_set_data, gd_words, gd_zero, gdt_init, kernel_cs, kernel_ds}

-- The fields by their places in the two words, as the processor has them.
record Segment : Type 0 where
  base : ℕ
  last : ℕ
  level : ℕ
  is_code : Bool
  is_present : Bool

abbrev segment : ℕ × ℕ → Segment
segment (low, high) =
    let limit = low % 2 ^ 16 + high / 2 ^ 16 % 2 ^ 4 * 2 ^ 16 in
    record {
      base = low / 2 ^ 16 + high % 2 ^ 8 * 2 ^ 16 + high / 2 ^ 24 * 2 ^ 24;
      last = if high / 2 ^ 23 % 2 == 1 then limit * 4096 + 4095 else limit;
      level = high / 2 ^ 13 % 4;
      is_code = high / 2 ^ 11 % 2 == 1;
      is_present = high / 2 ^ 15 % 2 == 1;
    }

module _ (privilege base limit : ℕ) (gd : Gd) (p : privilege < 4) (b : base < 2 ^ 32) where
  -- gd_set_code and gd_set_data make a present segment at the base, of as many pages as the limit
  -- says, for the level.
  gd_set-segment :
      (segment (gd_words (gd_set_code privilege base limit gd)) ≡ record {
        base = base;
        last = limit % 2 ^ 20 * 4096 + 4095;
        level = privilege;
        is_code = true;
        is_present = true;
      })
      × (segment (gd_words (gd_set_data privilege base limit gd)) ≡ record {
        base = base;
        last = limit % 2 ^ 20 * 4096 + 4095;
        level = privilege;
        is_code = false;
        is_present = true;
      })
  unfolding gd_set_code gd_set_data
  gd_set-segment = (ground arith, ground arith)

flat_entry : ℕ → Segment
flat_entry i = segment (gd_words (get_or gdt_init i gd_zero))

-- The kernel's selectors are for a code and a data segment of all 4 GB at level 0, and the two that
-- follow are the same at level 3.
gdt_init-flat :
    (i : ℕ)
    → 1 ≤ i
    → i < 5
    → flat_entry i ≡ record {
      base = 0;
      last = 2 ^ 32 - 1;
      level = if leb i (kernel_ds / 8) then 0 else 3;
      is_code = i % 2 == kernel_cs / 8;
      is_present = true;
    }
unfolding flat_entry gdt_init gd_set_code gd_set_data
gdt_init-flat zero h p = absurd (omega arith)
gdt_init-flat (suc zero) h p = refl
gdt_init-flat (suc (suc zero)) h p = refl
gdt_init-flat (suc (suc (suc zero))) h p = refl
gdt_init-flat (suc (suc (suc (suc zero)))) h p = refl
gdt_init-flat (suc (suc (suc (suc (suc i))))) h p = absurd (omega arith)
