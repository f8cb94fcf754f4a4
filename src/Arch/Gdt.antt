-- ===== src/Arch/Gdt.antt =====
-- src/arch/x86_64/gdt.c, the segment table and the task state segment. `gdt_flush` and `load_tss` are
-- left out: the state has what they are given. The addresses of the static objects are arguments.
pub mod Descriptor
use miyabi.Base.{ℕ, zero, suc, ◌+◌, ◌*◌, ◌^◌, ◌==◌, if◌then◌else◌, update, shr, low_bits}

-- `struct gdt_entry`
pub record GdtEntry : Type 0 where
  pub limit_low : ℕ
  pub base_low : ℕ
  pub base_mid : ℕ
  pub access : ℕ
  pub granularity : ℕ
  pub base_high : ℕ

-- `struct tss_entry`, without the reserved fields.
pub record TssEntry : Type 0 where
  pub rsp0 : ℕ
  pub rsp1 : ℕ
  pub rsp2 : ℕ
  pub ist : ℕ → ℕ
  pub iomap_base : ℕ

-- The static variables of the file; `limit` and `base` are those of `gp`.
pub record Gdt : Type 0 where
  pub gdt : ℕ → GdtEntry
  pub kernel_tss : TssEntry
  pub limit : ℕ
  pub base : ℕ

-- The addresses of the static objects.
pub record Addresses : Type 0 where
  pub gdt : ℕ
  pub kernel_tss : ℕ
  pub initial_kernel_stack : ℕ

abbrev pub sizeof_tss : ℕ
sizeof_tss = 110

-- `static void set_tss_descriptor(int index, uint64_t base, uint32_t limit)`; the eight bytes of the
-- second entry are written as two numbers of four bytes.
unfoldable pub set_tss_descriptor : ℕ → ℕ → ℕ → (ℕ → GdtEntry) → ℕ → GdtEntry
set_tss_descriptor index base limit gdt =
    let low = update gdt index (record {
      limit_low = low_bits limit 16;
      base_low = low_bits base 16;
      base_mid = low_bits (shr base 16) 8;
      access = 137;
      granularity = low_bits (shr limit 16) 4;
      base_high = low_bits (shr base 24) 8;
    }) in
    update low (index + 1) (record {
      limit_low = low_bits (shr base 32) 16;
      base_low = low_bits (shr base 48) 16;
      base_mid = 0;
      access = 0;
      granularity = 0;
      base_high = 0;
    })

-- `void init_gdt(void)`
unfoldable pub init_gdt : Addresses → Gdt → Gdt
unfolding set_tss_descriptor
init_gdt at t = record {
  gdt = set_tss_descriptor 5 at.kernel_tss 109 t.gdt;
  kernel_tss = record {
    rsp0 = at.initial_kernel_stack + 4096;
    rsp1 = 0;
    rsp2 = 0;
    ist = λ i. 0;
    iomap_base = 0;
  };
  limit = 55;
  base = at.gdt;
}
