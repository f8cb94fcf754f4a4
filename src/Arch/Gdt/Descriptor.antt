-- ===== src/Arch/Gdt/Descriptor.antt =====
-- The descriptor of the task state segment as the processor reads it.
use miyabi.Base.{
  ℕ, ◌+◌, ◌-◌, ◌*◌, ◌%◌, ◌^◌, ◌≡◌, ◌≢◌, refl, arith, update, update_self, update_ne, sym, ◌∙◌, shr,
  low_bits,
}
use miyabi.Arch.Gdt.{GdtEntry, Gdt, Addresses, sizeof_tss, set_tss_descriptor, init_gdt}

-- The base and the limit that two entries hold.
abbrev pub base_of : GdtEntry → GdtEntry → ℕ
base_of low high =
    low.base_low
    + low.base_mid * 2 ^ 16
    + low.base_high * 2 ^ 24
    + (high.limit_low + high.base_low * 2 ^ 16) * 2 ^ 32

abbrev pub limit_of : GdtEntry → ℕ
limit_of low = low.limit_low + low.granularity * 2 ^ 16

-- The entries `index` and `index + 1` describe a segment, and the others are as before.
pub record Describes (index base limit : ℕ) (old new : ℕ → GdtEntry) : Type 0 where
  pub base_lem : base_of (new index) (new (index + 1)) ≡ base % 2 ^ 64
  pub limit_lem : limit_of (new index) ≡ limit % 2 ^ 20
  pub access : (new index).access ≡ 137
  pub others : (i : ℕ) → i ≢ index → i ≢ index + 1 → new i ≡ old i

set_tss_descriptor-Describes :
    (index base limit : ℕ) (gdt : ℕ → GdtEntry)
    → Describes index base limit gdt (set_tss_descriptor index base limit gdt)
unfolding set_tss_descriptor
set_tss_descriptor-Describes index base limit gdt = record {
  base_lem = rw (low, high) (omega arith);
  limit_lem = rw low (omega arith);
  access = rw low;
  others = λ i a b.
      update_ne (update gdt index entry) (index + 1) second i (λ e. b (sym e))
      ∙ update_ne gdt index entry i (λ e. a (sym e));
}
  where
    entry : GdtEntry
    entry = record {
      limit_low = low_bits limit 16;
      base_low = low_bits base 16;
      base_mid = low_bits (shr base 16) 8;
      access = 137;
      granularity = low_bits (shr limit 16) 4;
      base_high = low_bits (shr base 24) 8;
    }

    second : GdtEntry
    second = record {
      limit_low = low_bits (shr base 32) 16;
      base_low = low_bits (shr base 48) 16;
      base_mid = 0;
      access = 0;
      granularity = 0;
      base_high = 0;
    }

    high : set_tss_descriptor index base limit gdt (index + 1) ≡ second
    high = update_self (update gdt index entry) (index + 1) second

    low : set_tss_descriptor index base limit gdt index ≡ entry
    low =
        update_ne (update gdt index entry) (index + 1) _ index (omega arith)
        ∙ update_self gdt index entry

-- After `init_gdt` the processor finds, put together from entries 5 and 6, the whole address of the
-- task state segment and its size less one, every other entry is as it was, the segment's stack for
-- the kernel is the end of the first kernel stack, the stacks for rings 1 and 2 and those of the
-- interrupt stack table are zero, and the descriptor of the table has its base and size less one.
pub init_gdt_lem :
    (at : Addresses) (t : Gdt)
    → Describes 5 at.kernel_tss (sizeof_tss - 1) t.gdt (init_gdt at t).gdt
      × ((init_gdt at t).kernel_tss.rsp0 ≡ at.initial_kernel_stack + 4096)
      × ((init_gdt at t).kernel_tss.rsp1 ≡ 0)
      × ((init_gdt at t).kernel_tss.rsp2 ≡ 0)
      × ((i : ℕ) → (init_gdt at t).kernel_tss.ist i ≡ 0)
      × ((init_gdt at t).limit ≡ 7 * 8 - 1)
      × ((init_gdt at t).base ≡ at.gdt)
unfolding init_gdt
init_gdt_lem at t = (
  set_tss_descriptor-Describes 5 at.kernel_tss 109 t.gdt,
  refl,
  refl,
  refl,
  (λ i. refl),
  refl,
  refl,
)
