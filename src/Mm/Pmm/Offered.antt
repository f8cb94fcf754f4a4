-- ===== src/Mm/Pmm/Offered.antt =====
-- Which pages the memory map lets be used, for `init_pmm`: by the regions that the code forms, and by
-- the entries themselves.
use miyabi.Base.{
  ℕ, ◌+◌, ◌*◌, ◌/◌, ◌%◌, ◌^◌, ◌≤◌, ◌<◌, ◌≡◌, inl, inr, refl, arith, Bool, true, false, ◌&&◌, ◌||◌,
  Option, none, some, List, [], ◌∷◌, ltb, leb, Bool-cases, ◌⊎◌,
}
use miyabi.Mm.Pmm.{
  Boot, region_overlaps_kernel, align_up_4k, align_down_4k, usable, acpi_reclaimable,
  bootloader_reclaimable, other, MemmapEntry, MemmapType, region, is_reclaimable,
}

-- The page lies in the region.
abbrev pub covers : Option (ℕ × ℕ) → ℕ → Bool
covers none page = false
covers (some (start, end)) page = leb start (page * 4096) && ltb (page * 4096) end

-- The page lies in a region of the types wanted that the kernel's range does not touch.
abbrev pub offered : Boot → (MemmapType → Bool) → List MemmapEntry → ℕ → Bool
offered b wanted [] page = false
offered b wanted (e ∷ es) page = covers (region b wanted e) page || offered b wanted es page

-- The first page that begins in the entry, and the first one behind those that end in it.
abbrev pub first_page : MemmapEntry → ℕ
first_page e = (e.base + 4095) % 2 ^ 64 / 4096

abbrev pub last_page : MemmapEntry → ℕ
last_page e = (e.base + e.size) % 2 ^ 64 / 4096

-- The entry lets the page be used: it is usable or reclaimable memory, the page is among its whole
-- pages, and all of these lie below the kernel's range or above it.
pub record Available (b : Boot) (page : ℕ) (e : MemmapEntry) : Type 0 where
  pub type : (e.type ≡ usable) ⊎ (e.type ≡ acpi_reclaimable) ⊎ (e.type ≡ bootloader_reclaimable)
  pub from : first_page e ≤ page
  pub below : page < last_page e
  pub apart : (last_page e * 4096 ≤ b.kernel_start) ⊎ (b.kernel_end ≤ first_page e * 4096)

-- Some entry of the memory map does.
abbrev pub SomeAvailable : Boot → ℕ → List MemmapEntry → Type 0
SomeAvailable b page [] = ⊥
SomeAvailable b page (e ∷ es) = Available b page e ⊎ SomeAvailable b page es

reclaimable_iff :
    (t : MemmapType)
    → (is_reclaimable t ≡ true
        → (t ≡ usable) ⊎ (t ≡ acpi_reclaimable) ⊎ (t ≡ bootloader_reclaimable))
      × ((t ≡ usable) ⊎ (t ≡ acpi_reclaimable) ⊎ (t ≡ bootloader_reclaimable)
          → is_reclaimable t ≡ true)
unfolding is_reclaimable
reclaimable_iff usable = ((λ h. inl refl), λ h. refl)
reclaimable_iff acpi_reclaimable = ((λ h. inr (inl refl)), λ h. refl)
reclaimable_iff bootloader_reclaimable = ((λ h. inr (inr refl)), λ h. refl)
reclaimable_iff other =
    ((λ h. cc), λ h. elim h [ inl e ↦ cc | inr x ↦ elim x [ inl e ↦ cc | inr e ↦ cc ] ])

covers-Available :
    (b : Boot) (page : ℕ) (e : MemmapEntry)
    → covers (region b is_reclaimable e) page ≡ true
    → Available b page e
unfolding region region_overlaps_kernel align_up_4k align_down_4k
covers-Available b page e h = record {
  type = (reclaimable_iff e.type).0 (ground arith);
  from = ground arith;
  below = ground arith;
  apart = ground arith;
}

Available-covers :
    (b : Boot) (page : ℕ) (e : MemmapEntry)
    → Available b page e
    → covers (region b is_reclaimable e) page ≡ true
unfolding region region_overlaps_kernel align_up_4k align_down_4k
Available-covers b page e a =
    let t = (reclaimable_iff e.type).1 a.type in ground (arith, t, a.from, a.below, a.apart)

pub offered_iff :
    (b : Boot) (page : ℕ) (es : List MemmapEntry)
    → (offered b is_reclaimable es page ≡ true → SomeAvailable b page es)
      × (SomeAvailable b page es → offered b is_reclaimable es page ≡ true)
offered_iff b page [] = ((λ h. cc), λ h. absurd h)
offered_iff b page (e ∷ es) = (
  (λ h. elim (Bool-cases (covers (region b is_reclaimable e) page)) [
    | inl here ↦ inl (covers-Available b page e here)
    | inr not_here ↦ inr ((offered_iff b page es).0 (ground arith))
  ]),
  λ h. elim h [
    | inl a ↦ ground (arith, Available-covers b page e a)
    | inr x ↦ ground (arith, (offered_iff b page es).1 x)
  ],
)
