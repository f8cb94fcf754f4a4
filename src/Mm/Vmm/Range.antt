-- ===== src/Mm/Vmm/Range.antt =====
-- `vmm_map_range`: the pages of a range, one after the other.
use miyabi.Base.{
  ℕ, zero, suc, ◌+◌, ◌*◌, ◌/◌, ◌%◌, ◌^◌, ◌≤◌, ◌<◌, ◌≡◌, ◌≢◌, refl, arith, Option, List, ◌==◌, sym,
  ◌∙◌, inl, inr, Bool-cases, u64,
}
use mathlib.Core.Path.{subst}
use miyabi.Mm.Vmm.{PageSource, Vmm, table_index, map_pages, page_total, vmm_map_range}
use miyabi.Mm.Vmm.Walk.{page, walk, indices, NotLarge}
use miyabi.Mm.Vmm.Tree.{PageLaws, IsMapped}
use miyabi.Mm.Vmm.Ensure.Table.{Returns, Returns-bind, Returns-map}
use miyabi.Mm.Vmm.Map.{IsIndices, indices-IsIndices}
use miyabi.Mm.Vmm.Map.Page.{Mapped, page_entry, vmm_map_page-Mapped}

-- The page number, less what is above the four indices, is read off the indices.
indices_number : (a b : ℕ) → indices a ≡ indices b → a / 4096 % 2 ^ 36 ≡ b / 4096 % 2 ^ 36
indices_number a b e =
    let i3 : table_index a 39 ≡ table_index b 39 = cc e in
    let i2 : table_index a 30 ≡ table_index b 30 = cc e in
    let i1 : table_index a 21 ≡ table_index b 21 = cc e in
    let i0 : table_index a 12 ≡ table_index b 12 = cc e in omega arith

-- Fewer than 2 ^ 36 pages on, the indices are others.
pub indices_apart :
    (virt i j : ℕ)
    → i < j
    → j < i + 2 ^ 36
    → indices (u64 (virt + i * 4096)) ≢ indices (u64 (virt + j * 4096))
indices_apart virt i j lt lt' e =
    let h = indices_number (u64 (virt + i * 4096)) (u64 (virt + j * 4096)) e in omega (arith, h)

module _ (f : PageSource) (hhdm_offset : ℕ) (laws : PageLaws f hhdm_offset)
    (root virt phys flags : ℕ) where
  -- The address of the page `k` of the range, and its indices.
  abbrev pub at_page : ℕ → List ℕ
  at_page k = indices (u64 (virt + k * 4096))

  -- The `n` pages from page `i` on are translated to those of the other range, every other address
  -- as before, and the page tables are a tree.
  pub record MappedRange (i n : ℕ) (v v' : Vmm f hhdm_offset) : Type 0 where
    pub place' : ℕ → Option (List ℕ)
    pub mapped : IsMapped f hhdm_offset laws root place' v'
    pub pages :
        (k : ℕ)
        → i ≤ k
        → k < i + n
        → walk hhdm_offset v'.memory root (at_page k)
          ≡ page (page_entry (u64 (phys + k * 4096)) flags)
    pub others :
        (js : List ℕ)
        → IsIndices js
        → ((k : ℕ) → i ≤ k → k < i + n → js ≢ at_page k)
        → walk hhdm_offset v'.memory root js ≡ walk hhdm_offset v.memory root js

  module _ (i n : ℕ) (v a : Vmm f hhdm_offset) (bound : n < 2 ^ 36)
      (s : Mapped f hhdm_offset laws root v
        (at_page i)
        (page (page_entry (u64 (phys + i * 4096)) flags))
        a) where
    rest_NotLarge :
        ((k : ℕ) → i ≤ k → k < i + suc n → NotLarge (walk hhdm_offset v.memory root (at_page k)))
        → (k : ℕ) → i + 1 ≤ k
        → k < i + 1 + n
        → NotLarge (walk hhdm_offset a.memory root (at_page k))
    rest_NotLarge h k lo hi =
        subst NotLarge
          (sym (
            s.turns.others (at_page k) (indices-IsIndices (u64 (virt + k * 4096)))
              (λ e. indices_apart virt i k (omega arith) (omega arith) (sym e))))
          (h k (omega arith) (omega arith))

    join-MappedRange :
        (b : Vmm f hhdm_offset) → MappedRange (i + 1) n a b → MappedRange i (suc n) v b
    join-MappedRange b r = record {
      place' = r.place';
      mapped = r.mapped;
      pages = λ k lo hi. elim (Bool-cases (i == k)) [
        | inl here ↦
            let e : i ≡ k = ground arith in
            subst
              (λ x.
                walk hhdm_offset b.memory root (at_page x)
                ≡ page (page_entry (u64 (phys + x * 4096)) flags))
              e
              (r.others (at_page i) (indices-IsIndices (u64 (virt + i * 4096)))
                  (λ k lo hi. indices_apart virt i k (omega arith) (omega arith))
                ∙ s.turns.turned)
        | inr there ↦ r.pages k (ground arith) (omega arith)
      ];
      others = λ js four ne.
          r.others js four (λ k lo hi. ne k (omega arith) (omega arith))
          ∙ s.turns.others js four (ne i (omega arith) (omega arith));
    }

  map_pages-MappedRange :
      (n i : ℕ) (place : ℕ → Option (List ℕ)) (v : Vmm f hhdm_offset)
      → IsMapped f hhdm_offset laws root place v
      → n ≤ 2 ^ 36
      → ((k : ℕ) → i ≤ k → k < i + n → NotLarge (walk hhdm_offset v.memory root (at_page k)))
      → Returns f v.frames
          (3 * n)
          (MappedRange i n v)
          (map_pages f hhdm_offset n i virt phys flags v)
  unfolding map_pages
  map_pages-MappedRange zero i place v m bound h = record {
    place' = place;
    mapped = m;
    pages = λ k lo hi. absurd (omega arith);
    others = λ js four ne. refl;
  }
  map_pages-MappedRange (suc n) i place v m bound h =
      subst
        (λ x.
          Returns f v.frames x (MappedRange i (suc n) v)
            (map_pages f hhdm_offset (suc n) i virt phys flags v))
        (three n)
        (Returns-bind f v.frames 3 (3 * n) (λ (a : Vmm f hhdm_offset). a.frames) _ _ _ _
          (vmm_map_page-Mapped f hhdm_offset laws root place v m (u64 (virt + i * 4096))
            (u64 (phys + i * 4096)) flags (h i (omega arith) (omega arith)))
          (λ a s. s.took)
          (λ a s. Returns-map f a.frames (3 * n) _ (join-MappedRange i n v a (omega arith) s) (
            map_pages-MappedRange n (i + 1) s.place' a s.mapped (omega arith)
              (rest_NotLarge i n v a (omega arith) s h))))
    where
      three : (n : ℕ) → 3 + 3 * n ≡ 3 * suc n
      three n = omega arith

  -- Where the page tables are a tree, the range is at most 2 ^ 48 bytes long and none of its pages is
  -- in a large page, `vmm_map_range` halts since one of the next calls of the page allocator,
  -- three for each page, finds no page, or it returns, the page tables
  -- are a tree again, every page of the range is translated to its page of the physical range with
  -- the flags, and every other address as before.
  pub vmm_map_range-MappedRange :
      (size : ℕ) (place : ℕ → Option (List ℕ)) (v : Vmm f hhdm_offset)
      → IsMapped f hhdm_offset laws root place v
      → size ≤ 2 ^ 48
      → ((k : ℕ) → k < page_total size → NotLarge (walk hhdm_offset v.memory root (at_page k)))
      → Returns f v.frames
          (3 * page_total size)
          (MappedRange 0 (page_total size) v)
          (vmm_map_range f hhdm_offset virt phys size flags v)
  unfolding vmm_map_range
  vmm_map_range-MappedRange size place v m bound h =
      map_pages-MappedRange (page_total size) 0 place v m (omega arith)
        (λ k lo hi. h k (omega arith))
