-- ===== src/Modules/Loader/Sections/Loop.antt =====
-- The second loop of `load_module`, section by section.
use miyabi.Base.{
  ℕ, zero, suc, ◌+◌, ◌^◌, ◌≤◌, ◌<◌, ◌≡◌, ◌⊎◌, refl, arith, true, false, ltb, ◌==◌, sym, ap, ◌∙◌,
  inl, inr, Bool-cases, low_bits, shr,
}
use mathlib.Core.Path.{subst}
use miyabi.Base.Run.{Ends, Ends-mono}
use miyabi.Modules.Elf.{Memory, e_shnum, shdr, sh_size, is_alloc}
use miyabi.Modules.Loader.Sections.{place_section, place_sections}
use miyabi.Modules.Loader.Sections.Layout.{start_at, next_offset, offset_after, Grows, after_least}
use miyabi.Modules.Loader.Sections.Step.{
  Image, NotField, SameFile, file_count, file-SameHeader, Holds, place_section_other,
  place_section-Holds,
}
use miyabi.Modules.Loader.Sections.Placed.{InFile, Placed, Holds-kept, skip-Placed}

module _ (im : Image) (m : Memory) where
  module _ (n i offset : ℕ) (w : Memory) (below : i + suc n ≤ im.shnum) (same : SameFile im m w)
      (grows : Grows (suc n) i offset m im.shdrs)
      (fits : offset_after (suc n) i offset m im.shdrs ≤ im.total) (in_file : InFile im m)
      (alloc : is_alloc m (shdr im.shdrs i) ≡ true) where
    abbrev s : ℕ
    s = shdr im.shdrs i

    abbrev start : ℕ
    start = start_at m s offset

    abbrev stepped : Memory
    stepped = place_section s im.file_buffer (im.base + start) w

    no_wrap : (offset ≤ start) × (start + sh_size m s < 2 ^ 64)
    unfolding Grows
    no_wrap = grows.0 alloc

    next_lem : next_offset m s offset ≡ start + sh_size m s
    next_lem = rw (next_offset, alloc) (let g = no_wrap in omega (arith, g))

    rest_fits : offset_after n (i + 1) (start + sh_size m s) m im.shdrs ≤ im.total
    unfolding offset_after
    rest_fits = subst (λ x. offset_after n (i + 1) x m im.shdrs ≤ im.total) next_lem fits

    rest-Grows : Grows n (i + 1) (start + sh_size m s) m im.shdrs
    unfolding Grows
    rest-Grows = subst (λ x. Grows n (i + 1) x m im.shdrs) next_lem grows.1

    here_fits : start + sh_size m s ≤ im.total
    here_fits =
        omega (arith, after_least n (i + 1) (start + sh_size m s) m im.shdrs rest-Grows, rest_fits)

    stepped-Holds : Holds im m stepped i start
    stepped-Holds =
        place_section-Holds im m w i start same (omega arith) here_fits
          (in_file i (omega arith) alloc)

    stepped_other :
        (a : ℕ)
        → NotField im i 1 a
        → (a < im.base + start) ⊎ (im.base + start + sh_size m s ≤ a)
        → stepped a ≡ w a
    stepped_other =
        place_section_other im m w i start same (omega arith) here_fits
          (in_file i (omega arith) alloc)

    stepped-SameFile : SameFile im m stepped
    stepped-SameFile a lo hi h =
        let c = im.apart in
        let d = here_fits in
        stepped_other a (λ j lo' hi'. h j (omega arith) (omega arith)) (omega arith)
        ∙ same a lo hi h

    join-Placed :
        (w' : Memory)
        → Placed im m n (i + 1) (start + sh_size m s) stepped w'
        → Placed im m (suc n) i offset w w'
    unfolding offset_after
    join-Placed w' p = record {
      same = p.same;
      other = λ a h out.
          let out' : (a < im.base + offset)
              ⊎ (im.base + offset_after n (i + 1) (start + sh_size m s) m im.shdrs ≤ a) =
            subst
              (λ x. (a < im.base + offset) ⊎ (im.base + offset_after n (i + 1) x m im.shdrs ≤ a))
              next_lem out in
          let g = no_wrap in
          let after = after_least n (i + 1) (start + sh_size m s) m im.shdrs rest-Grows in
          p.other a (λ j lo hi. h j (omega arith) (omega arith)) (omega (arith, g, out', after))
          ∙ stepped_other a (λ j lo hi. h j (omega arith) (omega arith))
              (omega (arith, g, out', after));
      holds = λ j k e lt al. cases j k e lt al;
    }
      where
        kept_here : Holds im m w' i start
        kept_here =
            let a = im.from in
            let b = im.inside in
            let c = im.apart in
            let d = rest_fits in
            let f = here_fits in
            let after = after_least n (i + 1) (start + sh_size m s) m im.shdrs rest-Grows in
            Holds-kept im m stepped w' i start stepped-Holds
              (λ x lo hi. p.other x (λ j lo' hi'. omega arith) (omega arith))
              (λ x lo hi. p.other x (λ j lo' hi'. omega arith) (omega arith))

        cases :
            (j k : ℕ)
            → j ≡ i + k
            → k < suc n
            → is_alloc m (shdr im.shdrs j) ≡ true
            → Holds im m w' j (start_at m (shdr im.shdrs j) (offset_after k i offset m im.shdrs))
        cases j zero e lt al =
            subst (λ x. Holds im m w' x (start_at m (shdr im.shdrs x) offset)) (omega (arith, e))
              kept_here
        cases j (suc k) e lt al =
            subst
              (λ x.
                Holds im m w' j
                  (start_at m (shdr im.shdrs j) (offset_after k (i + 1) x m im.shdrs)))
              (sym next_lem) (p.holds j k (omega (arith, e)) (omega arith) al)

    -- The loop goes on with the next section, after this one.
    unroll :
        (fuel : ℕ)
        → ltb i (e_shnum w im.file_buffer) ≡ true
        → place_sections (suc fuel) i offset im.shdrs im.file_buffer im.base w
          ≡ place_sections fuel
              (i + 1)
              (start + sh_size m s)
              im.shdrs
              im.file_buffer
              im.base
              stepped
    unfolding place_sections
    unroll fuel more =
        let h = file-SameHeader im m w i same (omega arith) in
        let h' = file-SameHeader im m stepped i stepped-SameFile (omega arith) in
        let al : is_alloc w s ≡ true = ap (λ x. low_bits (shr x 1) 1 == 1) h.flags ∙ alloc in
        let g = no_wrap in
        rw (more, al, h.align)
          (rw h'.size (
            ap (λ x. place_sections fuel (i + 1) x im.shdrs im.file_buffer im.base stepped)
              (omega (arith, g))))

  pub place_sections-Placed :
      (n fuel i offset : ℕ) (w : Memory)
      → n < fuel
      → i + n ≡ im.shnum
      → e_shnum w im.file_buffer ≡ im.shnum
      → SameFile im m w
      → Grows n i offset m im.shdrs
      → offset_after n i offset m im.shdrs ≤ im.total
      → InFile im m
      → Ends
          (Placed im m n i offset w)
          (place_sections fuel i offset im.shdrs im.file_buffer im.base w)
  unfolding place_sections Grows offset_after
  place_sections-Placed n zero i offset w enough below count same grows fits in_file =
      absurd (omega arith)
  place_sections-Placed zero (suc fuel) i offset w enough below count same grows fits in_file =
      let stop : ltb i (e_shnum w im.file_buffer) ≡ false = rw count (ground arith) in
      rw stop (record {
        same = same;
        other = λ a h out. refl;
        holds = λ j k e lt al. absurd (omega arith);
      })
  place_sections-Placed (suc n) (suc fuel) i offset w enough below count same grows fits in_file =
      go (λ o v c. place_sections-Placed n fuel (i + 1) o v (omega arith) (omega arith) c)
    where
      s : ℕ
      s = shdr im.shdrs i

      more : ltb i (e_shnum w im.file_buffer) ≡ true
      more = rw count (ground arith)

      Rest : Type 0
      Rest =
          (o : ℕ) (v : Memory)
          → e_shnum v im.file_buffer ≡ im.shnum
          → SameFile im m v
          → Grows n (i + 1) o m im.shdrs
          → offset_after n (i + 1) o m im.shdrs ≤ im.total
          → InFile im m
          → Ends (Placed im m n (i + 1) o v)
              (place_sections fuel (i + 1) o im.shdrs im.file_buffer im.base v)

      go :
          Rest
          → Ends
              (Placed im m (suc n) i offset w)
              (place_sections (suc fuel) i offset im.shdrs im.file_buffer im.base w)
      go rest = elim (Bool-cases (is_alloc m s)) [
        | inl alloc ↦
            let le : i + suc n ≤ im.shnum = omega arith in
            let now = stepped-SameFile n i offset w le same grows fits in_file alloc in
            rw (unroll n i offset w le same grows fits in_file alloc fuel more) (
              Ends-mono _ (join-Placed n i offset w le same grows fits in_file alloc) (
                rest _ _
                  (file_count im m _ now (omega arith)
                    ∙ sym (file_count im m w same (omega arith))
                    ∙ count)
                  now (rest-Grows n i offset w le same grows fits in_file alloc)
                  (rest_fits n i offset w le same grows fits in_file alloc) in_file))
        | inr skipped ↦
            let h = file-SameHeader im m w i same (omega arith) in
            let pass : is_alloc w s ≡ false =
              ap (λ x. low_bits (shr x 1) 1 == 1) h.flags ∙ skipped in
            let e : next_offset m s offset ≡ offset = rw (next_offset, skipped) in
            rw (more, pass)
              (Ends-mono _ (λ w' p. skip-Placed im m n i offset w w' skipped p)
                (rest offset w count same (subst (λ x. Grows n (i + 1) x m im.shdrs) e grows.1)
                  (subst (λ x. offset_after n (i + 1) x m im.shdrs ≤ im.total) e fits) in_file))
      ]
