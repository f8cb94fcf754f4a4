-- ===== src/Modules/Loader/Load/Release.antt =====
-- `load_module` that returns NULL: the memory that it took for the module is given back.
use miyabi.Base.{
  ℕ, ◌+◌, ◌≡◌, ◌≢◌, ◌⊎◌, refl, arith, true, false, ◌||◌, ◌==◌, if◌then◌else◌, Option-cases, sym, ap,
  ◌∙◌, inl, inr, Bool-cases,
}
use miyabi.Base.Run.{Run, done, halted, stuck, ◌>>=◌}
use miyabi.Modules.Elf.{load, e_shnum, e_shoff, sh_offset}
use miyabi.Modules.Loader.{elf_validate}
use miyabi.Modules.Loader.Sections.{measure, place_sections}
use miyabi.Modules.Loader.Relocate.{find_symtab, find_strtab, File, relocate_sections}
use miyabi.Modules.Loader.Load.{
  Kernel, Machine, init, module_size, fill_module, discard, run_init, create_module, link_module,
  section_rounds, load_module,
}

halted_not_done {κ} : {B : Type κ} {b : B} → halted ≡ done b → ⊥
halted_not_done h = cc

stuck_not_done {κ} : {B : Type κ} {b : B} → stuck ≡ done b → ⊥
stuck_not_done h = cc

bind_done {ℓ κ} :
    {A : Type ℓ} {B : Type κ} (x : Run A) (g : A → Run B) (b : B)
    → x >>= g ≡ done b
    → (a : A) × (x ≡ done a) × (g a ≡ done b)
bind_done (done a) g b e = (a, refl, e)
bind_done halted g b e = absurd (halted_not_done e)
bind_done stuck g b e = absurd (stuck_not_done e)

is_zero : (n : ℕ) → (n == 0) ≡ true → n ≡ 0
is_zero n h = ground arith

is_nonzero : (n : ℕ) → (n == 0) ≡ false → n ≢ 0
is_nonzero n h = ground arith

result {ℓ} : {A : Type ℓ} {x y : A} → done x ≡ done y → x ≡ y
result e = cc

module _ (k : Kernel) where
  -- What became of the memory for the module: it was not taken, or there was none, or it was given
  -- back at once, or after there was none for the `kernel_module_t`.
  pub data Released (s s' : k.State) : Type 0 where
    untouched : s' ≡ s → Released s s'
    no_memory : (total : ℕ) → k.kmalloc total s ≡ done (0, s') → Released s s'
    freed :
        (total p : ℕ) (t : k.State)
        → k.kmalloc total s ≡ done (p, t)
        → p ≢ 0
        → k.kfree p t ≡ done s'
        → Released s s'
    freed_late :
        (total p : ℕ) (t u : k.State)
        → k.kmalloc total s ≡ done (p, t)
        → p ≢ 0
        → k.kmalloc module_size t ≡ done (0, u)
        → k.kfree p u ≡ done s'
        → Released s s'

  discard_state :
      (p : ℕ) (m : Machine k) (r : ℕ × Machine k)
      → discard k p m ≡ done r
      → k.kfree p m.state ≡ done r.1.state
  unfolding discard
  discard_state p m r e =
      let (s, freed_state, q) = bind_done _ _ _ e in
      freed_state ∙ ap done (ap (λ x. x.1.state) (result q))

  run_init_result : (a : ℕ) (m : Machine k) (r : ℕ × Machine k) → run_init k a m ≡ done r → a ≡ r.0
  unfolding run_init
  run_init_result a m r e = elim (Bool-cases (load 8 m.memory (init a) == 0)) [
    | inl z ↦ ap (λ x. x.0) (result (rw z at e))
    | inr z ↦
        let (s, called, q) =
          bind_done (k.call (load 8 m.memory (init a)) (m.memory, m.state))
            (λ v. done (a, record { memory = v.0; state = v.1 })) r (rw z at e) in
        ap (λ x. x.0) (result q)
  ]

  -- After the memory at `p` was taken: it is given back, if the result is NULL.
  abbrev Returned : ℕ → k.State → k.State → Type 0
  Returned p t s' =
      (k.kfree p t ≡ done s')
      ⊎ ((u : k.State) × (k.kmalloc module_size t ≡ done (0, u)) × (k.kfree p u ≡ done s'))

  create_module-Returned :
      (f : File) (name p total : ℕ) (m m' : Machine k)
      → create_module k f name p total m ≡ done (0, m')
      → Returned p m.state m'.state
  unfolding create_module
  create_module-Returned f name p total m m' e =
      let (r, allocated, q) =
        bind_done (k.kmalloc module_size m.state)
          (λ r.
            if r.0 == 0
            then discard k p (record m { state = r.1 })
            else run_init k r.0
                (record m { memory = fill_module f name r.0 p total m.memory; state = r.1 }))
          (0, m') e in
      elim (Bool-cases (r.0 == 0)) [
        | inl out ↦
            let z = is_zero r.0 out in
            inr (
              r.1,
              allocated ∙ ap (λ x. done (x, r.1)) z,
              discard_state p (record m { state = r.1 }) (0, m') (rw out at q),
            )
        | inr given ↦
            let z = run_init_result r.0 _ (0, m') (rw given at q) in absurd (is_nonzero r.0 given z)
      ]

  link_module-Returned :
      (name file_buffer file_size shdrs p total : ℕ) (m m' : Machine k)
      → link_module k name file_buffer file_size shdrs p total m ≡ done (0, m')
      → Returned p m.state m'.state
  unfolding link_module
  link_module-Returned name file_buffer file_size shdrs p total m m' e =
      elim (Option-cases (find_symtab shnum 0 shdrs m.memory)) [
        | inl no_table ↦ inl (discard_state p m (0, m') (rw (link_module, no_table) at e))
        | inr (symtab, found) ↦
            elim (Option-cases (find_strtab symtab shnum shdrs file_size m.memory)) [
              | inl no_strings ↦
                  inl (discard_state p m (0, m') (rw (link_module, found, no_strings) at e))
              | inr (strtab, found') ↦
                  elim (Option-cases
                    (relocate_sections shnum 0 k.symbols (file symtab strtab) m.memory)) [
                      | inl refused ↦ inl (
                          discard_state p m (0, m') (rw (link_module, found, found', refused) at e))
                      | inr (w, relocated) ↦
                          create_module-Returned (file symtab strtab) name p total
                            (record m { memory = w }) m'
                            (rw (link_module, found, found', relocated) at e)
                    ]
            ]
      ]
    where
      shnum : ℕ
      shnum = e_shnum m.memory file_buffer

      file : ℕ → ℕ → File
      file symtab strtab = record {
        file_buffer = file_buffer;
        file_size = file_size;
        shnum = shnum;
        shdrs = shdrs;
        symtab = symtab;
        strtab = strtab;
        syms = file_buffer + sh_offset m.memory symtab;
        strings = file_buffer + sh_offset m.memory strtab;
      }

  -- If `load_module` returns NULL, the heap is as before, or it had no memory for the module, or
  -- the memory that it gave for the module was given back to it.
  pub load_module-Released :
      (name file_buffer file_size : ℕ) (m m' : Machine k)
      → load_module k name file_buffer file_size m ≡ done (0, m')
      → Released m.state m'.state
  unfolding load_module
  load_module-Released name file_buffer file_size m m' e =
      elim (Bool-cases (name == 0 || file_buffer == 0)) [
        | inl null ↦ untouched (sym (ap (λ x. x.1.state) (result (rw null at e))))
        | inr given ↦ elim (Bool-cases (elf_validate m.memory file_buffer file_size)) [
          | inr bad ↦ untouched (sym (ap (λ x. x.1.state) (result (rw (given, bad) at e))))
          | inl good ↦ elim (Option-cases (measure shnum 0 0 m.memory shdrs file_size)) [
            | inl outside ↦
                untouched
                  (sym (ap (λ x. x.1.state) (result (rw (load_module, given, good, outside) at e))))
            | inr (total, sum) ↦
                let (r, allocated, q) =
                  bind_done (k.kmalloc total m.state)
                    (λ r.
                      if r.0 == 0
                      then done (0, record m { state = r.1 })
                      else (place_sections (section_rounds k) 0 0 shdrs file_buffer r.0 m.memory
                          >>= λ placed.
                              link_module k name file_buffer file_size shdrs r.0 total
                                (record { memory = placed; state = r.1 })))
                    (0, m') (rw (load_module, given, good, sum) at e) in
                elim (Bool-cases (r.0 == 0)) [
                  | inl out ↦
                      let z = is_zero r.0 out in
                      let same = ap {A = ℕ × Machine k} (λ x. x.1.state) (result (rw out at q)) in
                      no_memory total
                        (allocated ∙ ap (λ x. done (x, r.1)) z ∙ ap (λ x. done (0, x)) same)
                  | inr some_memory ↦
                      let (placed, ended, q') =
                        bind_done
                          (place_sections (section_rounds k) 0 0 shdrs file_buffer r.0 m.memory)
                          (λ placed.
                            link_module k name file_buffer file_size shdrs r.0 total
                              (record { memory = placed; state = r.1 }))
                          (0, m') (rw some_memory at q) in
                      elim (link_module-Returned name file_buffer file_size shdrs r.0 total
                        (record { memory = placed; state = r.1 }) m' q') [
                          | inl back ↦
                              freed total r.0 r.1 allocated (is_nonzero r.0 some_memory) back
                          | inr (u, none_left, back) ↦
                              freed_late total r.0 r.1 u allocated (is_nonzero r.0 some_memory)
                                none_left back
                        ]
                ]
          ]
        ]
      ]
    where
      shnum : ℕ
      shnum = e_shnum m.memory file_buffer

      shdrs : ℕ
      shdrs = file_buffer + e_shoff m.memory file_buffer
