-- ===== src/Cmdline/Collect.antt =====
-- What `read_boot_cmdline` leaves in the table of boot modules.
use miyabi.Base.{
  ℕ, zero, suc, ◌≤◌, ◌<◌, ◌≡◌, refl, arith, true, false, ◌&&◌, some, List, [], ◌∷◌, ◌++◌, ltb, ◌==◌,
  if◌then◌else◌, length, length-append, drop, All, sym, ap, ◌∙◌, inl, inr, Bool-cases,
}
use mathlib.Core.List.{append_assoc, append-nil}
use miyabi.Base.Run.{Run, done, halted, stuck, Ends, Ends-mono, ◌>>=◌}
use miyabi.Cmdline.{
  is_module_argument, max_boot_modules, max_boot_module_path, skip_spaces, read_argument,
  add_module, collect_boot_modules, check_flag, debug_flag, Options, read_boot_cmdline,
}

-- At most 16 paths, each of which has characters and leaves room for its zero.
pub record Fits (boot_modules : List (List ℕ)) : Type 0 where
  pub count : length boot_modules ≤ max_boot_modules
  pub paths : All (λ path. (0 < length path) × (length path < max_boot_module_path)) boot_modules

-- The paths `new` are those of `old` and some more, and fit.
pub record Collected (old new : List (List ℕ)) : Type 0 where
  pub more : List (List ℕ)
  pub split : new ≡ old ++ more
  pub fits : Fits new

All-snoc :
    (P : List ℕ → Type 0) (xs : List (List ℕ)) (y : List ℕ) → All P xs → P y → All P (xs ++ y ∷ [])
All-snoc P [] y h p = (p, tt)
All-snoc P (x ∷ xs) y h p = (h.0, All-snoc P xs y h.1 p)

length-drop : (n : ℕ) (xs : List ℕ) → n < length xs → 0 < length (drop n xs)
length-drop zero xs h = h
length-drop (suc n) [] h = absurd (omega arith)
length-drop (suc n) (x ∷ xs) h = length-drop n xs (omega arith)

add_module-Collected :
    (arg : List ℕ) (mods : List (List ℕ)) → Fits mods → Collected mods (add_module arg mods)
unfolding add_module is_module_argument
add_module-Collected arg mods f =
    elim (Bool-cases (is_module_argument arg && ltb (length mods) max_boot_modules)) [
      | inr left ↦ rw (add_module, left) unchanged
      | inl taken ↦ elim (Bool-cases (ltb (length (drop 6 arg)) max_boot_module_path)) [
        | inr long ↦ rw (add_module, taken, long) unchanged
        | inl short ↦
            rw (add_module, taken, short)
              (record {
                more = drop 6 arg ∷ [];
                split = refl;
                fits = record {
                  count = room taken;
                  paths =
                      All-snoc _ mods (drop 6 arg) f.paths
                        (length-drop 6 arg (longer taken), ground arith);
                };
              })
      ]
    ]
  where
    unchanged : Collected mods mods
    unchanged = record { more = []; split = sym (append-nil mods); fits = f }

    longer : (is_module_argument arg && ltb (length mods) max_boot_modules) ≡ true → 6 < length arg
    longer taken = ground arith

    room :
        (is_module_argument arg && ltb (length mods) max_boot_modules) ≡ true
        → length (mods ++ drop 6 arg ∷ []) ≤ max_boot_modules
    room taken =
        let lt : length mods < 16 = ground arith in
        omega (arith, length-append {0} mods (drop 6 arg ∷ []))

length-read_argument : (cs : List ℕ) → length (read_argument cs).1 ≤ length cs
unfolding read_argument
length-read_argument [] = omega arith
length-read_argument (c ∷ cs) = elim (Bool-cases (c == 32)) [
  | inl space ↦ rw space (omega arith)
  | inr other ↦ rw other (omega (arith, length-read_argument cs))
]

-- What is left of a text without its first spaces.
record Skipped (arg : List ℕ) (c : ℕ) (cs : List ℕ) : Type 0 where
  other : (c == 32) ≡ false
  shorter : length (c ∷ cs) ≤ length arg

skipped : (arg : List ℕ) (c : ℕ) (cs : List ℕ) → skip_spaces arg ≡ c ∷ cs → Skipped arg c cs
unfolding skip_spaces
skipped [] c cs e = absurd (cc)
skipped (x ∷ xs) c cs e = elim (Bool-cases (x == 32)) [
  | inl space ↦
      let s = skipped xs c cs (sym (rw (skip_spaces, space)) ∙ e) in
      record { other = s.other; shorter = omega (arith, s.shorter) }
  | inr other ↦
      let same : x ∷ xs ≡ c ∷ cs = sym (rw (skip_spaces, other)) ∙ e in
      let head : x ≡ c = cc same in
      record { other = rw (sym head) other; shorter = omega (arith, ap length same) }
]

rest_shorter :
    (arg : List ℕ) (c : ℕ) (cs : List ℕ)
    → skip_spaces arg ≡ c ∷ cs
    → length (read_argument (c ∷ cs)).1 < length arg
unfolding read_argument
rest_shorter arg c cs e =
    let s = skipped arg c cs e in rw s.other (omega (arith, s.shorter, length-read_argument cs))

Collected-trans : {a b c : List (List ℕ)} → Collected a b → Collected b c → Collected a c
Collected-trans {a} r s = record {
  more = r.more ++ s.more;
  split = s.split ∙ ap (λ t. t ++ s.more) r.split ∙ append_assoc a r.more s.more;
  fits = s.fits;
}

collect-Collected :
    (n : ℕ) (arg : List ℕ) (mods : List (List ℕ))
    → Fits mods
    → length arg < n
    → Ends (Collected mods) (collect_boot_modules n arg mods)
unfolding collect_boot_modules
collect-Collected zero arg mods f fuel = absurd (omega arith)
collect-Collected (suc n) arg mods f fuel =
    go (λ a m. collect-Collected n a m) (skip_spaces arg) refl
  where
    Before : Type 0
    Before =
        (a : List ℕ) (m : List (List ℕ))
        → Fits m
        → length a < n
        → Ends (Collected m) (collect_boot_modules n a m)

    go :
        Before
        → (skip : List ℕ) → skip_spaces arg ≡ skip
        → Ends (Collected mods) (collect_boot_modules (suc n) arg mods)
    go before [] e =
        rw (collect_boot_modules, e) (record { more = []; split = sym (append-nil mods); fits = f })
    go before (c ∷ cs) e =
        let first = add_module-Collected (read_argument (c ∷ cs)).0 mods f in
        rw (collect_boot_modules, e)
          (Ends-mono
            (collect_boot_modules n (read_argument (c ∷ cs)).1
              (add_module (read_argument (c ∷ cs)).0 mods))
            (λ new r. Collected-trans first r)
            (before (read_argument (c ∷ cs)).1 _ first.fits
              (omega (arith, rest_shorter arg c cs e))))

-- From at most 16 module paths that fit their places, and with more rounds than the command line has
-- characters, `read_boot_cmdline` ends: the paths stay and others may follow, there are at most 16,
-- and each has at least one character and at most 127; and debug output is on if it was on or the
-- line has the flag "--debug", and off otherwise.
pub read_boot_cmdline_lem :
    (n : ℕ) (cmdline : List ℕ) (s : Options)
    → Fits s.boot_modules
    → length cmdline < n
    → Ends {A = Options}
        (λ t.
          Collected s.boot_modules t.boot_modules
          × (t.debug ≡ (if check_flag cmdline debug_flag then true else s.debug)))
        (read_boot_cmdline n (some cmdline) s)
unfolding read_boot_cmdline
read_boot_cmdline_lem n cmdline s f fuel =
    finish (collect_boot_modules n cmdline s.boot_modules)
      (collect-Collected n cmdline s.boot_modules f fuel)
  where
    finish :
        (e : Run (List (List ℕ)))
        → Ends (Collected s.boot_modules) e
        → Ends {A = Options}
            (λ t.
              Collected s.boot_modules t.boot_modules
              × (t.debug ≡ (if check_flag cmdline debug_flag then true else s.debug)))
            (e >>= λ boot_modules. done (record {
              debug = if check_flag cmdline debug_flag then true else s.debug;
              boot_modules = boot_modules;
            }))
    finish (done new) c = (c, refl)
    finish halted c = c
    finish stuck c = c
