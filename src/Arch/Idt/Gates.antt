-- ===== src/Arch/Idt/Gates.antt =====
-- Where the processor finds the handlers after `init_idt`.
use miyabi.Base.{
  ℕ, ◌+◌, ◌-◌, ◌*◌, ◌%◌, ◌^◌, ◌≡◌, ◌≢◌, refl, arith, Option, none, some, ◌==◌, if◌then◌else◌,
  update_self, update_ne, inl, inr, Bool-cases,
}
use miyabi.Arch.Idt.{IdtEntry, Handlers, Idt, idt_set_gate, init_idt}

-- The address that the processor puts together from an entry.
abbrev pub offset : IdtEntry → ℕ
offset e = e.offset_low + e.offset_mid * 2 ^ 16 + e.offset_high * 2 ^ 32

-- The handler of a vector and its gate, for the vectors that have one.
unfoldable pub handler_of : Handlers → ℕ → Option (ℕ × ℕ)
handler_of h v =
    if v == 128
    then some (h.isr128, 238)
    else (if v == 33
        then some (h.irq1, 142)
        else (if v == 32
            then some (h.irq0, 142)
            else (if v == 14
                then some (h.isr14, 142)
                else (if v == 13
                    then some (h.isr13, 142)
                    else (if v == 8
                        then some (h.isr8, 142)
                        else (if v == 0 then some (h.isr0, 142) else none))))))

-- The entry leads to the handler through the gate, on the kernel's code segment.
pub record LeadsTo (e : IdtEntry) (handler flags : ℕ) : Type 0 where
  pub address : offset e ≡ handler % 2 ^ 64
  pub gate : e.type_attr ≡ flags
  pub segment : e.selector ≡ 8
  pub stack : e.ist ≡ 0

-- What `init_idt` owes to a vector: its handler, or the entry that was there.
abbrev pub Right : Option (ℕ × ℕ) → IdtEntry → IdtEntry → Type 0
Right none old new = new ≡ old
Right (some (handler, flags)) old new = LeadsTo new handler flags

set_gate-LeadsTo :
    (v handler flags : ℕ) (idt : ℕ → IdtEntry)
    → LeadsTo (idt_set_gate v handler flags idt v) handler flags
unfolding idt_set_gate
set_gate-LeadsTo v handler flags idt =
    rw (update_self idt v)
      (record { address = omega arith; gate = refl; segment = refl; stack = refl })

set_gate_ne :
    (v w handler flags : ℕ) (idt : ℕ → IdtEntry)
    → v ≢ w
    → idt_set_gate v handler flags idt w ≡ idt w
unfolding idt_set_gate
set_gate_ne v w handler flags idt ne = update_ne idt v _ w ne

set_gate-Right :
    (w handler flags : ℕ) (idt : ℕ → IdtEntry) (v : ℕ) (rest : Option (ℕ × ℕ)) (old : IdtEntry)
    → Right rest old (idt v)
    → Right
        (if v == w then some (handler, flags) else rest)
        old
        (idt_set_gate w handler flags idt v)
set_gate-Right w handler flags idt v rest old r = elim (Bool-cases (v == w)) [
  | inl here ↦ let e : v ≡ w = ground arith in rw (here, e) (set_gate-LeadsTo w handler flags idt)
  | inr there ↦ let ne : w ≢ v = ground arith in rw (there, set_gate_ne w v handler flags idt ne) r
]

-- After `init_idt` the entry of each of the seven vectors 0, 8, 13, 14, 32, 33 and 128 leads to its
-- handler, whose address is put together whole from its three parts, through an interrupt gate, which
-- user code may call for vector 128 only; every other entry is as it was, and the limit and base that
-- the processor is given are those of the 256 entries.
pub init_idt_lem :
    (h : Handlers) (at : ℕ) (t : Idt)
    → ((v : ℕ) → Right (handler_of h v) (t.idt v) ((init_idt h at t).idt v))
      × ((init_idt h at t).limit ≡ 256 * 16 - 1)
      × ((init_idt h at t).base ≡ at)
unfolding init_idt handler_of
init_idt_lem h at t =
    let g0 = idt_set_gate 0 h.isr0 142 t.idt in
    let g8 = idt_set_gate 8 h.isr8 142 g0 in
    let g13 = idt_set_gate 13 h.isr13 142 g8 in
    let g14 = idt_set_gate 14 h.isr14 142 g13 in
    let g32 = idt_set_gate 32 h.irq0 142 g14 in
    let g33 = idt_set_gate 33 h.irq1 142 g32 in
    (
      (λ v. set_gate-Right 128 h.isr128 238 g33 v _ _ (
          set_gate-Right 33 h.irq1 142 g32 v _ _ (
            set_gate-Right 32 h.irq0 142 g14 v _ _ (
              set_gate-Right 14 h.isr14 142 g13 v _ _ (
                set_gate-Right 13 h.isr13 142 g8 v _ _ (
                  set_gate-Right 8 h.isr8 142 g0 v _ _
                    (set_gate-Right 0 h.isr0 142 t.idt v none (t.idt v) refl))))))),
      refl,
      refl,
    )
