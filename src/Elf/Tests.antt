-- ===== src/Elf/Tests.antt =====
-- The loader of programs at small inputs.
use miyabi.Base.{ℕ, ◌+◌, ◌*◌, ◌%◌, ◌≡◌, refl, arith, ◌==◌, if◌then◌else◌}
use miyabi.Base.Run.{done, Ends}
use miyabi.Modules.Elf.{Memory, load}
use miyabi.Elf.Loader.{Segment, Pager, fill_page, load_segments, elf_load}
use miyabi.Elf.Loader.Page.{HoldsPage, fill_page-HoldsPage}

-- Five bytes of the file, from its byte 16 on, at the address 8200.
abbrev segment : Segment
segment = record { vaddr = 8200; memsz = 100; filesz = 5; offset = 16 }

abbrev bytes : Memory
bytes a = a % 256

fill_page-HoldsPage_example :
    HoldsPage 4096 segment 8192 65536 bytes (fill_page 4096 segment 8192 65536 bytes)
fill_page-HoldsPage_example =
    fill_page-HoldsPage 4096 segment 8192 65536 bytes (omega arith) (omega arith) (omega arith)
      (omega arith)

-- Pages from 2 ^ 20 on, and page tables that are not looked at.
abbrev pager : Pager
pager = record {
  State = ℕ;
  pmm_alloc = λ s. (1048576 + 4096 * s, s + 1);
  vmm_map_page = λ virt phys flags s. done s;
}

-- A file that does not begin as an ELF file is refused.
refused :
    Ends
      (λ r. (r.0 ≡ 0) × (r.1.state ≡ 7))
      (elf_load pager 65536 4096 (record { memory = bytes; state = 7 }))
unfolding elf_load
refused = (refl, refl)

-- The first bytes of an executable without segments, whose entry is 42.
abbrev header : Memory
header a =
    if a == 4096
    then 127
    else (if a == 4097
        then 69
        else (if a == 4098
            then 76
            else (if a == 4099
                then 70
                else (if a == 4112
                    then 2
                    else (if a == 4114 then 62 else (if a == 4120 then 42 else 0))))))

accepted : Ends (λ r. r.0 ≡ 42) (elf_load pager 65536 4096 (record { memory = header; state = 0 }))
unfolding elf_load load_segments load
accepted = refl
