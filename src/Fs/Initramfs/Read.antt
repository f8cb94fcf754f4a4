-- ===== src/Fs/Initramfs/Read.antt =====
-- `ramfs_read` copies the part of the file that there is.
use miyabi.Base.{
  ℕ, ◌+◌, ◌-◌, ◌^◌, ◌≤◌, ◌<◌, ◌≡◌, ◌≢◌, ◌⊎◌, refl, arith, false, leb, ltb, ◌==◌, if◌then◌else◌, inl,
  inr, Bool-cases, u64, ap,
}
use miyabi.Cstring.{Memory, copy_from}
use miyabi.Cstring.Copy.{copy_from_before, copy_from_byte}
use miyabi.Fs.Vfs.{Node}
use miyabi.Fs.Initramfs.{ramfs_read}

-- `size` bytes of the file from `offset` on, as far as the file goes.
abbrev pub available : ℕ → ℕ → ℕ → ℕ
available length size offset = if ltb (length - offset) size then length - offset else size

available_le : (length size offset : ℕ) → available length size offset ≤ size
available_le length size offset = ground arith

ramfs_read-available :
    (nodes : ℕ → Node) (node buffer size offset : ℕ) (memory : Memory)
    → node ≢ 0
    → buffer ≢ 0
    → offset + size < 2 ^ 64
    → ramfs_read nodes node buffer size offset memory ≡ (
      available (nodes node).length size offset,
      copy_from
          (available (nodes node).length size offset)
          0
          buffer
          ((nodes node).ptr + offset)
          memory,
    )
unfolding ramfs_read copy_from
ramfs_read-available nodes node buffer size offset memory nz bz fits =
    let a : (node == 0) ≡ false = ground arith in
    let b : (buffer == 0) ≡ false = ground arith in
    elim (Bool-cases (leb (nodes node).length offset)) [
      | inl beyond ↦
          let z : available (nodes node).length size offset ≡ 0 = ground arith in
          rw (z, ramfs_read, a, b, beyond)
      | inr inside ↦
          let z : (if ltb (nodes node).length (u64 (offset + size))
                then (nodes node).length - offset
                else size)
              ≡ available (nodes node).length size offset =
            ground arith in
          rw (ramfs_read, a, b, inside)
            (ap (λ n. (n, copy_from n 0 buffer ((nodes node).ptr + offset) memory)) z)
    ]

-- For a node and a buffer, where offset and size do not run past 2^64 and the file's data does not
-- start below the buffer or ends before it, `ramfs_read` returns how many of the `size` bytes from
-- the offset on the file has, puts just these into the buffer, and changes no other byte.
pub ramfs_read_lem :
    (nodes : ℕ → Node) (node buffer size offset : ℕ) (memory : Memory)
    → node ≢ 0
    → buffer ≢ 0
    → offset + size < 2 ^ 64
    → (buffer ≤ (nodes node).ptr + offset) ⊎ ((nodes node).ptr + offset + size ≤ buffer)
    → ((ramfs_read nodes node buffer size offset memory).0
        ≡ available (nodes node).length size offset)
      × ((k : ℕ)
          → k < available (nodes node).length size offset
          → (ramfs_read nodes node buffer size offset memory).1 (buffer + k)
            ≡ memory ((nodes node).ptr + offset + k))
      × ((a : ℕ)
          → (a < buffer) ⊎ (buffer + available (nodes node).length size offset ≤ a)
          → (ramfs_read nodes node buffer size offset memory).1 a ≡ memory a)
ramfs_read_lem nodes node buffer size offset memory nz bz fits apart =
    rw (ramfs_read-available nodes node buffer size offset memory nz bz fits) (
      refl,
      (λ k lt.
          copy_from_byte _ 0 buffer ((nodes node).ptr + offset) memory k (omega (arith, within))
            (omega arith) (omega arith)),
      λ a out. copy_from_before _ 0 buffer ((nodes node).ptr + offset) memory a (omega arith),
    )
  where
    within : available (nodes node).length size offset ≤ size
    within = available_le (nodes node).length size offset
