-- ===== src/Fs/Initramfs/Build/Tests.antt =====
-- An archive of one file in a directory.
use miyabi.Base.{ℕ, ◌+◌, ◌*◌, ◌≡◌, refl, arith, inl, inr, [], ◌∷◌, ◌==◌, if◌then◌else◌}
use miyabi.Base.Run.{Ends}
use miyabi.Base.Search.{first_from}
use miyabi.Fs.Initramfs.{
  oct2bin, skip_blanks, read_digits, sanitize_path, tar_match_name, match_clean, is_slash,
}
use miyabi.Fs.Initramfs.Build.{
  TarHeader, Heap, Build, add_node, make_node, has_dir, ensure_from, ensure_parent_dirs_exist,
  read_archive, init_initramfs, zero_node,
}
use miyabi.Fs.Initramfs.Build.Table.{IsTable, Built, EndsWithin, init_initramfs-Built}

-- The file "a/b", of 5 bytes, at 4096; the archive ends at 5120.
abbrev archive : ℕ → TarHeader
archive header =
    if header == 4096
    then record { filename = 97 ∷ 47 ∷ 98 ∷ []; size = 53 ∷ []; typeflag = 48 }
    else record { filename = []; size = []; typeflag = 0 }

abbrev heap : Heap
heap = record {
  State = ℕ;
  kmalloc = λ s. (65536 + 256 * s, s + 1);
  ramfs_finddir = 1000;
  ramfs_read = 2000;
}

abbrev start : Build heap
start = record {
  ramfs = record { ramfs_nodes = λ i. 0; ramfs_node_count = 0; ramfs_root = 0; names = λ a. [] };
  nodes = λ a. zero_node;
  heap = 0;
}

start-IsTable : IsTable heap start
start-IsTable = record { bound = omega arith; nodes = λ i lt. absurd (omega arith) }

archive-EndsWithin : EndsWithin 2 archive 4096
unfolding EndsWithin oct2bin skip_blanks read_digits
archive-EndsWithin = inr (inl refl)

init_initramfs-Built_example :
    Ends {A = ℕ × Build heap} (Built heap start) (init_initramfs heap 2 archive 4096 start)
init_initramfs-Built_example =
    init_initramfs-Built heap 2 archive 4096 start start-IsTable archive-EndsWithin

-- The directory "a" and the file are in the table, the file with its length and its data.
built :
    Ends {A = ℕ × Build heap}
      (λ r.
        (r.1.ramfs.ramfs_node_count ≡ 2)
        × (r.1.ramfs.names (r.1.ramfs.ramfs_nodes 0) ≡ 97 ∷ [])
        × ((r.1.nodes (r.1.ramfs.ramfs_nodes 1)).length ≡ 5)
        × ((r.1.nodes (r.1.ramfs.ramfs_nodes 1)).ptr ≡ 4608))
      (init_initramfs heap 2 archive 4096 start)
unfolding init_initramfs read_archive ensure_parent_dirs_exist ensure_from make_node add_node
    has_dir first_from oct2bin skip_blanks read_digits sanitize_path tar_match_name match_clean
    is_slash
built = (refl, refl, refl, refl)
