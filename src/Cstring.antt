-- ===== src/Cstring.antt =====
-- src/lib/string.c. A `char *` is an address of the byte store `memory`; a text is the list of
-- its characters before the terminating zero. The loops over texts run on fuel.
pub mod Text
pub mod Copy
mod Tests
use miyabi.Base.{
  ℕ, zero, suc, ◌+◌, ◌*◌, ◌<◌, ◌%◌, ◌^◌, Bool, true, false, not, ◌&&◌, List, [], ◌∷◌, ◌==◌,
  if◌then◌else◌, update, u8,
}
use miyabi.Base.Int.{ℤ, pos, sub_ℕ}
use miyabi.Base.Run.{Run, done, stuck, ◌>>=◌}

abbrev pub Memory : Type 0
Memory = ℕ → ℕ

-- The loop of `memcpy`, `n` bytes before its end.
unfoldable pub copy_from : ℕ → ℕ → ℕ → ℕ → Memory → Memory
copy_from zero i dest src memory = memory
copy_from (suc n) i dest src memory =
    copy_from n (i + 1) dest src (update memory (dest + i) (memory (src + i)))

-- `void *memcpy(void *dest, const void *src, size_t n)`
unfoldable pub memcpy : ℕ → ℕ → ℕ → Memory → ℕ × Memory
memcpy dest src n memory = (dest, copy_from n 0 dest src memory)

unfoldable pub set_from : ℕ → ℕ → ℕ → ℕ → Memory → Memory
set_from zero i s c memory = memory
set_from (suc n) i s c memory = set_from n (i + 1) s c (update memory (s + i) (u8 c))

-- `void *memset(void *s, int c, size_t n)`
unfoldable pub memset : ℕ → ℕ → ℕ → Memory → ℕ × Memory
memset s c n memory = (s, set_from n 0 s c memory)

-- `while (s[len]) len++;`
unfoldable pub strlen_from : ℕ → ℕ → ℕ → Memory → Run ℕ
strlen_from zero len s memory = stuck
strlen_from (suc n) len s memory =
    let rest = strlen_from n (len + 1) s memory in if memory (s + len) == 0 then done len else rest

-- `size_t strlen(const char *s)`
unfoldable pub strlen : ℕ → ℕ → Memory → Run ℕ
strlen n s memory = strlen_from n 0 s memory

-- `int strcmp(const char *s1, const char *s2)`
unfoldable pub strcmp : ℕ → ℕ → ℕ → Memory → Run ℤ
strcmp zero s1 s2 memory = stuck
strcmp (suc n) s1 s2 memory =
    let rest = strcmp n (s1 + 1) (s2 + 1) memory in
    if not (memory s1 == 0) && memory s1 == memory s2
    then rest
    else done (sub_ℕ (memory s1) (memory s2))

-- `while ((*dest++ = *src++));`
unfoldable pub strcpy_from : ℕ → ℕ → ℕ → Memory → Run Memory
strcpy_from zero dest src memory = stuck
strcpy_from (suc n) dest src memory =
    let written = update memory dest (memory src) in
    let rest = strcpy_from n (dest + 1) (src + 1) written in
    if memory src == 0 then done written else rest

-- `char *strcpy(char *dest, const char *src)`
unfoldable pub strcpy : ℕ → ℕ → ℕ → Memory → Run (ℕ × Memory)
unfolding strcpy_from
strcpy n dest src memory = strcpy_from n dest src memory >>= λ written. done (dest, written)

-- The same comparison on texts, as the callers of `strcmp` and of its copies see it.
unfoldable pub compare_texts : List ℕ → List ℕ → ℤ
compare_texts [] [] = pos 0
compare_texts [] (y ∷ ys) = sub_ℕ 0 y
compare_texts (x ∷ xs) [] = sub_ℕ x 0
compare_texts (x ∷ xs) (y ∷ ys) = if x == y then compare_texts xs ys else sub_ℕ x y

-- `strcmp(a, b) == 0`
unfoldable pub same_text : List ℕ → List ℕ → Bool
same_text xs ys = elim (compare_texts xs ys) [ pos n ↦ n == 0 | _ ↦ false ]
