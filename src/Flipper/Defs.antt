-- ===== src/Flipper/Defs.antt =====
-- Lab 3/flipper.c: `reverse_file` and the loop of `main`.
use operating_systems_course.Common.{
  ℕ, zero, suc, ◌+◌, ◌-◌, ◌/◌, Bool, ◌||◌, Option, none, some, List, [], ◌∷◌, ◌++◌, leb, ◌==◌,
  if◌then◌else◌, length, get_or, set, take, drop, Bytes, codes, starts_with, snprintf, str_eq,
}

abbrev pub chunk_size : ℕ
chunk_size = 1024

-- The body of the inner loop: the bytes at `i` and at `j` change places.
unfoldable pub swap : ℕ → ℕ → Bytes → Bytes
swap i j buffer = set (set buffer i (get_or buffer j 0)) j (get_or buffer i 0)

-- `for (i …; i < read_size / 2; i++)`, with the number of rounds left.
unfoldable pub swap_loop : ℕ → ℕ → ℕ → Bytes → Bytes
swap_loop zero i read_size buffer = buffer
swap_loop (suc rounds) i read_size buffer =
    swap_loop rounds (i + 1) read_size (swap i (read_size - 1 - i) buffer)

unfoldable pub reverse_buffer : ℕ → Bytes → Bytes
reverse_buffer read_size buffer = swap_loop (read_size / 2) 0 read_size buffer

abbrev pub read_size_at : ℕ → ℕ
read_size_at at = if leb chunk_size at then chunk_size else at

-- `fseek(fsrc, at, SEEK_SET); fread(buffer, 1, n, fsrc)`
abbrev pub read_at : Bytes → ℕ → ℕ → Bytes
read_at source at n = take n (drop at source)

-- `while (pos > 0)` on fuel; the last argument is what has been written.
unfoldable pub reverse_loop : ℕ → Bytes → ℕ → Bytes → Option Bytes
reverse_loop zero source at out = if at == 0 then some out else none
reverse_loop (suc fuel) source at out =
    let n = read_size_at at in
    let rest =
      reverse_loop fuel source (at - n) (out ++ reverse_buffer n (read_at source (at - n) n)) in
    if at == 0 then some out else rest

-- A file system: the bytes of each file that can be read, and which paths can be written.
pub record FileSystem : Type 0 where
  pub content : Bytes → Option Bytes
  pub writable : Bytes → Bool

abbrev pub write_file : Bytes → Bytes → FileSystem → FileSystem
write_file path bytes fs = record fs {
  content = λ p. if str_eq p path then some bytes else fs.content p;
}

-- `fopen(dest, "w")` empties the file.
abbrev pub truncate_file : Bytes → FileSystem → FileSystem
truncate_file path fs = if fs.writable path then write_file path [] fs else fs

-- Behind the two calls of `fopen`. The size is taken after the destination was emptied.
unfoldable pub reverse_opened : Bytes → Bytes → FileSystem → Option FileSystem
reverse_opened src dest fs = elim (fs.content src) [
  | none ↦ none
  | some source ↦ elim (reverse_loop (length source) source (length source) []) [
    | none ↦ none
    | some out ↦ some (write_file dest out fs)
  ]
]

-- `none` means that the loop did not end on its fuel.
unfoldable pub reverse_file : Bytes → Bytes → FileSystem → Option FileSystem
reverse_file src dest fs = elim (fs.content src) [
  | none ↦ some (truncate_file dest fs)
  | some _ ↦ if fs.writable dest then reverse_opened src dest (truncate_file dest fs) else some fs
]

-- `strstr(hay, needle)` is not NULL.
abbrev pub has_substring : Bytes → Bytes → Bool
has_substring needle [] = starts_with needle []
has_substring needle (c ∷ hay) = starts_with needle (c ∷ hay) || has_substring needle hay

abbrev pub path_max : ℕ
path_max = 4096

-- `snprintf(path, sizeof(path), "%s/%s", directory, name)`
unfoldable pub entry_path : Bytes → Bytes → Bytes
entry_path directory name = snprintf path_max (directory ++ (codes "/" ++ name))

-- The loop of `main` over the names that `readdir` gives.
unfoldable pub flip_entries : Bytes → Bytes → List Bytes → FileSystem → Option FileSystem
flip_entries input output [] fs = some fs
flip_entries input output (name ∷ names) fs =
    if has_substring (codes ".txt") name
    then elim (reverse_file (entry_path input name) (entry_path output name) fs) [
      | none ↦ none
      | some fs' ↦ flip_entries input output names fs'
    ]
    else flip_entries input output names fs
