-- ===== src/Flipper/Files.antt =====
-- Lab 3/flipper.c: what a run leaves in the files.
use operating_systems_course.Common.{
  ◌≡◌, ◌≢◌, refl, ap, ◌∙◌, true, false, some, List, [], ◌∷◌, ◌++◌, Bool-cases, Option-cases, inl,
  inr, length, take_self, Bytes, codes, str_eq, str_eq_iff, str_eq_refl, reverse, arith,
}
use operating_systems_course.Flipper.Defs.{
  FileSystem, write_file, truncate_file, reverse_loop, reverse_opened, reverse_file, has_substring,
  entry_path, flip_entries,
}
use operating_systems_course.Flipper.Swap.{reverse_loop_lem}

str_eq_ne : (s t : Bytes) → s ≢ t → str_eq s t ≡ false
str_eq_ne s t h = ground (arith, str_eq_iff s t)

reverse_whole :
    (source : Bytes)
    → reverse_loop (length source) source (length source) [] ≡ some (reverse source)
reverse_whole source =
    reverse_loop_lem (length source) source (length source) [] (omega arith) (omega arith)
    ∙ ap (λ t. some (reverse t)) (take_self (length source) source (omega arith))

reverse_opened_lem :
    (src dest : Bytes) (fs : FileSystem) (bytes : Bytes)
    → fs.content src ≡ some bytes
    → reverse_opened src dest fs ≡ some (write_file dest (reverse bytes) fs)
unfolding reverse_opened
reverse_opened_lem src dest fs bytes e = rw (e, reverse_opened, reverse_whole bytes)

reverse_file-opened :
    (src dest : Bytes) (fs : FileSystem) (bytes : Bytes)
    → fs.content src ≡ some bytes
    → fs.writable dest ≡ true
    → reverse_file src dest fs ≡ reverse_opened src dest (write_file dest [] fs)
unfolding reverse_file
reverse_file-opened src dest fs bytes e w = rw (e, w, reverse_file)

-- A readable file and another that can be written: the second then holds the bytes of the first in
-- reverse, whatever their number, and no other file has changed.
pub reverse_file_lem :
    (src dest path : Bytes) (fs : FileSystem) (bytes : Bytes)
    → src ≢ dest
    → path ≢ dest
    → fs.content src ≡ some bytes
    → fs.writable dest ≡ true
    → (fs' : FileSystem) × (reverse_file src dest fs ≡ some fs')
      × (fs'.content dest ≡ some (reverse bytes))
      × (fs'.content path ≡ fs.content path)
reverse_file_lem src dest path fs bytes ne np e w = (
  write_file dest (reverse bytes) (write_file dest [] fs),
  reverse_file-opened src dest fs bytes e w
      ∙ reverse_opened_lem src dest (write_file dest [] fs) bytes (rw (str_eq_ne src dest ne) e),
  rw (str_eq_refl dest),
  rw (str_eq_ne path dest np),
)

-- With the source as its own destination the file is emptied.
pub reverse_file_in_place :
    (path : Bytes) (fs : FileSystem) (bytes : Bytes)
    → fs.content path ≡ some bytes
    → fs.writable path ≡ true
    → (fs' : FileSystem) × (reverse_file path path fs ≡ some fs') × (fs'.content path ≡ some [])
reverse_file_in_place path fs bytes e w = (
  write_file path [] (write_file path [] fs),
  reverse_file-opened path path fs bytes e w
      ∙ reverse_opened_lem path path (write_file path [] fs) [] (rw (str_eq_refl path)),
  rw (str_eq_refl path),
)

-- What a call does to one other path, on every branch.
record Kept (path : Bytes) (fs fs' : FileSystem) : Type 0 where
  content : fs'.content path ≡ fs.content path
  writable : fs'.writable ≡ fs.writable

written-Kept :
    (dest path bytes : Bytes) (fs : FileSystem)
    → path ≢ dest
    → Kept path fs (write_file dest bytes fs)
written-Kept dest path bytes fs ne = record {
  content = rw (str_eq_ne path dest ne);
  writable = refl;
}

truncated-Kept :
    (dest path : Bytes) (fs : FileSystem) → path ≢ dest → Kept path fs (truncate_file dest fs)
truncated-Kept dest path fs ne = elim (Bool-cases (fs.writable dest)) [
  | inl w ↦ rw w (written-Kept dest path [] fs ne)
  | inr w ↦ rw w (record { content = refl; writable = refl })
]

opened_content :
    (src dest : Bytes) (fs : FileSystem) (bytes : Bytes)
    → fs.content src ≡ some bytes
    → (left : Bytes) × ((write_file dest [] fs).content src ≡ some left)
opened_content src dest fs bytes e = elim (Bool-cases (str_eq src dest)) [
  | inl same ↦ ([], rw same)
  | inr other ↦ (bytes, rw other e)
]

-- A call always ends, and touches no path but its destination.
reverse_file_keeps :
    (src dest path : Bytes) (fs : FileSystem)
    → path ≢ dest
    → (fs' : FileSystem) × (reverse_file src dest fs ≡ some fs') × Kept path fs fs'
unfolding reverse_file
reverse_file_keeps src dest path fs ne = elim (Option-cases (fs.content src)) [
  | inl n ↦ (truncate_file dest fs, rw (n, reverse_file), truncated-Kept dest path fs ne)
  | inr (bytes, e) ↦ elim (Bool-cases (fs.writable dest)) [
    | inl w ↦
        let (left, e') = opened_content src dest fs bytes e in
        (
          write_file dest (reverse left) (write_file dest [] fs),
          reverse_file-opened src dest fs bytes e w
              ∙ reverse_opened_lem src dest (write_file dest [] fs) left e',
          record { content = rw (str_eq_ne path dest ne); writable = refl },
        )
    | inr w ↦ (fs, rw (e, w, reverse_file), record { content = refl; writable = refl })
  ]
]

module _ (input output : Bytes) where
  -- No file of these names is written to that path.
  abbrev pub Apart : Bytes → List Bytes → Type 0
  Apart path [] = Unit
  Apart path (name ∷ names) = (path ≢ entry_path output name) × Apart path names

  flip_entries_keeps :
      (names : List Bytes) (path : Bytes) (fs : FileSystem)
      → Apart path names
      → (fs' : FileSystem) × (flip_entries input output names fs ≡ some fs') × Kept path fs fs'
  unfolding flip_entries
  flip_entries_keeps [] path fs a = (fs, refl, record { content = refl; writable = refl })
  flip_entries_keeps (name ∷ names) path fs a =
      elim (Bool-cases (has_substring (codes ".txt") name)) [
        | inl text ↦
            let (fs', e, k) =
              reverse_file_keeps (entry_path input name) (entry_path output name) path fs a.0 in
            let (fs'', e', k') = flip_entries_keeps names path fs' a.1 in
            (
              fs'',
              rw (text, e, e', flip_entries),
              record { content = k'.content ∙ k.content; writable = k'.writable ∙ k.writable },
            )
        | inr other ↦
            let (fs', e, k) = flip_entries_keeps names path fs a.1 in
            (fs', rw (other, e, flip_entries), k)
      ]

  -- The run over a directory ends. A text file of it that can be read and whose destination can be
  -- written is there in reverse, if its own path is neither its destination nor that of an entry
  -- before it, and its destination is not that of an entry behind it.
  pub flip_entries_lem :
      (before after : List Bytes) (name : Bytes) (fs : FileSystem) (bytes : Bytes)
      → has_substring (codes ".txt") name ≡ true
      → entry_path input name ≢ entry_path output name
      → Apart (entry_path input name) before
      → Apart (entry_path output name) after
      → fs.content (entry_path input name) ≡ some bytes
      → fs.writable (entry_path output name) ≡ true
      → (fs' : FileSystem) × (flip_entries input output (before ++ name ∷ after) fs ≡ some fs')
        × (fs'.content (entry_path output name) ≡ some (reverse bytes))
  unfolding flip_entries
  flip_entries_lem [] after name fs bytes text ne b a e w =
      let (fs', e', c, k) =
        reverse_file_lem (entry_path input name) (entry_path output name) (entry_path input name) fs
          bytes ne ne e w in
      let (fs'', e'', k') = flip_entries_keeps after (entry_path output name) fs' a in
      (fs'', rw (text, e', e'', flip_entries), k'.content ∙ c)
  flip_entries_lem (first ∷ before) after name fs bytes text ne b a e w =
      elim (Bool-cases (has_substring (codes ".txt") first)) [
        | inl first_text ↦
            let (fs', e', k) =
              reverse_file_keeps (entry_path input first) (entry_path output first)
                (entry_path input name) fs b.0 in
            let (fs'', e'', c) =
              flip_entries_lem before after name fs' bytes text ne b.1 a (k.content ∙ e)
                (ap (λ f. f (entry_path output name)) k.writable ∙ w) in
            (fs'', rw (first_text, e', e'', flip_entries), c)
        | inr other ↦
            let (fs', e', c) = flip_entries_lem before after name fs bytes text ne b.1 a e w in
            (fs', rw (other, e', flip_entries), c)
      ]
