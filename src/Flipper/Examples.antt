-- ===== src/Flipper/Examples.antt =====
-- Lab 3/flipper.c on concrete files.
use operating_systems_course.Common.{
  ne_of_str_eq, ◌≡◌, refl, true, none, some, [], ◌∷◌, ◌++◌, if◌then◌else◌, codes, str_eq,
}
use operating_systems_course.Flipper.Defs.{
  FileSystem, swap, swap_loop, reverse_buffer, reverse_file, entry_path, flip_entries,
}
use operating_systems_course.Flipper.Files.{reverse_file_in_place, flip_entries_lem}

-- One file to read, and every path can be written.
abbrev disk : FileSystem
disk = record {
  content = λ p. if str_eq p (codes "in/a.txt") then some (codes "art.") else none;
  writable = λ p. true;
}

reversed_odd : reverse_buffer 5 (codes "abcde") ≡ codes "edcba"
unfolding reverse_buffer swap_loop swap
reversed_odd = refl

reverse_file_in_place_example :
    (fs' : FileSystem) × (reverse_file (codes "in/a.txt") (codes "in/a.txt") disk ≡ some fs')
    × (fs'.content (codes "in/a.txt") ≡ some [])
reverse_file_in_place_example =
    reverse_file_in_place (codes "in/a.txt") disk (codes "art.") refl refl

flip_entries_lem_example :
    (fs' : FileSystem) × (flip_entries
        (codes "in")
        (codes "out")
        ((codes ".." ∷ []) ++ codes "a.txt" ∷ codes "b.jpg" ∷ [])
        disk
      ≡ some fs')
    × (fs'.content (entry_path (codes "out") (codes "a.txt")) ≡ some (codes ".tra"))
unfolding entry_path
flip_entries_lem_example =
    flip_entries_lem (codes "in") (codes "out") (codes ".." ∷ []) (codes "b.jpg" ∷ [])
      (codes "a.txt") disk (codes "art.") refl (ne_of_str_eq _ _ refl) (ne_of_str_eq _ _ refl, tt)
      (ne_of_str_eq _ _ refl, tt) refl refl
