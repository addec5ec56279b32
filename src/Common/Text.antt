-- ===== src/Common/Text.antt =====
-- C strings as lists of bytes, and what the programs use of <string.h> and of snprintf.
use Prim.Native.Nat.{ℕ, ◌-◌, ◌≤◌}
use Prim.Native.Char.{code}
use Prim.Native.String.{String}
use mathlib.Core.Path.{◌≡◌, refl}
use mathlib.Core.Logic.{◌↔◌, ◌≢◌}
use mathlib.Core.Bool.{Bool, true, false, ◌&&◌, ◌||◌}
use mathlib.Core.Option.{Option, none, some}
use mathlib.Core.List.{List, [], ◌∷◌, ◌++◌}
use native.Mathlib.Omega.{arith}
use operating_systems_course.Common.Tests.{◌==◌, if◌then◌else◌}
use operating_systems_course.Common.Lists.{length, take, drop, length-take}

abbrev pub Bytes : Type 0
Bytes = List ℕ

-- The bytes of a literal in ASCII.
abbrev pub codes : String → Bytes
codes String.[] = []
codes (String.◌∷◌ c s) = code c ∷ codes s

-- The string that a buffer holds: its bytes up to the first NUL.
abbrev pub c_str : Bytes → Bytes
c_str [] = []
c_str (c ∷ s) = if c == 0 then [] else c ∷ c_str s

-- `strcmp(a, b) == 0`
abbrev pub str_eq : Bytes → Bytes → Bool
str_eq [] [] = true
str_eq [] (d ∷ t) = false
str_eq (c ∷ s) [] = false
str_eq (c ∷ s) (d ∷ t) = c == d && str_eq s t

-- `strncmp(s, p, strlen(p)) == 0`
abbrev pub starts_with : Bytes → Bytes → Bool
starts_with [] s = true
starts_with (c ∷ p) [] = false
starts_with (c ∷ p) (d ∷ s) = c == d && starts_with p s

abbrev pub contains : Bytes → ℕ → Bool
contains [] c = false
contains (d ∷ ds) c = d == c || contains ds c

-- The first loop of `strtok`: over the delimiters at the start.
abbrev pub skip_delims : Bytes → Bytes → Bytes
skip_delims ds [] = []
skip_delims ds (c ∷ s) = if contains ds c then skip_delims ds s else c ∷ s

-- The second: the token, and the string behind the delimiter that ends it.
abbrev pub split_token : Bytes → Bytes → Bytes × Bytes
split_token ds [] = ([], [])
split_token ds (c ∷ s) =
    let (t, r) = split_token ds s in if contains ds c then ([], s) else (c ∷ t, r)

-- `strtok(s, ds)`, with the string that a later `strtok(NULL, …)` goes on with. `none` is NULL.
unfoldable pub strtok : Bytes → Bytes → Option (Bytes × Bytes)
strtok ds s = elim (skip_delims ds s) [ [] ↦ none | c ∷ r ↦ some (split_token ds (c ∷ r)) ]

-- What `snprintf(buf, n, …)` leaves in `buf` when the formatted text is `s`.
abbrev pub snprintf : ℕ → Bytes → Bytes
snprintf n s = take (n - 1) s

pub str_eq_iff : (s t : Bytes) → (str_eq s t ≡ true) ↔ (s ≡ t)
str_eq_iff [] [] = (λ _. refl, λ _. refl)
str_eq_iff [] (d ∷ t) = ground arith
str_eq_iff (c ∷ s) [] = ground arith
str_eq_iff (c ∷ s) (d ∷ t) = ground (arith, str_eq_iff s t)

pub str_eq_refl : (s : Bytes) → str_eq s s ≡ true
str_eq_refl s = (str_eq_iff s s).1 refl

pub ne_of_str_eq : (s t : Bytes) → str_eq s t ≡ false → s ≢ t
ne_of_str_eq s t h e = ground (arith, str_eq_iff s t)

pub length-snprintf : (n : ℕ) (s : Bytes) → length (snprintf n s) ≤ n - 1
length-snprintf n s = omega (arith, length-take (n - 1) s)

pub starts_with-append : (p s : Bytes) → starts_with p (p ++ s) ≡ true
starts_with-append [] s = refl
starts_with-append (c ∷ p) s = ground (arith, starts_with-append p s)

-- With no delimiters `strtok` takes the whole string, unless it is empty.
pub split_token-all : (s : Bytes) → split_token [] s ≡ (s, [])
split_token-all [] = refl
split_token-all (c ∷ s) = rw (split_token-all s)

-- No byte of the string is a delimiter.
abbrev pub Avoids : Bytes → Bytes → Type 0
Avoids ds [] = Unit
Avoids ds (c ∷ s) = (contains ds c ≡ false) × Avoids ds s

pub split_token-append :
    (ds t r : Bytes) (d : ℕ)
    → contains ds d ≡ true
    → Avoids ds t
    → split_token ds (t ++ d ∷ r) ≡ (t, r)
split_token-append ds [] r d h a = rw h
split_token-append ds (c ∷ t) r d h a = ground (arith, split_token-append ds t r d)

-- `strtok` at a first token that is not empty and ends at a delimiter.
pub strtok-append :
    (ds : Bytes) (c : ℕ) (t r : Bytes) (d : ℕ)
    → contains ds d ≡ true
    → Avoids ds (c ∷ t)
    → strtok ds ((c ∷ t) ++ d ∷ r) ≡ some (c ∷ t, r)
unfolding strtok
strtok-append ds c t r d h a = ground (arith, split_token-append ds t r d)

-- `strtok(s, "")`
pub strtok-all : (c : ℕ) (s : Bytes) → strtok [] (c ∷ s) ≡ some (c ∷ s, [])
unfolding strtok
strtok-all c s = rw (split_token-all s)

-- Nothing in a string is NUL.
abbrev pub IsText : Bytes → Type 0
IsText [] = Unit
IsText (c ∷ s) = ((c == 0) ≡ false) × IsText s

pub c_str-IsText : (s : Bytes) → IsText (c_str s)
c_str-IsText [] = tt
c_str-IsText (c ∷ s) = ground (arith, c_str-IsText s)

pub c_str_self : (s : Bytes) → IsText s → c_str s ≡ s
c_str_self [] h = refl
c_str_self (c ∷ s) h = ground (arith, c_str_self s)

pub drop_prefix-append : (p s : Bytes) → drop (length p) (p ++ s) ≡ s
drop_prefix-append [] s = refl
drop_prefix-append (c ∷ p) s = drop_prefix-append p s
