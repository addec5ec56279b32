-- ===== src/Flipper/Swap.antt =====
-- Lab 3/flipper.c: the swaps in the buffer reverse it, and the chunks reverse the file.
use mathlib.Core.List.{reverse-append, reverse-cons}
use operating_systems_course.Common.{
  ℕ, zero, suc, ◌+◌, ◌-◌, ◌/◌, ◌≤◌, ◌<◌, ◌≡◌, ◌≢◌, refl, sym, ap, ◌∙◌, ◌||◌, some, [], ◌∷◌, ◌++◌,
  leb, ltb, ◌==◌, if◌then◌else◌, get_or, set, take, drop, length, length-set, length-append, Bytes,
  reverse, arith, append_assoc, Bool-cases, inl, inr, append-nil, length-take, length-drop,
}
use operating_systems_course.Flipper.Defs.{
  swap, swap_loop, reverse_buffer, read_at, read_size_at, reverse_loop,
}

length-reverse : (xs : Bytes) → length (reverse xs) ≡ length xs
length-reverse [] = refl
length-reverse (x ∷ xs) =
    ap length (reverse-append (x ∷ []) xs)
    ∙ omega (arith, length-append (reverse xs) (reverse (x ∷ [])), length-reverse xs)

get_or-append :
    (xs ys : Bytes) (j : ℕ)
    → get_or (xs ++ ys) j 0
      ≡ (if ltb j (length xs) then get_or xs j 0 else get_or ys (j - length xs) 0)
get_or-append [] ys j = ground arith
get_or-append (x ∷ xs) ys zero = ground arith
get_or-append (x ∷ xs) ys (suc j) = ground (arith, get_or-append xs ys j)

get_or-cons : (x : ℕ) (xs : Bytes) (k : ℕ) → k ≢ 0 → get_or (x ∷ xs) k 0 ≡ get_or xs (k - 1) 0
get_or-cons x xs zero h = absurd (h refl)
get_or-cons x xs (suc k) h = ap (λ t. get_or xs t 0) (omega arith)

get_or-cons_zero : (x : ℕ) (xs : Bytes) (k : ℕ) → k ≡ 0 → get_or (x ∷ xs) k 0 ≡ x
get_or-cons_zero x xs zero h = refl
get_or-cons_zero x xs (suc k) h = absurd (omega arith)

get_or-reverse :
    (xs : Bytes) (j : ℕ) → j < length xs → get_or (reverse xs) j 0 ≡ get_or xs (length xs - 1 - j) 0
get_or-reverse [] j h = absurd (omega arith)
get_or-reverse (x ∷ xs) j h =
    ap (λ t. get_or t j 0) (reverse-cons x xs)
    ∙ ground (
      arith,
      get_or-append (reverse xs) (x ∷ []) j,
      length-reverse xs,
      get_or-reverse xs j,
      get_or-cons x xs (suc (length xs) - 1 - j),
      get_or-cons_zero x xs (suc (length xs) - 1 - j),
      get_or-cons_zero x [] (j - length (reverse xs)),
    )

get_or-set :
    (xs : Bytes) (i j v : ℕ)
    → i < length xs
    → get_or (set xs i v) j 0 ≡ (if i == j then v else get_or xs j 0)
get_or-set [] i j v h = absurd (omega arith)
get_or-set (x ∷ xs) zero zero v h = refl
get_or-set (x ∷ xs) zero (suc j) v h = ground arith
get_or-set (x ∷ xs) (suc i) zero v h = ground arith
get_or-set (x ∷ xs) (suc i) (suc j) v h = ground (arith, get_or-set xs i j v)

-- Lists are equal that have the same length and the same bytes.
eq_of_get_or :
    (xs ys : Bytes)
    → length xs ≡ length ys
    → ((j : ℕ) → j < length xs → get_or xs j 0 ≡ get_or ys j 0)
    → xs ≡ ys
eq_of_get_or [] [] e h = refl
eq_of_get_or [] (y ∷ ys) e h = absurd (omega arith)
eq_of_get_or (x ∷ xs) [] e h = absurd (omega arith)
eq_of_get_or (x ∷ xs) (y ∷ ys) e h =
    let t : xs ≡ ys = eq_of_get_or xs ys (omega arith) (λ j p. h (suc j) (omega arith)) in
    let z : x ≡ y = h 0 (omega arith) in cc

length-swap : (i j : ℕ) (xs : Bytes) → length (swap i j xs) ≡ length xs
unfolding swap
length-swap i j xs =
    length-set (set xs i (get_or xs j 0)) j (get_or xs i 0) ∙ length-set xs i (get_or xs j 0)

length-swap_loop : (rounds i n : ℕ) (xs : Bytes) → length (swap_loop rounds i n xs) ≡ length xs
unfolding swap_loop
length-swap_loop zero i n xs = refl
length-swap_loop (suc rounds) i n xs =
    length-swap_loop rounds (i + 1) n (swap i (n - 1 - i) xs) ∙ length-swap i (n - 1 - i) xs

-- At the middle byte both ends meet.
middle :
    (xs : Bytes) (n k : ℕ) → n / 2 ≤ k → k < n - n / 2 → get_or xs k 0 ≡ get_or xs (n - 1 - k) 0
middle xs n k p q = ap (λ t. get_or xs t 0) (omega arith)

get_or-swap :
    (i j k : ℕ) (xs : Bytes)
    → i < length xs
    → j < length xs
    → get_or (swap i j xs) k 0
      ≡ (if k == j then get_or xs i 0 else if k == i then get_or xs j 0 else get_or xs k 0)
unfolding swap
get_or-swap i j k xs p q = ground (
  arith,
  get_or-set (set xs i (get_or xs j 0)) j k (get_or xs i 0),
  get_or-set xs i k (get_or xs j 0),
  length-set xs i (get_or xs j 0),
)

-- The byte at `k` once `i` rounds have run over `n` bytes: outside the middle it is the mirrored one.
abbrev pub mirrored : Bytes → ℕ → ℕ → ℕ → ℕ
mirrored xs n i k = if ltb k i || leb (n - i) k then get_or xs (n - 1 - k) 0 else get_or xs k 0

swap_loop_mirrors :
    (xs buffer : Bytes) (n : ℕ) (rounds i : ℕ)
    → length buffer ≡ n
    → i + rounds ≡ n / 2
    → ((k : ℕ) → k < n → get_or buffer k 0 ≡ mirrored xs n i k)
    → (k : ℕ) → k < n
    → get_or (swap_loop rounds i n buffer) k 0 ≡ mirrored xs n (n / 2) k
unfolding swap_loop
swap_loop_mirrors xs buffer n zero i e f h k p =
    let f' : i ≡ n / 2 = omega arith in rw (← f') (h k p)
swap_loop_mirrors xs buffer n (suc rounds) i e f h k p =
    swap_loop_mirrors xs (swap i (n - 1 - i) buffer) n rounds (i + 1)
      (length-swap i (n - 1 - i) buffer ∙ e) (omega arith)
      (λ j q. ground (arith, get_or-swap i (n - 1 - i) j buffer, h j q, h i, h (n - 1 - i))) k p

-- The inner loop reverses the `n` bytes of the buffer.
reverse_buffer_lem : (xs : Bytes) (n : ℕ) → length xs ≡ n → reverse_buffer n xs ≡ reverse xs
unfolding reverse_buffer
reverse_buffer_lem xs n e =
    eq_of_get_or (swap_loop (n / 2) 0 n xs) (reverse xs)
      (length-swap_loop (n / 2) 0 n xs ∙ sym (length-reverse xs))
      (λ k p. ground (
        arith,
        swap_loop_mirrors xs xs n (n / 2) 0 e (omega arith) (λ j q. ground arith) k,
        length-swap_loop (n / 2) 0 n xs,
        get_or-reverse xs k,
        middle xs n k,
      ))

take-nil : (n : ℕ) → take {A = ℕ} n [] ≡ []
take-nil zero = refl
take-nil (suc n) = refl

take-add : (a b : ℕ) (xs : Bytes) → take (a + b) xs ≡ take a xs ++ take b (drop a xs)
take-add zero b xs = ap (λ t. take t xs) (omega arith)
take-add (suc a) b [] = let e : suc a + b ≡ suc (a + b) = omega arith in rw e (sym (take-nil b))
take-add (suc a) b (x ∷ xs) =
    let e : suc a + b ≡ suc (a + b) = omega arith in rw e (ap (λ t. x ∷ t) (take-add a b xs))

reverse_chunk :
    (source : Bytes) (at n : ℕ)
    → n ≤ at
    → reverse (take at source)
      ≡ reverse (read_at source (at - n) n) ++ reverse (take (at - n) source)
reverse_chunk source at n h =
    let e : at ≡ at - n + n = omega arith in
    ap (λ t. reverse (take t source)) e
    ∙ ap reverse (take-add (at - n) n source)
    ∙ reverse-append (take (at - n) source) (read_at source (at - n) n)

length-read_at :
    (source : Bytes) (at n : ℕ) → at + n ≤ length source → length (read_at source at n) ≡ n
length-read_at source at n h = omega (arith, length-take n (drop at source), length-drop at source)

reverse_loop_end :
    (source : Bytes) (at : ℕ) (out : Bytes) → at ≡ 0 → out ≡ out ++ reverse (take at source)
reverse_loop_end source at out e = rw e (sym (append-nil out))

-- Once it starts at or below the end of the file, with as much fuel, the loop ends, and has written
-- the bytes before its start in reverse.
pub reverse_loop_lem :
    (fuel : ℕ) (source : Bytes) (at : ℕ) (out : Bytes)
    → at ≤ fuel
    → at ≤ length source
    → reverse_loop fuel source at out ≡ some (out ++ reverse (take at source))
unfolding reverse_loop
reverse_loop_lem zero source at out f h =
    let e : at ≡ 0 = omega arith in ground (arith, reverse_loop_end source at out e)
reverse_loop_lem (suc fuel) source at out f h = elim (Bool-cases (at == 0)) [
  | inl e ↦ ground (arith, reverse_loop_end source at out)
  | inr e ↦
      let n = read_size_at at in
      let chunk = read_at source (at - n) n in
      let small : n ≤ at = ground arith in
      let pos : 0 < n = ground arith in
      rw e (
        reverse_loop_lem fuel source (at - n) (out ++ reverse_buffer n chunk) (omega arith)
          (omega arith)
        ∙ ap some (
            append_assoc out (reverse_buffer n chunk) (reverse (take (at - n) source))
            ∙ ap (λ t. out ++ t)
                (ap (λ t. t ++ reverse (take (at - n) source))
                    (reverse_buffer_lem chunk n (length-read_at source (at - n) n (omega arith)))
                  ∙ sym (reverse_chunk source at n small))))
]
