-- ===== src/Collatz/Printing.antt =====
-- Lab 2: what the client prints of the Collatz sequence.
use operating_systems_course.Common.{ℕ, zero, suc, ◌+◌, List, [], ◌∷◌, ℤ, pos}
use operating_systems_course.Collatz.Steps.{iterate}

-- c numbers of the sequence of n, from the i-th on.
abbrev pub trajectory : ℕ → ℕ → ℕ → List ℤ
trajectory n i zero = []
trajectory n i (suc c) = pos (iterate i n) ∷ trajectory n (i + 1) c
