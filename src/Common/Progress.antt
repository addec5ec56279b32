-- ===== src/Common/Progress.antt =====
-- Runs that can be brought to an end, by a measure of the work that is left.
use Prim.Native.Nat.{ℕ, zero, suc, ◌≤◌, ◌<◌}
use mathlib.Core.Path.{◌≡◌}
use mathlib.Core.Logic.{◌⊎◌, inl, inr}
use mathlib.Core.List.{List, [], ◌∷◌}
use native.Mathlib.Omega.{arith}

module _ {S T : Type 0} (step : T → S → S) (run : List T → S → S)
    (run_none : (s : S) → run [] s ≡ s)
    (run_more : (t : T) (turns : List T) (s : S) → run (t ∷ turns) s ≡ run turns (step t s))
    (work : S → ℕ) (Good Ended : S → Type 0) (keeps : (t : T) (s : S) → Good s → Good (step t s))
    (goes_on : (s : S) → Good s → ((t : T) × (work (step t s) < work s)) ⊎ Ended s) where
  ends_within : (n : ℕ) (s : S) → work s ≤ n → Good s → (more : List T) × Ended (run more s)
  ends_within zero s h v = elim (goes_on s v) [
    | inl (t, less) ↦ absurd (omega (arith, h, less))
    | inr ended ↦ ([], rw (run_none s) ended)
  ]
  ends_within (suc n) s h v = elim (goes_on s v) [
    | inl (t, less) ↦
        let (more, ended) = ends_within n (step t s) (omega (arith, h, less)) (keeps t s v) in
        (t ∷ more, rw (run_more t more s) ended)
    | inr ended ↦ ([], rw (run_none s) ended)
  ]

  -- If every good state has ended or has a turn that leaves less work, then it can be brought to an
  -- end.
  pub can_end : (s : S) → Good s → (more : List T) × Ended (run more s)
  can_end s v = ends_within (work s) s (omega arith) v
