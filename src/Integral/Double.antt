-- ===== src/Integral/Double.antt =====
-- All that the programs of Lab 6 and Lab 9 do with a `double`.
use operating_systems_course.Common.{ℕ, ◌+◌, ◌*◌, ◌/◌, Bool, ltb, ℤ, pos, negsuc}

pub record Double {ℓ} (W : Type ℓ) : Type ℓ where
  pub add : W → W → W
  pub mul : W → W → W
  pub div : W → W → W
  pub less : W → W → Bool
  pub of_int : ℤ → W

-- `(double)n` for a number that is not negative.
abbrev pub number {ℓ} : {W : Type ℓ} ⦃d : Double W⦄ → ℕ → W
number ⦃d⦄ n = d.of_int (pos n)

-- Thousandths, cut: numbers that the programs can run on in the examples.
abbrev pub thousandths : Double ℕ
thousandths = record {
  add = λ a b. a + b;
  mul = λ a b. a * b / 1000;
  div = λ a b. a * 1000 / b;
  less = ltb;
  of_int = λ z. elim z [ pos n ↦ n * 1000 | negsuc n ↦ 0 ];
}
