-- ===== src/Core/Double.antt =====
-- The operations of `double` that the sources use: the compiler's and <cmath>'s, so a parameter.
use jam_n.Prelude.{ℕ, Bool}
use jam_n.Prelude.Int.{ℤ}

pub record Double : Type 1 where
  pub carrier : Type 0
  -- A literal: its digits, and how many of them stand behind the point.
  pub decimal : ℕ → ℕ → carrier
  -- static_cast, to and from an integer type.
  pub of_int : ℤ → carrier
  pub to_int : carrier → ℤ
  pub add : carrier → carrier → carrier
  pub sub : carrier → carrier → carrier
  pub mul : carrier → carrier → carrier
  pub div : carrier → carrier → carrier
  pub less : carrier → carrier → Bool
  pub less_equal : carrier → carrier → Bool
  pub equal : carrier → carrier → Bool
  pub sqrt : carrier → carrier
  pub log : carrier → carrier
  pub exp : carrier → carrier
  pub ceil : carrier → carrier
  -- std::llround
  pub round : carrier → ℤ
