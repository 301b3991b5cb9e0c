-- ===== src/Floats.antt =====
-- The floating-point numbers of the C++ code, which compares ratios of token counts. They are a
-- parameter: a type with the operations that the code uses. No file of the repository defines them.
use llama_go.Base.{ℕ, ◌*◌, ◌/◌, Bool, ltb, if◌then◌else◌}

pub record Floats : Type 1 where
  pub Float : Type 0
  pub of_nat : ℕ → Float
  pub div : Float → Float → Float
  pub mul : Float → Float → Float
  pub lt : Float → Float → Bool
  -- The conversion to size_t, which truncates.
  pub to_nat : Float → ℕ
  pub zero_f : Float
  pub quarter : Float
  pub half : Float
  pub one : Float
  pub two_fifths : Float

-- std::max
pub max_f : (fl : Floats) → fl.Float → fl.Float → fl.Float
max_f fl a b = if fl.lt a b then b else a

-- Fixed-point numbers in units of 1/1000 have all the operations.
abbrev pub thousandths : Floats
thousandths = record {
  Float = ℕ;
  of_nat = λ n. 1000 * n;
  div = λ a b. 1000 * a / b;
  mul = λ a b. a * b / 1000;
  lt = ltb;
  to_nat = λ n. n / 1000;
  zero_f = 0;
  quarter = 250;
  half = 500;
  one = 1000;
  two_fifths = 400;
}
