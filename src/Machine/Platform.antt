-- ===== src/Machine/Platform.antt =====
-- What crates/llmvm/src/vm.rs and crates/llmbc/src/value.rs use of the arithmetic on `f64` and of
-- the tables of Unicode: parameters of the model. An `f64` is the number of its 64 bits.
use boruna.Prelude.{ℕ, String, Option}
use boruna.Prelude.Int.{ℤ}

pub record Platform : Type 0 where
  pub add : ℕ → ℕ → ℕ
  pub sub : ℕ → ℕ → ℕ
  pub mul : ℕ → ℕ → ℕ
  pub div : ℕ → ℕ → ℕ
  pub of_int : ℤ → ℕ
  pub show_float : ℕ → String
  pub parse_float : String → Option ℕ
  pub to_uppercase : String → String
  pub to_lowercase : String → String
