-- ===== src/Std.antt =====
-- What the client uses of Rust's standard library on bytes: UTF-8 validation, the parsing of signed
-- integers, slicing. The parsing of floats is a parameter (`FloatParse`): a float is its bit pattern.
pub mod Utf8
pub mod ParseInt
unfoldable pub use Utf8.*
unfoldable pub use ParseInt.*
pub use ParseInt.Range.{InRange, parse_signed-InRange}
use client_rust.Prelude.{Bytes, ℕ, Option}

-- `str::parse::<f32>` and `str::parse::<f64>`: `none` for a text that is no float.
pub record FloatParse : Type 0 where
  pub parse_f32 : Bytes → Option ℕ
  pub parse_f64 : Bytes → Option ℕ
