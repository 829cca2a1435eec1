-- ===== src/Itoa.antt =====
-- The crate `itoa`, which is not part of the repository: the decimal text of an integer. Its documented
-- behaviour is that of Rust's `Display`: the digits of a number read back to it, and a negative number
-- is a minus sign before the digits of its absolute value.
pub mod Decimal
use client_rust.Prelude.{ℕ, ◌+◌, ◌≡◌, Bytes, ◌∷◌, some}
use client_rust.Std.{ℤ, pos, negsuc, parse_magnitude}

pub record Itoa : Type 0 where
  pub format : ℕ → Bytes
  pub format_signed : ℤ → Bytes
  pub format_value : (n : ℕ) → parse_magnitude (format n) ≡ some n
  pub format_pos : (n : ℕ) → format_signed (pos n) ≡ format n
  pub format_negsuc : (n : ℕ) → format_signed (negsuc n) ≡ b'-' ∷ format (n + 1)
