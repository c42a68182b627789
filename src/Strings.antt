-- ===== src/Strings.antt =====
-- The parts of Rust's `str` that the program calls, over lists of code points.
mod Trim
pub use Trim.*
mod Defs
pub mod Split
pub mod Splits
pub mod Decimal
unfoldable pub use Defs.{
  is_whitespace, trim_start, trim_end, str_trim, is_prefix, head_or_empty, lines, first_line, join,
  contains, ascii_lower,
}
