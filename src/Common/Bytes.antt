-- ===== src/Common/Bytes.antt =====
-- Byte strings as lists of numbers below 256: slices, in-place writes into a buffer, the integers of
-- Python's `struct` in both byte orders, equality, and the cut of a string into pieces of one size.
mod Slices
mod Words
mod Pieces
mod Equality
mod Ascii
pub use Slices.*
pub use Words.*
unfoldable pub use Pieces.{pieces_fuel, pieces}
pub use Pieces.{HasLength, join-pieces, pieces-join, length-join, pieces-HasLength}
unfoldable pub use Equality.{bytes_eq, contains}
pub use Equality.{bytes_eq_iff, Absent, Distinct, contains_iff}
pub use Ascii.*
