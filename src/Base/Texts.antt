-- ===== src/Base/Texts.antt =====
-- Go's `strings` package, as far as the program uses it, over native texts. Positions and lengths
-- are those of the UTF-8 bytes. `to_lower` and `to_upper` change the ASCII letters only.
mod Trim
mod Split
mod Letters
pub mod Decimal
pub mod Cases
pub mod Numerals
mod Equal
mod Words
unfoldable pub use Trim.{is_space, trim_left, trim_right, trim_space}
pub use Trim.*
unfoldable pub use Split.{split, join, fields, fields_from}
pub use Split.*
unfoldable pub use Letters.{lower_char, upper_char, to_lower, to_upper, replace_char}
pub use Letters.*
pub use Equal.*
pub use Words.*
