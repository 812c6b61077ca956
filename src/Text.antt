-- ===== src/Text.antt =====
-- Go strings as lists of ASCII bytes, with the functions of the standard packages `strings` and
-- `unicode` that the program calls. On ASCII text a byte is a rune.
mod Base
mod Trim
mod Order
mod Words
unfoldable pub use Base.*
unfoldable pub use Trim.*
unfoldable pub use Order.*
unfoldable pub use Words.*
