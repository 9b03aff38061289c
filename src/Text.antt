-- ===== src/Text.antt =====
-- Go strings and byte slices as lists of bytes, with what the program calls of the packages
-- `strings` and `bytes`. Case folding and trimming are written out for ASCII; for other texts they
-- are the parameter `Unicode`.
mod Ops
pub mod Find
pub mod Affix
pub mod Utf8
unfoldable pub use Ops.*
