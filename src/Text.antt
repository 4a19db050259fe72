-- ===== src/Text.antt =====
-- Byte strings: what the source uses of Go's strings and of packages strings, strconv and filepath.
mod Basic
pub mod Space
mod Split
pub mod Number
mod Utf8
pub use Basic.{Bytes, codes, bytes_eq, bytes_eq_iff, bytes_eq_refl, is_empty}
pub use Split.{is_empty-join}
unfoldable pub use Basic.{has_prefix, contains, index_byte, last_index, to_upper, replace_all}
unfoldable pub use Space.{trim_space, fields}
unfoldable pub use Split.{split, split_n2, join}
unfoldable pub use Number.{atoi}
pub use Utf8.{all_valid}
unfoldable pub use Utf8.{valid_string}
