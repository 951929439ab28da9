-- ===== src/Prelude/Bytes.antt =====
-- Go's strings: sequences of bytes, with equality, UTF-8 decoding and `strings.TrimSpace`.
mod Equality
mod Utf8
mod Space
unfoldable pub use Equality.*
unfoldable pub use Utf8.*
unfoldable pub use Space.*
