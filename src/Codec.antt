-- ===== src/Codec.antt =====
-- What the program uses of Go's encoding/base64, fmt and strconv.
pub mod Base64
pub mod Decimal
pub mod Utf8
