-- ===== src/Str.antt =====
-- src/core/ngx_string.c: bounded formatting of numbers, strings and formats.
pub mod Num
pub mod Copy
pub mod Format
mod Tests
