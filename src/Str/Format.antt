-- ===== src/Str/Format.antt =====
-- src/core/ngx_string.c, ngx_vslprintf. `Spec` parses the modifiers of a directive, `Number` and
-- `Directive` its type letter, `Loop` is the loop over the format.
pub mod Spec
pub mod Number
pub mod Directive
pub mod Loop
pub mod Left
pub mod Advance
pub mod Bounds
pub mod Items
pub mod Render
pub mod Cut
