-- ===== src/Config.antt =====
-- src/core/ngx_config.h: rounding an address up by a mask. `Align` shows that the operations of the
-- other modules, which divide and multiply, are this macro.
pub mod Align
mod Tests
use Prim.Native.Nat.{bit_and}
use nginx_inside_out.Prelude.{ℕ, ◌+◌, ◌-◌, ◌%◌, ◌^◌}

-- `~x`, of a 64-bit word
abbrev pub complement : ℕ → ℕ
complement x = 2 ^ 64 - 1 - x

-- ngx_align_ptr, `a` not 0
unfoldable pub align_ptr : (p a : ℕ) → ℕ
align_ptr p a = bit_and ((p + (a - 1)) % 2 ^ 64) (complement (a - 1))
