-- ===== src/Str/Format/Loop.antt =====
-- src/core/ngx_string.c, ngx_vslprintf: the loop over the format. It runs on fuel; the length of the
-- format is enough.
use nginx_inside_out.Prelude.{
  ℕ, zero, suc, ◌+◌, ◌&&◌, not, List, [], ◌∷◌, ◌++◌, ltb, ◌==◌, if◌then◌else◌, length,
}
use nginx_inside_out.Str.Num.{Bytes}
use nginx_inside_out.Str.Format.Spec.{Arg}
use nginx_inside_out.Str.Format.Directive.{DoubleOps, wrote, fault, round}

-- The bytes written, or how the run went wrong.
pub data Formatted : Type 0 where
  done : Bytes → Formatted
  faulted : Formatted
  no_fuel : Formatted

abbrev pub written : Bytes → Formatted → Formatted
written out (done more) = done (out ++ more)
written out faulted = faulted
written out no_fuel = no_fuel

module _ {Double : Type 0} (ops : DoubleOps Double) where
  -- `while (*fmt && buf < last) { … }`
  unfoldable pub format_loop : (fuel buf last : ℕ) → Bytes → List (Arg Double) → Formatted
  format_loop zero buf last fmt args = no_fuel
  format_loop (suc fuel) buf last [] args = faulted
  format_loop (suc fuel) buf last (c ∷ fmt) args =
      let more : Formatted = elim (round ops buf last c args fmt) [
        | wrote out fmt' args' ↦ written out (format_loop fuel (buf + length out) last fmt' args')
        | fault ↦ faulted
      ] in
      if not (c == 0) && ltb buf last then more else done []

  unfoldable pub vslprintf : (buf last : ℕ) → Bytes → List (Arg Double) → Formatted
  unfolding format_loop
  vslprintf buf last fmt args = format_loop (suc (length fmt)) buf last fmt args
