-- ===== src/Str/Format/Bounds.antt =====
-- src/core/ngx_string.c, ngx_vslprintf: the loop over the format ends, and writes inside the buffer.
use nginx_inside_out.Prelude.{
  ℕ, zero, suc, ◌+◌, ◌-◌, ◌≤◌, ◌<◌, ◌≡◌, inl, inr, ◌&&◌, not, List, [], ◌∷◌, arith, ltb, ◌==◌,
  Bool-cases, length, length-append,
}
use nginx_inside_out.Str.Num.{Bytes}
use nginx_inside_out.Str.Format.Spec.{Arg}
use nginx_inside_out.Str.Format.Directive.{DoubleOps, Round, wrote, fault, round}
use nginx_inside_out.Str.Format.Loop.{
  Formatted, done, faulted, no_fuel, written, format_loop, vslprintf,
}
use nginx_inside_out.Str.Format.Advance.{Advances, round-Advances}

-- The run ended by itself and wrote at most `room` bytes, or it met a fault.
abbrev pub Fits : ℕ → Formatted → Type 0
Fits room (done out) = length out ≤ room
Fits room faulted = Unit {0}
Fits room no_fuel = ⊥

written-Fits :
    (out : Bytes) (room : ℕ) (r : Formatted)
    → length out ≤ room
    → Fits (room - length out) r
    → Fits room (written out r)
written-Fits out room (done more) h i = omega (arith, length-append out more)
written-Fits out room faulted h i = tt
written-Fits out room no_fuel h i = absurd i

module _ {Double : Type 0} (ops : DoubleOps Double) where
  format_loop-Fits :
      (fuel buf last : ℕ) (fmt : Bytes) (args : List (Arg Double))
      → length fmt < fuel
      → buf ≤ last
      → Fits (last - buf) (format_loop ops fuel buf last fmt args)
  unfolding format_loop
  format_loop-Fits zero buf last fmt args h i = absurd (omega arith)
  format_loop-Fits (suc fuel) buf last [] args h i = tt
  format_loop-Fits (suc fuel) buf last (c ∷ fmt) args h i =
      elim (Bool-cases (not (c == 0) && ltb buf last)) [
        | inl more ↦ rw more (
            split (round ops buf last c args fmt) (round-Advances ops (ground arith) c args fmt)
              (λ buf' fmt' args'. format_loop-Fits fuel buf' last fmt' args'))
        | inr end ↦ rw end (omega arith)
      ]
    where
      split :
          (r : Round Double)
          → Advances (last - buf) (length fmt) r
          → ((buf' : ℕ) (fmt' : Bytes) (args' : List (Arg Double))
              → length fmt' < fuel
              → buf' ≤ last
              → Fits (last - buf') (format_loop ops fuel buf' last fmt' args'))
          → Fits (last - buf) (elim r [
            | wrote out fmt' args' ↦
                written out (format_loop ops fuel (buf + length out) last fmt' args')
            | fault ↦ faulted
          ])
      split fault a ih = tt
      split (wrote out fmt' args') a ih =
          let e : last - buf - length out ≡ last - (buf + length out) = omega arith in
          written-Fits out (last - buf) (format_loop ops fuel (buf + length out) last fmt' args')
            a.0 (rw e (ih (buf + length out) fmt' args' (omega arith) (omega arith)))

  -- On any format and arguments, with `buf` no further than `last`, `ngx_vslprintf` ends, and what
  -- it writes from `buf` on stays in front of `last`, unless it meets a fault.
  pub vslprintf-Fits :
      (buf last : ℕ) (fmt : Bytes) (args : List (Arg Double))
      → buf ≤ last
      → Fits (last - buf) (vslprintf ops buf last fmt args)
  unfolding vslprintf
  vslprintf-Fits buf last fmt args h =
      format_loop-Fits (suc (length fmt)) buf last fmt args (omega arith) h
