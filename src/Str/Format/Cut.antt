-- ===== src/Str/Format/Cut.antt =====
-- src/core/ngx_string.c:412-415, ngx_vslprintf: a format that ends behind a `%`.
use nginx_inside_out.Prelude.{
  ℕ, zero, suc, ◌+◌, ◌-◌, ◌<◌, ◌≡◌, true, List, [], ◌∷◌, arith, ltb, length, length-append,
  take_all,
}
use nginx_inside_out.Str.Num.{Bytes}
use nginx_inside_out.Str.Format.Spec.{modifier, digit_run, modifiers, parse_spec}
use nginx_inside_out.Str.Format.Number.{number_of}
use nginx_inside_out.Str.Format.Directive.{DoubleOps, put_other, put_letter, directive, round}
use nginx_inside_out.Str.Format.Loop.{faulted, format_loop, vslprintf}
use nginx_inside_out.Str.Format.Items.{
  Item, AllItems, tail_bytes, meaning, render, format_then, args_of,
}
use nginx_inside_out.Str.Format.Render.{head-ne-zero, round-meaning}

module _ {Double : Type 0} (ops : DoubleOps Double) where
  -- The format ends behind a `%`.
  abbrev cut_format : List Item → Bytes
  cut_format items = format_then items (b'%' ∷ 0 ∷ [])

  format_loop-cut :
      (items : List Item) (fuel buf last : ℕ)
      → AllItems items
      → length (cut_format items) < fuel
      → buf + length (render items) < last
      → format_loop ops fuel buf last (cut_format items) (args_of items) ≡ faulted
  unfolding format_loop round directive parse_spec digit_run modifiers modifier put_letter number_of
      put_other
  format_loop-cut items zero buf last ok h i = absurd (omega arith)
  format_loop-cut [] (suc zero) buf last ok h i = absurd (omega arith)
  format_loop-cut [] (suc (suc fuel)) buf last ok h i =
      let room : ltb buf last ≡ true = ground arith in rw room
  format_loop-cut (it ∷ items) (suc fuel) buf last (ok, oks) h i =
      let sum = length-append (meaning it) (render items) in
      let room : ltb buf last ≡ true = ground (arith, sum) in
      rw (
        head-ne-zero it ok,
        room,
        round-meaning ops it buf last (args_of items) (cut_format items) ok (omega (arith, sum)),
        take_all (last - buf) (meaning it) (omega (arith, sum)),
        format_loop-cut items fuel (buf + length (meaning it)) last oks
            (omega (arith, length-append (tail_bytes it) (cut_format items))) (omega (arith, sum)),
      )

  -- A format of well-formed pieces with a `%` behind them meets a fault, a read behind the
  -- terminator, if there is room behind what the pieces stand for.
  pub vslprintf-percent_last :
      (items : List Item) (buf last : ℕ)
      → AllItems items
      → buf + length (render items) < last
      → vslprintf ops buf last (format_then items (b'%' ∷ 0 ∷ [])) (args_of items) ≡ faulted
  unfolding vslprintf
  vslprintf-percent_last items buf last ok h =
      format_loop-cut items (suc (length (cut_format items))) buf last ok (omega arith) h
