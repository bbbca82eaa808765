-- ===== src/Str/Format/Render.antt =====
-- src/core/ngx_string.c, ngx_vslprintf: the loop writes what a format means, as far as the buffer has
-- room.
use nginx_inside_out.Prelude.{
  ℕ, zero, suc, ◌+◌, ◌-◌, ◌%◌, ◌^◌, ◌≤◌, ◌<◌, ◌≡◌, inl, inr, refl, not, true, false, List, [], ◌∷◌,
  ◌++◌, some, arith, ltb, leb, ◌==◌, Bool-cases, length, length-append, length-take, take,
  take-append, take_all, take-nil, ltb→lt,
}
use nginx_inside_out.Str.Num.{Bytes}
use nginx_inside_out.Str.Num.Padding.{sprintf_num-take}
use nginx_inside_out.Str.Copy.{size_max}
use nginx_inside_out.Str.Copy.Bounds.{asked, IsReadable, sprintf_str_plain}
use nginx_inside_out.Str.Format.Spec.{
  Arg, word, modifier, digit_run, is_digit, modifiers, parse_spec,
}
use nginx_inside_out.Str.Format.Number.{number_of, print_value}
use nginx_inside_out.Str.Format.Directive.{
  DoubleOps, wrote, put_other, put_letter, directive, round,
}
use nginx_inside_out.Str.Format.Loop.{done, format_loop, vslprintf}
use nginx_inside_out.Str.Format.Items.{
  Item, plain, percent, str, cstr, decimal, hexadecimal, size, integer, padded, IsItem, AllItems,
  head_byte, tail_bytes, meaning, render, format_of, pass, args_of,
}

zero-sub : (n : ℕ) → 0 - n ≡ 0
zero-sub n = omega arith

digit_run-padded :
    (w : ℕ) (fmt : Bytes)
    → (0 < w) × (w < 10)
    → digit_run 0 (b'0' ∷ (b'0' + w) ∷ b'u' ∷ b'L' ∷ fmt) ≡ some (w, b'u' ∷ b'L' ∷ fmt)
unfolding digit_run
digit_run-padded w fmt h =
    let digit : is_digit (b'0' + w) ≡ true = ground arith in
    let width : (0 + (b'0' + w - b'0')) % 2 ^ 64 ≡ w = omega arith in rw (digit, width)

pub head-ne-zero : (it : Item) → IsItem it → not (head_byte it == 0) ≡ true
head-ne-zero (plain c) h = ground arith
head-ne-zero _ h = refl

module _ {Double : Type 0} (ops : DoubleOps Double) where
  round-padded :
      (w n buf last : ℕ) (args : List (Arg Double)) (fmt : Bytes)
      → (0 < w) × (w < 10)
      → buf < last
      → round ops buf last b'%' (word n ∷ args) (tail_bytes (padded w n) ++ fmt)
        ≡ wrote (take (last - buf) (meaning (padded w n))) fmt args
  unfolding round directive parse_spec modifiers modifier put_letter number_of print_value
  round-padded w n buf last args fmt h room = rw (
    directive,
    parse_spec,
    digit_run-padded w fmt h,
    sprintf_num-take buf last n b'0' 0 w (omega arith),
  )

  -- One round of the loop writes a piece as far as there is room, and takes its format and argument.
  pub round-meaning :
      (it : Item) (buf last : ℕ) (args : List (Arg Double)) (fmt : Bytes)
      → IsItem it
      → buf < last
      → round ops buf last (head_byte it) (pass it args) (tail_bytes it ++ fmt)
        ≡ wrote (take (last - buf) (meaning it)) fmt args
  unfolding round directive parse_spec digit_run modifiers modifier put_letter number_of put_other
      print_value
  round-meaning (plain c) buf last args fmt (ne0, ne) room =
      let other : (c == b'%') ≡ false = ground arith in
      rw (other, take_all (last - buf) (c ∷ []) (omega arith))
  round-meaning percent buf last args fmt h room =
      rw (take_all {A = ℕ} (last - buf) (b'%' ∷ []) (omega arith))
  round-meaning (str s) buf last args fmt h room =
      let sized : (length s == size_max) ≡ false = ground arith in
      let all : asked s (length s) ≡ s = rw sized (take_all (length s) s (omega arith)) in
      let fits : IsReadable s (length s) = rw sized (omega arith) in
      rw (sprintf_str_plain buf last s (length s) (omega arith) fits, all)
  round-meaning (cstr src) buf last args fmt h room =
      rw (sprintf_str_plain buf last src size_max (omega arith) h)
  round-meaning (decimal n) buf last args fmt h room =
      rw (sprintf_num-take buf last n b' ' 0 0 (omega arith), zero-sub)
  round-meaning (hexadecimal n) buf last args fmt h room =
      rw (sprintf_num-take buf last n b' ' 1 0 (omega arith), zero-sub)
  round-meaning (size n) buf last args fmt h room =
      rw (sprintf_num-take buf last n b' ' 0 0 (omega arith), zero-sub)
  round-meaning (integer n) buf last args fmt h room = elim (Bool-cases (ltb n (2 ^ 31))) [
    | inl small ↦
        let positive : leb (2 ^ 63) n ≡ false = ground arith in
        rw (small, positive, sprintf_num-take buf last n b' ' 0 0 (omega arith), zero-sub)
    | inr large ↦
        let negative : leb (2 ^ 63) (n + (2 ^ 64 - 2 ^ 32)) ≡ true = ground arith in
        let abs : (2 ^ 64 - (n + (2 ^ 64 - 2 ^ 32))) % 2 ^ 64 ≡ 2 ^ 32 - n = ground arith in
        let front : last - buf ≡ suc (last - (buf + 1)) = omega arith in
        rw (
          large,
          negative,
          abs,
          sprintf_num-take (buf + 1) last (2 ^ 32 - n) b' ' 0 0 (omega arith),
          zero-sub,
          front,
        )
  ]
  round-meaning (padded w n) buf last args fmt h room = round-padded w n buf last args fmt h room

  format_loop-render :
      (items : List Item) (fuel buf last : ℕ)
      → AllItems items
      → length (format_of items) < fuel
      → buf ≤ last
      → format_loop ops fuel buf last (format_of items) (args_of items)
        ≡ done (take (last - buf) (render items))
  unfolding format_loop
  format_loop-render items zero buf last ok h i = absurd (omega arith)
  format_loop-render [] (suc fuel) buf last ok h i = rw take-nil
  format_loop-render (it ∷ items) (suc fuel) buf last (ok, oks) h i =
      elim (Bool-cases (ltb buf last)) [
        | inl room ↦
            let out = take (last - buf) (meaning it) in
            let fits : length out ≤ last - buf =
              omega (arith, length-take (last - buf) (meaning it)) in
            let left : last - (buf + length out) ≡ last - buf - length (meaning it) =
              omega (arith, length-take (last - buf) (meaning it)) in
            rw (
              head-ne-zero it ok,
              room,
              round-meaning it buf last (args_of items) (format_of items) ok (ltb→lt buf last room),
              format_loop-render items fuel (buf + length out) last oks
                  (omega (arith, length-append (tail_bytes it) (format_of items))) (omega arith),
              left,
              take-append,
            )
        | inr full ↦
            let none_left : last - buf ≡ 0 = ground arith in
            rw (head-ne-zero it ok, full, none_left)
      ]

  -- For a format put together from well-formed pieces, with the arguments that they name, and `buf`
  -- no further than `last`, `ngx_vslprintf` writes what the pieces stand for, one after the other,
  -- as far as the buffer has room.
  pub vslprintf-render :
      (items : List Item) (buf last : ℕ)
      → AllItems items
      → buf ≤ last
      → vslprintf ops buf last (format_of items) (args_of items)
        ≡ done (take (last - buf) (render items))
  unfolding vslprintf
  vslprintf-render items buf last ok h =
      format_loop-render items (suc (length (format_of items))) buf last ok (omega arith) h
