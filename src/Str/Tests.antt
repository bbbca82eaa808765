-- ===== src/Str/Tests.antt =====
-- src/core/ngx_string.c: runs of the functions, and the theorems at inputs that meet their hypotheses.
use nginx_inside_out.Prelude.{
  ℕ, ◌-◌, ◌^◌, ◌≤◌, ◌≡◌, refl, false, List, [], ◌∷◌, ◌++◌, some, arith, length, take, replicate,
}
use nginx_inside_out.Str.Num.{Bytes, int64_len, numeral, pad_loop, sprintf_num}
use nginx_inside_out.Str.Num.Digits.{value_of, value_of-numeral}
use nginx_inside_out.Str.Num.Padding.{sprintf_num-take}
use nginx_inside_out.Str.Copy.{cpystrn, sprintf_str}
use nginx_inside_out.Str.Copy.Bounds.{asked, written_as, sprintf_str-written_as}
use nginx_inside_out.Str.Format.Directive.{DoubleOps}
use nginx_inside_out.Str.Format.Loop.{done, faulted, vslprintf}
use nginx_inside_out.Str.Format.Bounds.{Fits, vslprintf-Fits}
use nginx_inside_out.Str.Format.Items.{
  Item, plain, percent, str, cstr, decimal, integer, padded, AllItems, render, format_then,
  format_of, args_of,
}
use nginx_inside_out.Str.Format.Render.{vslprintf-render}
use nginx_inside_out.Str.Format.Cut.{vslprintf-percent_last}

abbrev abc : Bytes
abc = b'a' ∷ b'b' ∷ b'c' ∷ 0 ∷ []

-- No floating-point value is used here: the type of doubles is the numbers.
abbrev no_doubles : DoubleOps ℕ
no_doubles = record { negative = λ d. false; negate = λ d. d; whole = λ d. d; rounded = λ d u s. 0 }

pads : sprintf_num 100 200 42 b'0' 0 4 ≡ b'0' ∷ b'0' ∷ b'4' ∷ b'2' ∷ []
unfolding sprintf_num numeral pad_loop
pads = refl

truncates : sprintf_num 100 103 0xbeef b' ' 1 6 ≡ b' ' ∷ b' ' ∷ b'b' ∷ []
unfolding sprintf_num numeral pad_loop
truncates = refl

copies : cpystrn 100 abc 3 ≡ some (b'a' ∷ b'b' ∷ 0 ∷ [], 102)
unfolding cpystrn
copies = refl

sprintf_num-take_example :
    sprintf_num 100 103 42 b'0' 0 4
    ≡ take 3 (replicate (4 - length (numeral 42 0)) b'0' ++ numeral 42 0)
sprintf_num-take_example = sprintf_num-take 100 103 42 b'0' 0 4 (omega arith)

value_of-numeral_example :
    (length (numeral 0xbeef 2) ≤ int64_len) × (value_of 2 (numeral 0xbeef 2) ≡ 0xbeef)
value_of-numeral_example = value_of-numeral 0xbeef 2 (omega arith)

sprintf_str-written_as_example : sprintf_str 100 105 abc 3 1 ≡ some (written_as 1 5 (asked abc 3))
sprintf_str-written_as_example = sprintf_str-written_as 100 105 abc 3 1 (omega arith) (omega arith)

abbrev items : List Item
items =
    plain b'n'
    ∷ decimal 42
    ∷ percent
    ∷ integer (2 ^ 32 - 7)
    ∷ padded 4 7
    ∷ str (b'h' ∷ b'i' ∷ [])
    ∷ cstr abc
    ∷ []

items-AllItems : AllItems items
items-AllItems = ground arith

vslprintf-Fits_example : Fits 8 (vslprintf no_doubles 100 108 (format_of items) (args_of items))
vslprintf-Fits_example =
    vslprintf-Fits no_doubles 100 108 (format_of items) (args_of items) (omega arith)

vslprintf-render_example :
    vslprintf no_doubles 100 108 (format_of items) (args_of items) ≡ done (take 8 (render items))
vslprintf-render_example = vslprintf-render no_doubles items 100 108 items-AllItems (omega arith)

vslprintf-percent_last_example :
    vslprintf no_doubles 100 108 (format_then (plain b'n' ∷ percent ∷ []) (b'%' ∷ 0 ∷ [])) []
    ≡ faulted
vslprintf-percent_last_example =
    vslprintf-percent_last no_doubles (plain b'n' ∷ percent ∷ []) 100 108 (omega arith)
      (omega arith)
