-- ===== src/Str/Format/Items.antt =====
-- src/core/ngx_string.c, ngx_vslprintf: an independent description of what a format means.
use nginx_inside_out.Prelude.{
  ℕ, ◌+◌, ◌-◌, ◌^◌, ◌<◌, ◌≡◌, ◌≢◌, refl, true, Bool, not, ◌&&◌, arith, ◌==◌, List, [], ◌∷◌, ◌++◌,
  ltb, if◌then◌else◌, length, replicate,
}
use nginx_inside_out.Str.Num.{Bytes, numeral}
use nginx_inside_out.Str.Copy.{size_max}
use nginx_inside_out.Str.Copy.Bounds.{c_string, terminated}
use nginx_inside_out.Str.Format.Spec.{Arg, word, half, text, string}

-- Pieces of a format: a plain character, `%%`, `%V`, `%s`, `%uL`, `%xL`, `%uz`, `%d`, and `%0<w>uL`
-- with a one-digit width.
pub data Item : Type 0 where
  plain : (c : ℕ) → Item
  percent : Item
  str : Bytes → Item
  cstr : Bytes → Item
  decimal : (n : ℕ) → Item
  hexadecimal : (n : ℕ) → Item
  size : (n : ℕ) → Item
  integer : (n : ℕ) → Item
  padded : (w n : ℕ) → Item

-- A plain character is no terminator and no `%`; a length is not `(size_t) -1`; a C string has its
-- terminator; an int has 32 bits.
abbrev pub IsItem : Item → Type 0
IsItem (plain c) = (c ≢ 0) × (c ≢ b'%')
IsItem percent = Unit {0}
IsItem (str s) = length s < size_max
IsItem (cstr src) = terminated src ≡ true
IsItem (decimal n) = Unit {0}
IsItem (hexadecimal n) = Unit {0}
IsItem (size n) = Unit {0}
IsItem (integer n) = n < 2 ^ 32
IsItem (padded w n) = (0 < w) × (w < 10)

abbrev pub AllItems : List Item → Type 0
AllItems [] = Unit {0}
AllItems (it ∷ items) = IsItem it × AllItems items

-- The format of a piece: its first byte, and the rest.
abbrev pub head_byte : Item → ℕ
head_byte (plain c) = c
head_byte _ = b'%'

abbrev pub tail_bytes : Item → Bytes
tail_bytes (plain c) = []
tail_bytes percent = b'%' ∷ []
tail_bytes (str s) = b'V' ∷ []
tail_bytes (cstr src) = b's' ∷ []
tail_bytes (decimal n) = b'u' ∷ b'L' ∷ []
tail_bytes (hexadecimal n) = b'x' ∷ b'L' ∷ []
tail_bytes (size n) = b'u' ∷ b'z' ∷ []
tail_bytes (integer n) = b'd' ∷ []
tail_bytes (padded w n) = b'0' ∷ (b'0' + w) ∷ b'u' ∷ b'L' ∷ []

-- What a piece stands for.
abbrev pub meaning : Item → Bytes
meaning (plain c) = c ∷ []
meaning percent = b'%' ∷ []
meaning (str s) = s
meaning (cstr src) = c_string src
meaning (decimal n) = numeral n 0
meaning (hexadecimal n) = numeral n 1
meaning (size n) = numeral n 0
meaning (integer n) = if ltb n (2 ^ 31) then numeral n 0 else b'-' ∷ numeral (2 ^ 32 - n) 0
meaning (padded w n) = replicate (w - length (numeral n 0)) b'0' ++ numeral n 0

abbrev pub render : List Item → Bytes
render [] = []
render (it ∷ items) = meaning it ++ render items

-- the pieces of a text without directives
abbrev pub pieces : Bytes → List Item → List Item
pieces [] items = items
pieces (c ∷ s) items = plain c ∷ pieces s items

abbrev pub is_plain : Bytes → Bool
is_plain [] = true
is_plain (c ∷ s) = not (c == 0) && not (c == b'%') && is_plain s

pub pieces-AllItems :
    (s : Bytes) (items : List Item) → is_plain s ≡ true → AllItems items → AllItems (pieces s items)
pieces-AllItems [] items p ok = ok
pieces-AllItems (c ∷ s) items p ok =
    ((ground arith, ground arith), pieces-AllItems s items (ground arith) ok)

pub pieces-render : (s : Bytes) (items : List Item) → render (pieces s items) ≡ s ++ render items
pieces-render [] items = refl
pieces-render (c ∷ s) items = rw (pieces-render s items) refl

abbrev pub format_then : List Item → Bytes → Bytes
format_then [] fmt = fmt
format_then (it ∷ items) fmt = head_byte it ∷ tail_bytes it ++ format_then items fmt

abbrev pub format_of : List Item → Bytes
format_of items = format_then items (0 ∷ [])

module _ {Double : Type 0} where
  -- The argument of a piece, in front of the others.
  abbrev pub pass : Item → List (Arg Double) → List (Arg Double)
  pass (plain c) args = args
  pass percent args = args
  pass (str s) args = text (length s) s ∷ args
  pass (cstr src) args = string src ∷ args
  pass (decimal n) args = word n ∷ args
  pass (hexadecimal n) args = word n ∷ args
  pass (size n) args = word n ∷ args
  pass (integer n) args = half n ∷ args
  pass (padded w n) args = word n ∷ args

  abbrev pub args_of : List Item → List (Arg Double)
  args_of [] = []
  args_of (it ∷ items) = pass it (args_of items)
