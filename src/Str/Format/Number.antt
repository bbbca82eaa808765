-- ===== src/Str/Format/Number.antt =====
-- src/core/ngx_string.c, ngx_vslprintf: the type letters that end in a number.
use nginx_inside_out.Prelude.{
  ℕ, ◌+◌, ◌-◌, ◌%◌, ◌^◌, Bool, true, false, ◌||◌, List, ◌∷◌, ltb, leb, ◌==◌, if◌then◌else◌,
}
use nginx_inside_out.Str.Num.{Bytes, sprintf_num}
use nginx_inside_out.Str.Format.Spec.{Arg, word, half, Spec}

-- the locals that the code behind the `switch` prints
pub record Value : Type 0 where
  pub sign : Bool
  pub i64 : ℕ
  pub ui64 : ℕ
  pub zero_char : ℕ
  pub hex : ℕ
  pub width : ℕ

-- the sign extension of `(int64_t)` from 32 bits
abbrev pub extend : ℕ → ℕ
extend n = if ltb n (2 ^ 31) then n else n + (2 ^ 64 - 2 ^ 32)

abbrev pub signed : Spec → ℕ → Value
signed s n = record {
  sign = true;
  i64 = n;
  ui64 = 0;
  zero_char = s.zero_char;
  hex = s.hex;
  width = s.width;
}

abbrev pub unsigned : Spec → ℕ → Value
unsigned s n = record (signed s 0) { sign = false; ui64 = n }

-- `if (sign) { i64 = …; } else { ui64 = …; }`
abbrev pub either : Spec → (i64 ui64 : ℕ) → Value
either s i64 ui64 = if s.sign then signed s i64 else unsigned s ui64

-- `other` is a letter of another kind, `missing` a `va_arg` with no argument of its type.
pub data Outcome (Double : Type 0) : Type 0 where
  number : Value → List (Arg Double) → Outcome Double
  other : Outcome Double
  missing : Outcome Double

-- `%M`: the one value read as a signed number is -1.
abbrev pub msec : Spec → ℕ → Value
msec s ms = if ms == 2 ^ 64 - 1 then signed s ms else unsigned s ms

-- NGX_INT_T_LEN and NGX_ATOMIC_T_LEN of 64-bit platforms, the length of "-9223372036854775808"
abbrev pub widened : Spec → Spec
widened s = if s.max_width then record s { width = 20 } else s

abbrev pub pointer : Spec → ℕ → Value
pointer s n = unsigned (record s { hex = 2; zero_char = b'0'; width = 16 }) n

module _ {Double : Type 0} where
  abbrev pub with_word : (ℕ → Value) → List (Arg Double) → Outcome Double
  with_word f (word n ∷ args) = number (f n) args
  with_word f _ = missing

  abbrev pub with_half : (ℕ → Value) → List (Arg Double) → Outcome Double
  with_half f (half n ∷ args) = number (f n) args
  with_half f _ = missing

  unfoldable pub number_of : (c : ℕ) → Spec → List (Arg Double) → Outcome Double
  number_of c s args =
      if c == b'O' || c == b'T' || c == b'r'
      then with_word (signed s) args
      else if c == b'P'
      then with_half (λ n. signed s (extend n)) args
      else if c == b'M'
      then with_word (msec s) args
      else if c == b'z' || c == b'l' || c == b'L'
      then with_word (λ n. either s n n) args
      else if c == b'i' || c == b'A'
      then with_word (λ n. either (widened s) n n) args
      else if c == b'd' || c == b'D'
      then with_half (λ n. either s (extend n) n) args
      else if c == b'p'
      then with_word (pointer s) args
      else other

-- Behind the `switch`: a minus, unchecked, and the digits.
unfoldable pub print_value : (buf last : ℕ) → Value → Bytes
print_value buf last v =
    if v.sign
    then (if leb (2 ^ 63) v.i64
        then b'-' ∷ sprintf_num (buf + 1) last ((2 ^ 64 - v.i64) % 2 ^ 64) v.zero_char v.hex v.width
        else sprintf_num buf last v.i64 v.zero_char v.hex v.width)
    else sprintf_num buf last v.ui64 v.zero_char v.hex v.width
