-- ===== src/Str/Format/Directive.antt =====
-- src/core/ngx_string.c, ngx_vslprintf: one round of the loop over the format.
use nginx_inside_out.Prelude.{
  ℕ, zero, suc, ◌+◌, ◌*◌, ◌%◌, ◌^◌, Bool, ◌||◌, List, [], ◌∷◌, ◌++◌, Option, none, some, ltb, ◌==◌,
  if◌then◌else◌, length,
}
use nginx_inside_out.Str.Num.{Bytes, sprintf_num}
use nginx_inside_out.Str.Copy.{sprintf_str}
use nginx_inside_out.Str.Format.Spec.{Arg, half, text, string, double, Spec, parse_spec}
use nginx_inside_out.Str.Format.Number.{number, other, missing, number_of, print_value}

-- The floating-point operations of `%f`, which the compiler provides: `f < 0`, `-f`, the bits of
-- `(int64_t) f`, and those of `(uint64_t) ((f - (double) ui64) * scale + 0.5)`.
pub record DoubleOps (Double : Type 0) : Type 0 where
  pub negative : Double → Bool
  pub negate : Double → Double
  pub whole : Double → ℕ
  pub rounded : Double → (ui64 scale : ℕ) → ℕ

-- `for (n = frac_width; n; n--) { scale *= 10; }`
pub scale_loop : (n scale : ℕ) → ℕ
scale_loop zero scale = scale
scale_loop (suc n) scale = scale_loop n (scale * 10 % 2 ^ 64)

-- One round: what it writes, the rest of the format and of the arguments. `fault` is a read behind
-- the format or a string, or an argument that is missing.
pub data Round (Double : Type 0) : Type 0 where
  wrote : Bytes → Bytes → List (Arg Double) → Round Double
  fault : Round Double

module _ {Double : Type 0} where
  abbrev pub wrote_string : Option Bytes → Bytes → List (Arg Double) → Round Double
  wrote_string none fmt args = fault
  wrote_string (some out) fmt args = wrote out fmt args

  abbrev pub put_text : (buf last : ℕ) → Spec → List (Arg Double) → Bytes → Round Double
  put_text buf last s (text len src ∷ args) fmt =
      wrote_string (sprintf_str buf last src len s.hex) fmt args
  put_text buf last s _ fmt = fault

  abbrev pub put_string : (buf last : ℕ) → Spec → List (Arg Double) → Bytes → Round Double
  put_string buf last s (string src ∷ args) fmt =
      wrote_string (sprintf_str buf last src s.slen s.hex) fmt args
  put_string buf last s _ fmt = fault

  -- `d & 0xff`
  abbrev pub put_char : List (Arg Double) → Bytes → Round Double
  put_char (half d ∷ args) fmt = wrote ((d % 256) ∷ []) fmt args
  put_char _ fmt = fault

module _ {Double : Type 0} (ops : DoubleOps Double) where
  open ops use {negative, negate, whole, rounded}

  -- The two numbers of `%f`: the whole part, and the digits behind the dot. A fraction that rounds
  -- up to one goes into the whole part.
  unfoldable pub double_parts : (frac_width : ℕ) → Double → ℕ × ℕ
  unfolding scale_loop
  double_parts frac_width f =
      let ui64 = whole f in
      let scale = scale_loop frac_width 1 in
      let frac = rounded f ui64 scale in
      if frac_width == 0
      then (ui64, 0)
      else if frac == scale
      then ((ui64 + 1) % 2 ^ 64, 0)
      else (ui64, frac)

  -- `if (buf < last) { *buf++ = '.'; }` and the digits behind it
  unfoldable pub print_fraction : (buf last frac frac_width : ℕ) → Bytes
  print_fraction buf last frac frac_width =
      let dot : Bytes = (if ltb buf last then b'.' ∷ [] else []) in
      dot ++ sprintf_num (buf + length dot) last frac b'0' 0 frac_width

  unfoldable pub print_magnitude : (buf last : ℕ) → Spec → Double → Bytes
  print_magnitude buf last s f =
      let (ui64, frac) = double_parts s.frac_width f in
      let front = sprintf_num buf last ui64 s.zero_char 0 s.width in
      if s.frac_width == 0
      then front
      else front ++ print_fraction (buf + length front) last frac s.frac_width

  -- `%f`
  unfoldable pub print_double : (buf last : ℕ) → Spec → Double → Bytes
  print_double buf last s f =
      if negative f
      then b'-' ∷ print_magnitude (buf + 1) last s (negate f)
      else print_magnitude buf last s f

  abbrev pub put_double : (buf last : ℕ) → Spec → List (Arg Double) → Bytes → Round Double
  put_double buf last s (double f ∷ args) fmt = wrote (print_double buf last s f) fmt args
  put_double buf last s _ fmt = fault

  -- The letters that end in no number. An unknown letter is written as it stands, the terminator of
  -- the format too.
  unfoldable pub put_other : (buf last c : ℕ) → Spec → List (Arg Double) → Bytes → Round Double
  put_other buf last c s args fmt =
      if c == b'V' || c == b'v'
      then put_text buf last s args fmt
      else if c == b's'
      then put_string buf last s args fmt
      else if c == b'f'
      then put_double buf last s args fmt
      else if c == b'c'
      then put_char args fmt
      else if c == b'Z'
      then wrote (0 ∷ []) fmt args
      else if c == b'N'
      then wrote (10 ∷ []) fmt args
      else wrote (c ∷ []) fmt args

  unfoldable pub put_letter : (buf last : ℕ) → Spec → List (Arg Double) → Bytes → Round Double
  put_letter buf last s args [] = fault
  put_letter buf last s args (c ∷ fmt) = elim (number_of c s args) [
    | number v args' ↦ wrote (print_value buf last v) fmt args'
    | other ↦ put_other buf last c s args fmt
    | missing ↦ fault
  ]

  unfoldable pub directive : (buf last : ℕ) → List (Arg Double) → Bytes → Round Double
  directive buf last args fmt = elim (parse_spec args fmt) [
    | none ↦ fault
    | some (s, args', fmt') ↦ put_letter buf last s args' fmt'
  ]

  unfoldable pub round : (buf last c : ℕ) → List (Arg Double) → Bytes → Round Double
  round buf last c args fmt =
      if c == b'%' then directive buf last args fmt else wrote (c ∷ []) fmt args
