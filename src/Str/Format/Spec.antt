-- ===== src/Str/Format/Spec.antt =====
-- src/core/ngx_string.c, ngx_vslprintf: the arguments, and the modifiers of a directive. A format
-- is the list of the bytes that may be read, its terminator included.
use nginx_inside_out.Prelude.{
  ℕ, ◌+◌, ◌-◌, ◌*◌, ◌%◌, ◌^◌, Bool, true, false, ◌&&◌, List, [], ◌∷◌, Option, none, some, leb, ◌==◌,
  if◌then◌else◌,
}
use nginx_inside_out.Str.Num.{Bytes}
use nginx_inside_out.Str.Copy.{size_max}

-- What a `va_list` holds. An integer is its bit pattern: `word` one of 64 bits (off_t, time_t,
-- ngx_msec_t, size_t, ssize_t, ngx_int_t, ngx_uint_t, long, int64_t, rlim_t, a pointer), `half` one
-- of 32 (int, u_int, int32_t, uint32_t, ngx_pid_t). `text` is an ngx_str_t or a variable, its
-- length and what may be read at `data`; `string` is a `u_char *`. `double` is any value that the
-- parameter of `Directive` interprets.
pub data Arg (Double : Type 0) : Type 0 where
  word : ℕ → Arg Double
  half : ℕ → Arg Double
  text : ℕ → Bytes → Arg Double
  string : Bytes → Arg Double
  double : Double → Arg Double

-- the locals that the modifiers set
pub record Spec : Type 0 where
  pub zero_char : ℕ
  pub width : ℕ
  pub sign : Bool
  pub hex : ℕ
  pub max_width : Bool
  pub frac_width : ℕ
  pub slen : ℕ

abbrev pub is_digit : ℕ → Bool
is_digit c = leb b'0' c && leb c b'9'

-- `while (*fmt >= '0' && *fmt <= '9') { width = width * 10 + (*fmt++ - '0'); }`
unfoldable pub digit_run : (width : ℕ) (fmt : Bytes) → Option (ℕ × Bytes)
digit_run width [] = none
digit_run width (c ∷ fmt) =
    if is_digit c then digit_run ((width * 10 + (c - b'0')) % 2 ^ 64) fmt else some (width, c ∷ fmt)

-- What one round of the `for (;;)` over the modifiers does. `none` is a `va_arg` that finds no
-- argument of its type.
pub data Modifier (Double : Type 0) : Type 0 where
  again : Spec → List (Arg Double) → Modifier Double
  fraction : Modifier Double
  stop : Modifier Double
  bad : Modifier Double

abbrev pub fresh : (zero_char width : ℕ) → Spec
fresh z width = record {
  zero_char = z;
  width = width;
  sign = true;
  hex = 0;
  max_width = false;
  frac_width = 0;
  slen = size_max;
}

module _ {Double : Type 0} where
  abbrev pub star : Spec → List (Arg Double) → Modifier Double
  star s (word n ∷ args) = again (record s { slen = n }) args
  star s _ = bad

  unfoldable pub modifier : (c : ℕ) → Spec → List (Arg Double) → Modifier Double
  modifier c s args =
      if c == b'u'
      then again (record s { sign = false }) args
      else if c == b'm'
      then again (record s { max_width = true }) args
      else if c == b'X'
      then again (record s { hex = 2; sign = false }) args
      else if c == b'x'
      then again (record s { hex = 1; sign = false }) args
      else if c == b'.'
      then fraction
      else if c == b'*'
      then star s args
      else stop

  abbrev pub with_fraction :
      Spec → List (Arg Double) → Option (ℕ × Bytes) → Option (Spec × List (Arg Double) × Bytes)
  with_fraction s args none = none
  with_fraction s args (some (n, fmt)) = some (record s { frac_width = n }, args, fmt)

  unfoldable pub modifiers :
      Spec → List (Arg Double) → Bytes → Option (Spec × List (Arg Double) × Bytes)
  modifiers s args [] = none
  modifiers s args (c ∷ fmt) = elim (modifier c s args) [
    | again s' args' ↦ modifiers s' args' fmt
    | fraction ↦ with_fraction s args (digit_run 0 fmt)
    | stop ↦ some (s, args, c ∷ fmt)
    | bad ↦ none
  ]

  -- Behind the `%`: the padding character, the width, the modifiers.
  unfoldable pub parse_spec : List (Arg Double) → Bytes → Option (Spec × List (Arg Double) × Bytes)
  parse_spec args [] = none
  parse_spec args (c ∷ fmt) = elim (digit_run 0 (c ∷ fmt)) [
    | none ↦ none
    | some (width, rest) ↦ modifiers (fresh (if c == b'0' then b'0' else b' ') width) args rest
  ]
