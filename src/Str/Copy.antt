-- ===== src/Str/Copy.antt =====
-- src/core/ngx_string.c, ngx_cpystrn and ngx_sprintf_str. A source is the list of the bytes that may
-- be read from `src` on; `none` is a read behind them.
pub mod Bounds
pub mod Within
use nginx_inside_out.Prelude.{
  ℕ, zero, suc, ◌+◌, ◌-◌, ◌/◌, ◌%◌, ◌^◌, ◌&&◌, not, [], ◌∷◌, ◌++◌, Option, none, some, ltb, ◌==◌,
  if◌then◌else◌, get_or,
}
use nginx_inside_out.Str.Num.{Bytes, hex_lower, hex_upper}

-- `(size_t) -1`
abbrev pub size_max : ℕ
size_max = 2 ^ 64 - 1

-- the macro `ngx_min`
abbrev pub ngx_min : ℕ → ℕ → ℕ
ngx_min val1 val2 = if ltb val2 val1 then val2 else val1

abbrev pub prepend : Bytes → Option Bytes → Option Bytes
prepend w none = none
prepend w (some s) = some (w ++ s)

-- The bytes written at `dst`, with the pointer returned.
abbrev pub Copied : Type 0
Copied = Bytes × ℕ

abbrev pub wrote : ℕ → Option Copied → Option Copied
wrote c none = none
wrote c (some (w, end)) = some (c ∷ w, end)

-- `while (--n) { … } *dst = '\0';`, with `rounds` rounds left
pub cpystrn_loop : (rounds dst : ℕ) (src : Bytes) → Option Copied
cpystrn_loop zero dst src = some (0 ∷ [], dst)
cpystrn_loop (suc rounds) dst [] = none
cpystrn_loop (suc rounds) dst (c ∷ src) =
    if c == 0 then some (c ∷ [], dst) else wrote c (cpystrn_loop rounds (dst + 1) src)

unfoldable pub cpystrn : (dst : ℕ) (src : Bytes) (n : ℕ) → Option Copied
unfolding cpystrn_loop
cpystrn dst src zero = some ([], dst)
cpystrn dst src (suc n) = cpystrn_loop n dst src

-- `memcpy` of `n` bytes out of `src`
unfoldable pub read_bytes : (n : ℕ) (src : Bytes) → Option Bytes
read_bytes zero src = some []
read_bytes (suc n) [] = none
read_bytes (suc n) (c ∷ src) = prepend (c ∷ []) (read_bytes n src)

-- `while (*src && buf < last) { *buf++ = *src++; }`
unfoldable pub copy_string : (buf last : ℕ) (src : Bytes) → Option Bytes
copy_string buf last [] = none
copy_string buf last (c ∷ src) =
    if not (c == 0) && ltb buf last
    then prepend (c ∷ []) (copy_string (buf + 1) last src)
    else some []

-- `*buf++ = hex[*src >> 4]; *buf++ = hex[*src++ & 0xf];`
abbrev pub hex_pair : (table : Bytes) (c : ℕ) → Bytes
hex_pair table c = get_or table (c / 16) 0 ∷ get_or table (c % 16) 0 ∷ []

-- `while (*src && buf < last - 1) { … }`
unfoldable pub hex_string : (table : Bytes) (buf last : ℕ) (src : Bytes) → Option Bytes
hex_string table buf last [] = none
hex_string table buf last (c ∷ src) =
    if not (c == 0) && ltb buf (last - 1)
    then prepend (hex_pair table c) (hex_string table (buf + 2) last src)
    else some []

-- `while (len-- && buf < last - 1) { … }`
unfoldable pub hex_sized : (table : Bytes) (len buf last : ℕ) (src : Bytes) → Option Bytes
hex_sized table zero buf last src = some []
hex_sized table (suc len) buf last [] = if ltb buf (last - 1) then none else some []
hex_sized table (suc len) buf last (c ∷ src) =
    if ltb buf (last - 1)
    then prepend (hex_pair table c) (hex_sized table len (buf + 2) last src)
    else some []

-- Every caller passes a `buf` in front of `last`, which makes `last - buf` a distance.
unfoldable pub sprintf_str : (buf last : ℕ) (src : Bytes) (len hexadecimal : ℕ) → Option Bytes
sprintf_str buf last src len hexadecimal =
    if hexadecimal == 0
    then (if len == size_max
        then copy_string buf last src
        else read_bytes (ngx_min (last - buf) len) src)
    else if hexadecimal == 1
    then (if len == size_max
        then hex_string hex_lower buf last src
        else hex_sized hex_lower len buf last src)
    else (if len == size_max
        then hex_string hex_upper buf last src
        else hex_sized hex_upper len buf last src)
