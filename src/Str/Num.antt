-- ===== src/Str/Num.antt =====
-- src/core/ngx_string.c, ngx_sprintf_num. A function that writes from `buf` on returns the bytes
-- that it writes, in order; the pointer that the C function returns is `buf` plus their number.
-- Pointers are addresses. `temp` is filled from its end downwards, so it is a list that grows at
-- its head.
pub mod Digits
pub mod Padding
use nginx_inside_out.Prelude.{
  ℕ, zero, suc, ◌+◌, ◌-◌, ◌/◌, ◌%◌, ◌^◌, ◌<◌, ◌&&◌, List, [], ◌∷◌, ◌++◌, Acc, lt_wf, dec_lt, dite,
  arith, ltb, leb, ◌==◌, if◌then◌else◌, length, take, get_or,
}

abbrev pub Bytes : Type 0
Bytes = List ℕ

-- `static u_char hex[]` and `static u_char HEX[]`
abbrev pub hex_lower : Bytes
hex_lower =
    b'0' ∷ b'1' ∷ b'2' ∷ b'3' ∷ b'4' ∷ b'5' ∷ b'6' ∷ b'7' ∷ b'8' ∷ b'9' ∷ b'a' ∷ b'b' ∷ b'c' ∷ b'd'
    ∷ b'e' ∷ b'f' ∷ []

abbrev pub hex_upper : Bytes
hex_upper =
    b'0' ∷ b'1' ∷ b'2' ∷ b'3' ∷ b'4' ∷ b'5' ∷ b'6' ∷ b'7' ∷ b'8' ∷ b'9' ∷ b'A' ∷ b'B' ∷ b'C' ∷ b'D'
    ∷ b'E' ∷ b'F' ∷ []

-- NGX_INT64_LEN (src/core/ngx_config.h:51), the bytes of `temp` in front of the first `p`
abbrev pub int64_len : ℕ
int64_len = 20

-- `do { *--p = ui % 10 + '0'; } while (ui /= 10);`, for both widths of `ui`
pub decimal_loop : (n : ℕ) → Acc ◌<◌ n → Bytes → Bytes
decimal_loop n (Acc.intro _ smaller) temp =
    dite (dec_lt 0 (n / 10))
      (λ h. decimal_loop (n / 10) (smaller (n / 10) (omega arith)) ((n % 10 + b'0') ∷ temp))
      (λ _. (n % 10 + b'0') ∷ temp)

-- `do { *--p = table[ui64 & 0xf]; } while (ui64 >>= 4);`
pub hex_loop : (table : Bytes) (n : ℕ) → Acc ◌<◌ n → Bytes → Bytes
hex_loop table n (Acc.intro _ smaller) temp =
    dite (dec_lt 0 (n / 16))
      (λ h.
        hex_loop table (n / 16) (smaller (n / 16) (omega arith)) (get_or table (n % 16) 0 ∷ temp))
      (λ _. get_or table (n % 16) 0 ∷ temp)

-- the digits in `temp` from `p` on, before padding
unfoldable pub numeral : (ui64 hexadecimal : ℕ) → Bytes
unfolding decimal_loop hex_loop lt_wf dec_lt
numeral ui64 hexadecimal =
    if hexadecimal == 0
    then (if leb ui64 0xffff_ffff
        then (let ui32 = ui64 % 2 ^ 32 in decimal_loop ui32 (lt_wf.apply ui32) [])
        else decimal_loop ui64 (lt_wf.apply ui64) [])
    else if hexadecimal == 1
    then hex_loop hex_lower ui64 (lt_wf.apply ui64) []
    else hex_loop hex_upper ui64 (lt_wf.apply ui64) []

-- `while (len++ < width && buf < last) { *buf++ = zero; }`, with at most `rounds` rounds
unfoldable pub pad_loop : (rounds len width buf last z : ℕ) → Bytes
pad_loop zero len width buf last z = []
pad_loop (suc rounds) len width buf last z =
    let rest = pad_loop rounds (len + 1) width (buf + 1) last z in
    if ltb len width && ltb buf last then z ∷ rest else []

-- The number of rounds is bounded by `width`. Every caller passes a `buf` no further than `last`, so
-- that `last - buf'` is the distance of two pointers into one buffer.
unfoldable pub sprintf_num : (buf last ui64 z hexadecimal width : ℕ) → Bytes
sprintf_num buf last ui64 z hexadecimal width =
    let digits = numeral ui64 hexadecimal in
    let padding = pad_loop width (length digits) width buf last z in
    let buf' = buf + length padding in
    let len = (if ltb last (buf' + length digits) then last - buf' else length digits) in
    padding ++ take len digits
