-- ===== src/Str/Copy/Bounds.antt =====
-- src/core/ngx_string.c: what ngx_cpystrn and ngx_sprintf_str write, and how much.
use nginx_inside_out.Prelude.{
  ℕ, zero, suc, ◌+◌, ◌-◌, ◌/◌, ◌≤◌, ◌<◌, ◌≡◌, ◌≢◌, refl, min, inl, inr, Bool, true, false, ◌||◌, [],
  ◌∷◌, ◌++◌, some, arith, ltb, ◌==◌, if◌then◌else◌, Bool-cases, length, take, take-nil, take-take,
  length-take, ◌*◌,
}
use nginx_inside_out.Str.Num.{Bytes, hex_lower, hex_upper}
use nginx_inside_out.Str.Copy.{
  size_max, cpystrn_loop, cpystrn, read_bytes, copy_string, hex_pair, hex_string, hex_sized,
  ngx_min, sprintf_str,
}

-- The string that starts at `src`: its bytes in front of the terminator.
abbrev pub c_string : Bytes → Bytes
c_string [] = []
c_string (c ∷ src) = if c == 0 then [] else c ∷ c_string src

-- There is a terminator.
abbrev pub terminated : Bytes → Bool
terminated [] = false
terminated (c ∷ src) = c == 0 || terminated src

cpystrn_loop_lem :
    (rounds dst : ℕ) (src : Bytes)
    → terminated src ≡ true
    → cpystrn_loop rounds dst src
      ≡ some (take rounds (c_string src) ++ 0 ∷ [], dst + min rounds (length (c_string src)))
unfolding cpystrn_loop
cpystrn_loop_lem zero dst src h =
    let e : dst + min 0 (length (c_string src)) ≡ dst = omega arith in rw e
cpystrn_loop_lem (suc rounds) dst [] h = ground arith
cpystrn_loop_lem (suc rounds) dst (c ∷ src) h =
    ground (arith, cpystrn_loop_lem rounds (dst + 1) src)

-- From a source with a terminator and with room for `n` bytes, `n` not 0, `ngx_cpystrn` writes the
-- longest prefix of the string that leaves room for the terminator, then the terminator, and
-- returns the terminator's address.
pub cpystrn-c_string :
    (dst n : ℕ) (src : Bytes)
    → terminated src ≡ true
    → 0 < n
    → cpystrn dst src n
      ≡ some (take (n - 1) (c_string src) ++ 0 ∷ [], dst + min (n - 1) (length (c_string src)))
unfolding cpystrn
cpystrn-c_string dst zero src h pos = absurd (omega arith)
cpystrn-c_string dst (suc n) src h pos =
    let e : suc n - 1 ≡ n = omega arith in rw e (cpystrn_loop_lem n dst src h)

read_bytes-take : (n : ℕ) (src : Bytes) → n ≤ length src → read_bytes n src ≡ some (take n src)
unfolding read_bytes
read_bytes-take zero src h = refl
read_bytes-take (suc n) [] h = absurd (omega arith)
read_bytes-take (suc n) (c ∷ src) h = rw (read_bytes-take n src (omega arith))

copy_string-take :
    (buf last : ℕ) (src : Bytes)
    → terminated src ≡ true
    → copy_string buf last src ≡ some (take (last - buf) (c_string src))
unfolding copy_string
copy_string-take buf last [] h = ground arith
copy_string-take buf last (c ∷ src) h = elim (Bool-cases (c == 0)) [
  | inl end ↦ rw (end, take-nil)
  | inr more ↦ elim (Bool-cases (ltb buf last)) [
    | inl room ↦
        let e : last - buf ≡ suc (last - (buf + 1)) = ground arith in
        rw (more, room, e, copy_string-take (buf + 1) last src (ground arith))
    | inr full ↦ let e : last - buf ≡ 0 = ground arith in rw (more, full, e)
  ]
]

-- Two digits for each byte, high nibble first.
abbrev pub hex_dump : (table : Bytes) → Bytes → Bytes
hex_dump table [] = []
hex_dump table (c ∷ s) = hex_pair table c ++ hex_dump table s

hex_string-take :
    (table : Bytes) (buf last : ℕ) (src : Bytes)
    → terminated src ≡ true
    → hex_string table buf last src ≡ some (hex_dump table (take ((last - buf) / 2) (c_string src)))
unfolding hex_string
hex_string-take table buf last [] h = ground arith
hex_string-take table buf last (c ∷ src) h = elim (Bool-cases (c == 0)) [
  | inl end ↦ rw (end, take-nil)
  | inr more ↦ elim (Bool-cases (ltb buf (last - 1))) [
    | inl room ↦
        let e : (last - buf) / 2 ≡ suc ((last - (buf + 2)) / 2) = ground arith in
        rw (more, room, e, hex_string-take table (buf + 2) last src (ground arith))
    | inr full ↦ let e : (last - buf) / 2 ≡ 0 = ground arith in rw (more, full, e)
  ]
]

hex_sized-take :
    (table : Bytes) (len buf last : ℕ) (src : Bytes)
    → len ≤ length src
    → hex_sized table len buf last src
      ≡ some (hex_dump table (take ((last - buf) / 2) (take len src)))
unfolding hex_sized
hex_sized-take table zero buf last src h = rw take-nil
hex_sized-take table (suc len) buf last [] h = absurd (omega arith)
hex_sized-take table (suc len) buf last (c ∷ src) h = elim (Bool-cases (ltb buf (last - 1))) [
  | inl room ↦
      let e : (last - buf) / 2 ≡ suc ((last - (buf + 2)) / 2) = ground arith in
      rw (room, e, hex_sized-take table len (buf + 2) last src (omega arith))
  | inr full ↦ let e : (last - buf) / 2 ≡ 0 = ground arith in rw (full, e)
]

-- The bytes that a length asks for: all up to the terminator for `(size_t) -1`.
abbrev pub asked : Bytes → ℕ → Bytes
asked src len = if len == size_max then c_string src else take len src

-- They can be read.
abbrev pub IsReadable : Bytes → ℕ → Type 0
IsReadable src len = if len == size_max then terminated src ≡ true else (len ≤ length src)

-- Without `x` or `X`, with `buf` no further than `last` and a source that can be read,
-- `ngx_sprintf_str` copies the bytes asked for as far as the buffer has room.
pub sprintf_str_plain :
    (buf last : ℕ) (src : Bytes) (len : ℕ)
    → buf ≤ last
    → IsReadable src len
    → sprintf_str buf last src len 0 ≡ some (take (last - buf) (asked src len))
unfolding sprintf_str
sprintf_str_plain buf last src len le h = elim (Bool-cases (len == size_max)) [
  | inl all ↦ rw all (copy_string-take buf last src (rw all at h))
  | inr part ↦
      let fits : len ≤ length src = rw part at h in
      let e : ngx_min (last - buf) len ≡ min (last - buf) len = ground arith in
      rw (part, e, read_bytes-take (min (last - buf) len) src (omega arith), take-take)
]

-- The table that the flag selects: `x` lower case, `X` upper case.
abbrev pub table_of : ℕ → Bytes
table_of hexadecimal = if hexadecimal == 1 then hex_lower else hex_upper

sprintf_str_hex_branch :
    (buf last : ℕ) (src : Bytes) (len hexadecimal : ℕ)
    → hexadecimal ≢ 0
    → sprintf_str buf last src len hexadecimal ≡ (
        if len == size_max
        then hex_string (table_of hexadecimal) buf last src
        else hex_sized (table_of hexadecimal) len buf last src)
unfolding sprintf_str
sprintf_str_hex_branch buf last src len hexadecimal h =
    let ne : (hexadecimal == 0) ≡ false = ground arith in
    elim (Bool-cases (hexadecimal == 1)) [ inl e ↦ rw (ne, e) | inr e ↦ rw (ne, e) ]

-- With `x` or `X`, `buf` no further than `last` and a source that can be read, `ngx_sprintf_str`
-- writes two digits for each byte asked for, for as many whole bytes as the buffer has room.
pub sprintf_str_hex :
    (buf last : ℕ) (src : Bytes) (len hexadecimal : ℕ)
    → buf ≤ last
    → IsReadable src len
    → hexadecimal ≢ 0
    → sprintf_str buf last src len hexadecimal
      ≡ some (hex_dump (table_of hexadecimal) (take ((last - buf) / 2) (asked src len)))
sprintf_str_hex buf last src len hexadecimal le h ne =
    rw (sprintf_str_hex_branch buf last src len hexadecimal ne)
      (elim (Bool-cases (len == size_max)) [
        | inl all ↦ rw all (hex_string-take (table_of hexadecimal) buf last src (rw all at h))
        | inr part ↦ rw part (hex_sized-take (table_of hexadecimal) len buf last src (rw part at h))
      ])

-- What is written of the bytes asked for into `room` bytes: themselves, or two digits for each.
abbrev pub written_as : (hexadecimal room : ℕ) → Bytes → Bytes
written_as hexadecimal room src =
    if hexadecimal == 0
    then take room src
    else hex_dump (table_of hexadecimal) (take (room / 2) src)

-- With `buf` no further than `last` and a source that can be read, `ngx_sprintf_str` copies the bytes
-- asked for as far as the buffer has room, or, with `x` or `X`, writes two digits for each of
-- them, for as many whole bytes as the buffer has room.
pub sprintf_str-written_as :
    (buf last : ℕ) (src : Bytes) (len hexadecimal : ℕ)
    → buf ≤ last
    → IsReadable src len
    → sprintf_str buf last src len hexadecimal
      ≡ some (written_as hexadecimal (last - buf) (asked src len))
sprintf_str-written_as buf last src len hexadecimal le h = elim (Bool-cases (hexadecimal == 0)) [
  | inl e ↦
      let zero_flag : hexadecimal ≡ 0 = ground arith in
      rw (zero_flag, sprintf_str_plain buf last src len le h) refl
  | inr e ↦ rw (e, sprintf_str_hex buf last src len hexadecimal le h (ground arith)) refl
]

length-hex_dump : (table src : Bytes) → length (hex_dump table src) ≡ 2 * length src
length-hex_dump table [] = omega arith
length-hex_dump table (c ∷ src) = omega (arith, length-hex_dump table src)

-- In every mode `ngx_sprintf_str` reads only what may be read, and stops inside the buffer.
pub sprintf_str_bounds :
    (buf last : ℕ) (src : Bytes) (len hexadecimal : ℕ)
    → buf ≤ last
    → IsReadable src len
    → (out : Bytes) × (sprintf_str buf last src len hexadecimal ≡ some out)
      × (length out ≤ last - buf)
sprintf_str_bounds buf last src len zero le h = (
  take (last - buf) (asked src len),
  sprintf_str_plain buf last src len le h,
  omega (arith, length-take (last - buf) (asked src len)),
)
sprintf_str_bounds buf last src len (suc k) le h =
    let bytes = take ((last - buf) / 2) (asked src len) in
    (
      hex_dump (table_of (suc k)) bytes,
      sprintf_str_hex buf last src len (suc k) le h (omega arith),
      omega (
        arith,
        length-hex_dump (table_of (suc k)) bytes,
        length-take ((last - buf) / 2) (asked src len),
      ),
    )
