-- ===== src/Str/Copy/Within.antt =====
-- src/core/ngx_string.c, ngx_sprintf_str: whatever the source, no byte is written behind `last`.
use nginx_inside_out.Prelude.{
  ℕ, zero, suc, ◌+◌, ◌-◌, ◌≤◌, ◌≡◌, inl, inr, ◌&&◌, not, [], ◌∷◌, Option, none, some, arith, ltb,
  ◌==◌, Bool-cases, length, length-append,
}
use nginx_inside_out.Str.Num.{Bytes, hex_lower, hex_upper}
use nginx_inside_out.Str.Copy.{
  size_max, ngx_min, prepend, read_bytes, copy_string, hex_pair, hex_string, hex_sized, sprintf_str,
}

-- At most `room` bytes, if there is a result.
abbrev pub Within : ℕ → Option Bytes → Type 0
Within room none = Unit {0}
Within room (some out) = length out ≤ room

prepend-Within :
    (w : Bytes) (o : Option Bytes) (room : ℕ)
    → length w ≤ room
    → Within (room - length w) o
    → Within room (prepend w o)
prepend-Within w none room h i = tt
prepend-Within w (some s) room h i = omega (arith, length-append w s)

read_bytes-Within : (n : ℕ) (src : Bytes) → Within n (read_bytes n src)
unfolding read_bytes
read_bytes-Within zero src = omega arith
read_bytes-Within (suc n) [] = tt
read_bytes-Within (suc n) (c ∷ src) =
    let e : suc n - 1 ≡ n = omega arith in
    prepend-Within (c ∷ []) (read_bytes n src) (suc n) (omega arith)
      (rw e (read_bytes-Within n src))

copy_string-Within : (buf last : ℕ) (src : Bytes) → Within (last - buf) (copy_string buf last src)
unfolding copy_string
copy_string-Within buf last [] = tt
copy_string-Within buf last (c ∷ src) = elim (Bool-cases (not (c == 0) && ltb buf last)) [
  | inl more ↦
      let e : last - buf - 1 ≡ last - (buf + 1) = omega arith in
      rw more (
        prepend-Within (c ∷ []) (copy_string (buf + 1) last src) (last - buf) (ground arith)
          (rw e (copy_string-Within (buf + 1) last src)))
  | inr end ↦ rw end (omega arith)
]

module _ (table : Bytes) where
  hex_string-Within :
      (buf last : ℕ) (src : Bytes) → Within (last - buf) (hex_string table buf last src)
  unfolding hex_string
  hex_string-Within buf last [] = tt
  hex_string-Within buf last (c ∷ src) = elim (Bool-cases (not (c == 0) && ltb buf (last - 1))) [
    | inl more ↦
        let e : last - buf - 2 ≡ last - (buf + 2) = omega arith in
        rw more (
          prepend-Within (hex_pair table c) (hex_string table (buf + 2) last src) (last - buf)
            (ground arith) (rw e (hex_string-Within (buf + 2) last src)))
    | inr end ↦ rw end (omega arith)
  ]

  hex_sized-Within :
      (len buf last : ℕ) (src : Bytes) → Within (last - buf) (hex_sized table len buf last src)
  unfolding hex_sized
  hex_sized-Within zero buf last src = omega arith
  hex_sized-Within (suc len) buf last [] = elim (Bool-cases (ltb buf (last - 1))) [
    | inl e ↦ rw e tt
    | inr e ↦ rw e (omega arith)
  ]
  hex_sized-Within (suc len) buf last (c ∷ src) = elim (Bool-cases (ltb buf (last - 1))) [
    | inl more ↦
        let e : last - buf - 2 ≡ last - (buf + 2) = omega arith in
        rw more (
          prepend-Within (hex_pair table c) (hex_sized table len (buf + 2) last src) (last - buf)
            (ground arith) (rw e (hex_sized-Within len (buf + 2) last src)))
    | inr end ↦ rw end (omega arith)
  ]

Within-mono : (o : Option Bytes) {m n : ℕ} → m ≤ n → Within m o → Within n o
Within-mono none h i = tt
Within-mono (some s) h i = omega arith

pub sprintf_str-Within :
    (buf last : ℕ) (src : Bytes) (len hexadecimal : ℕ)
    → Within (last - buf) (sprintf_str buf last src len hexadecimal)
unfolding sprintf_str
sprintf_str-Within buf last src len hexadecimal = elim (Bool-cases (hexadecimal == 0)) [
  | inl plain ↦ elim (Bool-cases (len == size_max)) [
    | inl all ↦ rw (plain, all) (copy_string-Within buf last src)
    | inr part ↦
        rw (plain, part)
          (Within-mono (read_bytes (ngx_min (last - buf) len) src) (ground arith)
            (read_bytes-Within (ngx_min (last - buf) len) src))
  ]
  | inr hex ↦ elim (Bool-cases (hexadecimal == 1)) [
    | inl lower ↦ elim (Bool-cases (len == size_max)) [
      | inl all ↦ rw (hex, lower, all) (hex_string-Within hex_lower buf last src)
      | inr part ↦ rw (hex, lower, part) (hex_sized-Within hex_lower len buf last src)
    ]
    | inr upper ↦ elim (Bool-cases (len == size_max)) [
      | inl all ↦ rw (hex, upper, all) (hex_string-Within hex_upper buf last src)
      | inr part ↦ rw (hex, upper, part) (hex_sized-Within hex_upper len buf last src)
    ]
  ]
]
