-- ===== src/Str/Num/Padding.antt =====
-- src/core/ngx_string.c, ngx_sprintf_num: padding and the bounded copy.
use nginx_inside_out.Prelude.{
  sym, ℕ, zero, suc, ◌+◌, ◌-◌, ◌≤◌, ◌≡◌, min, inl, inr, ◌&&◌, Bool-cases, ◌++◌, arith, ltb,
  if◌then◌else◌, length, take, replicate, length-replicate, length-take, take-append,
  take-replicate, take_all,
}
use nginx_inside_out.Str.Num.{Bytes, numeral, pad_loop, sprintf_num}

-- The padding loop writes what is wanted or what fits, whichever is less.
pad_loop-replicate :
    (rounds len width buf last z : ℕ)
    → width - len ≤ rounds
    → pad_loop rounds len width buf last z ≡ replicate (min (width - len) (last - buf)) z
unfolding pad_loop
pad_loop-replicate zero len width buf last z h = ground arith
pad_loop-replicate (suc r) len width buf last z h =
    elim (Bool-cases (ltb len width && ltb buf last)) [
      | inl more ↦
          let e : min (width - len) (last - buf)
              ≡ suc (min (width - (len + 1)) (last - (buf + 1))) =
            ground arith in
          rw (more, e, pad_loop-replicate r (len + 1) width (buf + 1) last z (omega arith))
      | inr done ↦ let e : min (width - len) (last - buf) ≡ 0 = ground arith in rw (done, e)
    ]

-- The bound on the copy is the room behind the padding.
copy-take :
    (start last : ℕ) (digits : Bytes)
    → take (if ltb last (start + length digits) then last - start else length digits) digits
      ≡ take (last - start) digits
copy-take start last digits = elim (Bool-cases (ltb last (start + length digits))) [
  | inl over ↦ rw over
  | inr fits ↦
      rw (fits, take_all (length digits) digits (omega arith))
        (sym (take_all (last - start) digits (ground arith)))
]

-- With `buf` no further than `last`, the bytes written are those of the padded number, as far as
-- the buffer has room for them.
pub sprintf_num-take :
    (buf last ui64 z hexadecimal width : ℕ)
    → buf ≤ last
    → let digits = numeral ui64 hexadecimal in
      sprintf_num buf last ui64 z hexadecimal width
      ≡ take (last - buf) (replicate (width - length digits) z ++ digits)
unfolding sprintf_num
sprintf_num-take buf last ui64 z hexadecimal width h =
    let digits = numeral ui64 hexadecimal in
    let wanted = width - length digits in
    let fills : min wanted (last - buf) ≡ min (last - buf) wanted = omega arith in
    let room : last - (buf + min wanted (last - buf)) ≡ last - buf - wanted = omega arith in
    rw (
      pad_loop-replicate width (length digits) width buf last z (omega arith),
      copy-take (buf + length (replicate (min wanted (last - buf)) z)) last digits,
      length-replicate,
      room,
      take-append,
      take-replicate,
      length-replicate,
      fills,
    )

pub length-sprintf_num-le :
    (buf last ui64 z hexadecimal width : ℕ)
    → buf ≤ last
    → length (sprintf_num buf last ui64 z hexadecimal width) ≤ last - buf
length-sprintf_num-le buf last ui64 z hexadecimal width h =
    let digits = numeral ui64 hexadecimal in
    let padded = replicate (width - length digits) z ++ digits in
    rw (sprintf_num-take buf last ui64 z hexadecimal width h)
      (omega (arith, length-take (last - buf) padded))
