-- ===== src/Str/Format/Advance.antt =====
-- src/core/ngx_string.c, ngx_vslprintf: one round writes inside the buffer and takes from the format.
use nginx_inside_out.Prelude.{
  ℕ, suc, ◌+◌, ◌-◌, ◌≤◌, ◌<◌, inl, inr, List, [], ◌∷◌, ◌++◌, Option, none, some, arith, ltb, ◌==◌,
  ◌||◌, Bool-cases, if_elim, ltb→lt, length, length-append,
}
use nginx_inside_out.Str.Num.{Bytes, sprintf_num}
use nginx_inside_out.Str.Num.Padding.{length-sprintf_num-le}
use nginx_inside_out.Str.Copy.{sprintf_str}
use nginx_inside_out.Str.Copy.Within.{Within, sprintf_str-Within}
use nginx_inside_out.Str.Format.Spec.{Arg, half, text, string, double, Spec, parse_spec}
use nginx_inside_out.Str.Format.Number.{
  Value, Outcome, number, other, missing, number_of, print_value,
}
use nginx_inside_out.Str.Format.Directive.{
  DoubleOps, double_parts, print_fraction, print_magnitude, print_double, Round, wrote, fault,
  wrote_string, put_text, put_string, put_double, put_char, put_other, put_letter, directive, round,
}
use nginx_inside_out.Str.Format.Left.{Shorter, parse_spec-Shorter}

length-print_value-le :
    (buf last : ℕ) (v : Value) → buf < last → length (print_value buf last v) ≤ last - buf
unfolding print_value
length-print_value-le buf last v h = grind (arith, length-sprintf_num-le)

module _ {Double : Type 0} where
  -- A round leaves the buffer at most full, and no more of the format than there was.
  abbrev pub Advances : (room left : ℕ) → Round Double → Type 0
  Advances room left (wrote out fmt args) = (length out ≤ room) × (length fmt ≤ left)
  Advances room left fault = Unit {0}

  wrote_string-Advances :
      (o : Option Bytes) (fmt : Bytes) (args : List (Arg Double)) (room left : ℕ)
      → Within room o
      → length fmt ≤ left
      → Advances room left (wrote_string o fmt args)
  wrote_string-Advances none fmt args room left h i = tt
  wrote_string-Advances (some out) fmt args room left h i = (h, i)

  Advances-mono : (room m n : ℕ) (r : Round Double) → m ≤ n → Advances room m r → Advances room n r
  Advances-mono room m n (wrote out fmt args) h i = omega arith
  Advances-mono room m n fault h i = tt

module _ {Double : Type 0} (ops : DoubleOps Double) where
  length-print_fraction-le :
      (buf last frac frac_width : ℕ)
      → buf ≤ last
      → length (print_fraction ops buf last frac frac_width) ≤ last - buf
  unfolding print_fraction
  length-print_fraction-le buf last frac frac_width h = elim (Bool-cases (ltb buf last)) [
    | inl room ↦ rw room (
        omega (
          arith,
          ltb→lt buf last room,
          length-sprintf_num-le (buf + 1) last frac b'0' 0 frac_width,
        ))
    | inr full ↦
        rw full (omega (arith, length-sprintf_num-le (buf + 0) last frac b'0' 0 frac_width))
  ]

  length-print_magnitude-le :
      (buf last : ℕ) (s : Spec) (f : Double)
      → buf ≤ last
      → length (print_magnitude ops buf last s f) ≤ last - buf
  unfolding print_magnitude
  length-print_magnitude-le buf last s f h =
      let (ui64, frac) = double_parts ops s.frac_width f in
      let front = sprintf_num buf last ui64 s.zero_char 0 s.width in
      let front_fits : length front ≤ last - buf =
        length-sprintf_num-le buf last ui64 s.zero_char 0 s.width h in
      let back = print_fraction ops (buf + length front) last frac s.frac_width in
      let both_fit : length (front ++ back) ≤ last - buf = omega (
        arith,
        length-append front back,
        length-print_fraction-le (buf + length front) last frac s.frac_width (omega arith),
      ) in
      elim (Bool-cases (s.frac_width == 0)) [ inl e ↦ rw e front_fits | inr e ↦ rw e both_fit ]

  length-print_double-le :
      (buf last : ℕ) (s : Spec) (f : Double)
      → buf < last
      → length (print_double ops buf last s f) ≤ last - buf
  unfolding print_double
  length-print_double-le buf last s f h =
      let minus : length (b'-' ∷ print_magnitude ops (buf + 1) last s (ops.negate f)) ≤ last - buf =
        omega (arith, length-print_magnitude-le (buf + 1) last s (ops.negate f) (omega arith)) in
      elim (Bool-cases (ops.negative f)) [
        | inl e ↦ rw e minus
        | inr e ↦ rw e (length-print_magnitude-le buf last s f (omega arith))
      ]

module _ {Double : Type 0} (ops : DoubleOps Double) {buf last : ℕ} (room : buf < last) where
  put_text-Advances :
      (s : Spec) (args : List (Arg Double)) (fmt : Bytes)
      → Advances (last - buf) (length fmt) (put_text buf last s args fmt)
  put_text-Advances s (text len src ∷ args) fmt =
      wrote_string-Advances (sprintf_str buf last src len s.hex) fmt args (last - buf) (length fmt)
        (sprintf_str-Within buf last src len s.hex) (omega arith)
  put_text-Advances s _ fmt = tt

  put_string-Advances :
      (s : Spec) (args : List (Arg Double)) (fmt : Bytes)
      → Advances (last - buf) (length fmt) (put_string buf last s args fmt)
  put_string-Advances s (string src ∷ args) fmt =
      wrote_string-Advances (sprintf_str buf last src s.slen s.hex) fmt args (last - buf)
        (length fmt) (sprintf_str-Within buf last src s.slen s.hex) (omega arith)
  put_string-Advances s _ fmt = tt

  put_double-Advances :
      (s : Spec) (args : List (Arg Double)) (fmt : Bytes)
      → Advances (last - buf) (length fmt) (put_double ops buf last s args fmt)
  put_double-Advances s (double f ∷ args) fmt =
      (length-print_double-le ops buf last s f room, omega arith)
  put_double-Advances s _ fmt = tt

  put_char-Advances :
      (args : List (Arg Double)) (fmt : Bytes)
      → Advances (last - buf) (length fmt) (put_char args fmt)
  put_char-Advances (half d ∷ args) fmt = omega arith
  put_char-Advances _ fmt = tt

  one_byte :
      (c : ℕ) (args : List (Arg Double)) (fmt : Bytes)
      → Advances (last - buf) (length fmt) (wrote (c ∷ []) fmt args)
  one_byte c args fmt = omega arith

  put_other-Advances :
      (c : ℕ) (s : Spec) (args : List (Arg Double)) (fmt : Bytes)
      → Advances (last - buf) (length fmt) (put_other ops buf last c s args fmt)
  unfolding put_other
  put_other-Advances c s args fmt =
      if_elim ok (c == b'V' || c == b'v') (put_text-Advances s args fmt) (
        if_elim ok (c == b's') (put_string-Advances s args fmt) (
          if_elim ok (c == b'f') (put_double-Advances s args fmt) (
            if_elim ok (c == b'c') (put_char-Advances args fmt) (
              if_elim ok (c == b'Z') (one_byte 0 args fmt)
                (if_elim ok (c == b'N') (one_byte 10 args fmt) (one_byte c args fmt))))))
    where
      ok : Round Double → Type 0
      ok = Advances (last - buf) (length fmt)

  put_letter-Advances :
      (s : Spec) (args : List (Arg Double)) (fmt : Bytes)
      → Advances (last - buf) (length fmt) (put_letter ops buf last s args fmt)
  unfolding put_letter
  put_letter-Advances s args [] = tt
  put_letter-Advances s args (c ∷ fmt) = split (number_of c s args)
    where
      split :
          (o : Outcome Double)
          → Advances (last - buf) (suc (length fmt)) (elim o [
            | number v args' ↦ wrote (print_value buf last v) fmt args'
            | other ↦ put_other ops buf last c s args fmt
            | missing ↦ fault
          ])
      split (number v args') = (length-print_value-le buf last v room, omega arith)
      split other =
          Advances-mono (last - buf) (length fmt) (suc (length fmt))
            (put_other ops buf last c s args fmt) (omega arith) (put_other-Advances c s args fmt)
      split missing = tt

  directive-Advances :
      (args : List (Arg Double)) (fmt : Bytes)
      → Advances (last - buf) (length fmt) (directive ops buf last args fmt)
  unfolding directive
  directive-Advances args fmt = split (parse_spec args fmt) (parse_spec-Shorter args fmt)
    where
      split :
          (o : Option (Spec × List (Arg Double) × Bytes))
          → Shorter (length fmt) o
          → Advances (last - buf) (length fmt) (elim o [
            | none ↦ fault
            | some (s, args', fmt') ↦ put_letter ops buf last s args' fmt'
          ])
      split none h = tt
      split (some (s, args', fmt')) h =
          Advances-mono (last - buf) (length fmt') (length fmt)
            (put_letter ops buf last s args' fmt') h (put_letter-Advances s args' fmt')

  pub round-Advances :
      (c : ℕ) (args : List (Arg Double)) (fmt : Bytes)
      → Advances (last - buf) (length fmt) (round ops buf last c args fmt)
  unfolding round
  round-Advances c args fmt =
      if_elim (Advances (last - buf) (length fmt)) (c == b'%') (directive-Advances args fmt)
        (one_byte c args fmt)
