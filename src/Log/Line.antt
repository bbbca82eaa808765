-- ===== src/Log/Line.antt =====
-- src/core/ngx_log.c, ngx_log_stderr: the line that it writes.
use nginx_inside_out.Prelude.{
  ℕ, ◌+◌, ◌-◌, ◌^◌, ◌≤◌, ◌<◌, ◌≡◌, inl, inr, refl, List, [], ◌∷◌, ◌++◌, arith, ltb, ◌==◌,
  if◌then◌else◌, Bool-cases, length, take, length-take, take_all, take-take,
}
use nginx_inside_out.Str.Num.{Bytes}
use nginx_inside_out.Str.Format.Directive.{DoubleOps}
use nginx_inside_out.Str.Format.Loop.{done}
use nginx_inside_out.Str.Format.Items.{Item, AllItems, render, format_of, args_of}
use nginx_inside_out.Log.Text.{codes, Describe, max_error_str, linefeed_size, end_line, log_stderr}
use nginx_inside_out.Log.Errno.{kept, code_text, slprintf-render, log_errno-text}

-- What a line says: the text in the buffer, with the error behind it if there is one.
abbrev pub line_text : Describe → (err : ℕ) → Bytes → Bytes
line_text describe err printed =
    if err == 0 then printed else kept max_error_str printed ++ code_text describe err

end_line-take :
    (start : ℕ) (text : Bytes)
    → length text ≤ max_error_str
    → end_line start (start + max_error_str) text ≡ take (max_error_str - 1) text ++ 10 ∷ []
end_line-take start text h =
    elim (Bool-cases (ltb (start + max_error_str - linefeed_size) (start + length text))) [
      | inl long ↦
          let room : start + max_error_str - linefeed_size - start ≡ 2047 = omega arith in
          rw (long, room) refl
      | inr short ↦ rw (short, take_all 2047 text (ground arith)) refl
    ]

module _ {Double : Type 0} (ops : DoubleOps Double) (describe : Describe) (start err : ℕ)
    (items : List Item) (ok : AllItems items) (word : err < 2 ^ 32) where
  -- For a format put together from well-formed pieces and an error number below 2^32, the line that
  -- `ngx_log_stderr` writes is `nginx: `, what the pieces stand for and, unless the number is 0, the
  -- error in brackets, cut off to leave room for the line feed at its end.
  pub log_stderr-line :
      log_stderr ops describe start err (format_of items) (args_of items)
      ≡ done (
          take
            (max_error_str - 1)
            (line_text describe err (take max_error_str (codes "nginx: " ++ render items)))
          ++ 10 ∷ [])
  unfolding log_stderr
  log_stderr-line =
      rw
        (
          slprintf-render ops items start (start + max_error_str) (codes "nginx: ") ok
              (omega arith),
          size,
        )
        (elim (Bool-cases (err == 0)) [
          | inl none_set ↦ rw (none_set, end_line-take start printed fits) refl
          | inr set ↦
              rw
                (
                  set,
                  log_errno-text ops describe start (start + max_error_str) printed err
                      (omega arith) (omega (arith, fits)) word,
                  size,
                  end_line-take start (take max_error_str full)
                      (omega (arith, length-take max_error_str full)),
                  take-take,
                )
                refl
        ])
    where
      size : start + max_error_str - start ≡ max_error_str
      size = omega arith

      printed : Bytes
      printed = take max_error_str (codes "nginx: " ++ render items)

      fits : length printed ≤ max_error_str
      fits = omega (arith, length-take max_error_str (codes "nginx: " ++ render items))

      full : Bytes
      full = kept max_error_str printed ++ code_text describe err
