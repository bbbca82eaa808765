-- ===== src/Log/Silent.antt =====
-- src/core/ngx_log.c, ngx_log_error_core: what is in its buffer at the end.
use nginx_inside_out.Prelude.{
  ℕ, ◌+◌, ◌-◌, ◌%◌, ◌^◌, ◌≤◌, ◌<◌, ◌≡◌, refl, inl, inr, List, [], ◌∷◌, ◌++◌, arith, ltb, ◌==◌,
  if◌then◌else◌, length, length-append, get_elem?-inside, Bool-cases, append-nil, take_all, not,
  ◌&&◌, true, false,
}
use nginx_inside_out.Str.Num.{Bytes}
use nginx_inside_out.Str.Format.Spec.{Arg, word, half, text}
use nginx_inside_out.Str.Format.Directive.{DoubleOps}
use nginx_inside_out.Str.Format.Loop.{Formatted, done, faulted, format_loop, vslprintf}
use nginx_inside_out.Log.Text.{
  codes, Describe, message, max_error_str, and_then, slprintf, log_errno,
}
use nginx_inside_out.Log.Errno.{strerror-take}
use nginx_inside_out.Log.Core.{err_levels, Scene, inside, put_connection, put_line, log_error_core}

-- The time, and behind it the message of the error if there is one.
abbrev pub remains : Describe → (errstr err : ℕ) → (time : Bytes) → Formatted
remains describe errstr err time =
    if err == 0
    then done time
    else if ltb (errstr % 2 ^ 8) 50
    then inside (time ++ message (describe err))
    else faulted

module _ {Double : Type 0} (ops : DoubleOps Double) where
  -- Nothing is written to a buffer that has no room.
  slprintf-full :
      (start last : ℕ) (content : Bytes) (c : ℕ) (fmt : Bytes) (args : List (Arg Double))
      → last ≤ start + length content
      → slprintf ops start last content (c ∷ fmt) args ≡ done content
  unfolding slprintf vslprintf format_loop
  slprintf-full start last content c fmt args h =
      let full : (not (c == 0) && ltb (start + length content) last) ≡ false = ground arith in
      rw (full, append-nil content) refl

  log_errno-full :
      (describe : Describe) (start last : ℕ) (content : Bytes) (err : ℕ)
      → last < 2 ^ 8
      → 2 ^ 8 ≤ start
      → start + length content ≤ 2 ^ 63
      → length (message (describe err)) < 2 ^ 32
      → log_errno ops describe start last content err
        ≡ (if ltb last 50 then done (content ++ message (describe err)) else faulted)
  unfolding log_errno
  log_errno-full describe start last content err low high top small =
      let msg = message (describe err) in
      elim (Bool-cases (ltb last 50)) [
        | inl wraps ↦
            let test : ltb (last + 2 ^ 64 - 50) (start + length content) ≡ false = ground arith in
            let far : ltb last (start + length content) ≡ true = ground arith in
            let closed : ltb (start + length (content ++ msg)) last ≡ false =
              ground (arith, length-append content msg) in
            rw
              (
                wraps,
                test,
                slprintf-full start last content b' ' (codes "(%d: " ++ 0 ∷ []) (half err ∷ [])
                    (omega arith),
                far,
                strerror-take describe err (last + 2 ^ 64 - (start + length content)),
                take_all (last + 2 ^ 64 - (start + length content)) msg (ground arith),
                closed,
              )
              refl
        | inr below ↦
            let test : ltb (last - 50) (start + length content) ≡ true = ground arith in
            let outside : ltb last (start + 50) ≡ true = ground arith in
            rw (below, test, outside) refl
      ]

module _ {Double : Type 0} (ops : DoubleOps Double) (describe : Describe) (scene : Scene)
    (errstr : ℕ) where
  put_connection-full :
      (last : ℕ) (content : Bytes)
      → last ≤ errstr + length content
      → put_connection ops describe scene errstr last content ≡ done content
  put_connection-full last content h = elim (Bool-cases (scene.connection == 0)) [
    | inl unset ↦ rw unset refl
    | inr set ↦ rw set (
        slprintf-full ops errstr last content b'*' (codes "%uA" ++ 0 ∷ [])
          (word scene.connection ∷ []) h)
  ]

  put_line-remains :
      (name : Bytes) (err c : ℕ) (fmt : Bytes) (args : List (Arg Double))
      → 2 ^ 8 ≤ errstr
      → errstr + max_error_str ≤ 2 ^ 63
      → length (message (describe err)) < 2 ^ 32
      → put_line ops describe scene errstr name err (c ∷ fmt) args
        ≡ and_then (inside scene.err_log_time) (remains describe errstr err)
  unfolding put_line
  put_line-remains name err c fmt args high top small =
      let time = scene.err_log_time in
      let last = (errstr + max_error_str) % 2 ^ 8 in
      let same : (errstr + max_error_str) % 2 ^ 8 ≡ errstr % 2 ^ 8 = omega arith in
      let low : last ≤ errstr + length time = omega arith in
      elim (Bool-cases (ltb max_error_str (length time))) [
        | inl long ↦ rw long refl
        | inr short ↦
            rw
              (
                short,
                slprintf-full ops errstr last time b' ' (codes "[%V] " ++ 0 ∷ [])
                    (text (length name) name ∷ []) low,
                slprintf-full ops errstr last time b'%' (codes "P#%d: " ++ 0 ∷ [])
                    (half scene.pid ∷ half 0 ∷ []) low,
                put_connection-full last time low,
                slprintf-full ops errstr last time c fmt args low,
              )
              (elim (Bool-cases (err == 0)) [
                | inl none_set ↦ rw (none_set, short) refl
                | inr set ↦
                    rw
                      (
                        set,
                        log_errno-full ops describe errstr last time err (omega arith) high
                            (ground arith) small,
                        same,
                      )
                      (elim (Bool-cases (ltb (errstr % 2 ^ 8) 50)) [
                        | inl wraps ↦ rw wraps refl
                        | inr below ↦ rw below refl
                      ])
              ])
      ]

  -- Whatever the format and its arguments are, ngx_log_error_core leaves in its buffer only the time
  -- and, where there is an error and the last byte of the address of the buffer is less than 50,
  -- the message of the error behind it. Where there is an error and that byte is not less than
  -- 50, and where that text is longer than the buffer, the function writes elsewhere. This is for
  -- one of the nine levels, a format of at least one byte, a buffer that neither starts in
  -- the first 256 bytes of the address space nor ends in its upper half, and a message shorter
  -- than 2^32 bytes.
  pub log_error_core-remains :
      (level err c : ℕ) (fmt : Bytes) (args : List (Arg Double))
      → level < 9
      → 2 ^ 8 ≤ errstr
      → errstr + max_error_str ≤ 2 ^ 63
      → length (message (describe err)) < 2 ^ 32
      → log_error_core ops describe scene errstr level err (c ∷ fmt) args
        ≡ and_then (inside scene.err_log_time) (remains describe errstr err)
  unfolding log_error_core
  log_error_core-remains level err c fmt args known high top small =
      let name = get_elem?-inside err_levels level known in
      rw name.1 (put_line-remains name.0 err c fmt args high top small)
