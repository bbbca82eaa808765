-- ===== src/Log/Text.antt =====
-- src/core/ngx_log.c, ngx_log_errno and ngx_log_stderr, and what they call: ngx_strerror of
-- src/os/unix/ngx_errno.c and ngx_slprintf. What the buffer `errstr` holds is the list of the bytes
-- from its start `start` up to the pointer that the C code moves on.
use Prim.Native.Char.{code}
use Prim.Native.String.{String}
use nginx_inside_out.Prelude.{
  ℕ, ◌+◌, ◌-◌, ◌^◌, List, [], ◌∷◌, ◌++◌, Option, none, some, ltb, ◌==◌, if◌then◌else◌, length, take,
}
use nginx_inside_out.Str.Num.{Bytes}
use nginx_inside_out.Str.Copy.{ngx_min}
use nginx_inside_out.Str.Format.Spec.{Arg, half}
use nginx_inside_out.Str.Format.Directive.{DoubleOps}
use nginx_inside_out.Str.Format.Loop.{Formatted, done, faulted, no_fuel, vslprintf}

-- the bytes of a literal
abbrev pub codes : String → Bytes
codes String.[] = []
codes (String.◌∷◌ c s) = code c ∷ codes s

-- `ngx_unknown_error`
abbrev pub unknown_error : Bytes
unknown_error = codes "Unknown error"

-- `strerrordesc_np`: the message of an error number, `none` where it returns NULL
abbrev pub Describe : Type 0
Describe = ℕ → Option Bytes

abbrev pub message : Option Bytes → Bytes
message none = unknown_error
message (some msg) = msg

-- ngx_strerror, with room for `size` bytes
unfoldable pub strerror : Describe → (err size : ℕ) → Bytes
strerror describe err size =
    let msg = message (describe err) in take (ngx_min size (length msg)) msg

-- NGX_MAX_ERROR_STR
abbrev pub max_error_str : ℕ
max_error_str = 2048

-- NGX_LINEFEED_SIZE
abbrev pub linefeed_size : ℕ
linefeed_size = 1

-- what follows where the formatting went well
abbrev pub and_then : Formatted → (Bytes → Formatted) → Formatted
and_then (done out) f = f out
and_then faulted f = faulted
and_then no_fuel f = no_fuel

-- `p - n`, which wraps where `n` is the greater of the two
abbrev pub back : (p n : ℕ) → ℕ
back p n = if ltb p n then p + 2 ^ 64 - n else p - n

-- `if (buf > last - 50) { buf = last - 50; *buf++ = '.'; … }`, in a buffer that has these 50 bytes
abbrev pub leave_space : (start last : ℕ) → Bytes → Formatted
leave_space start last content =
    if ltb (back last 50) (start + length content)
    then (if ltb last (start + 50)
        then faulted
        else done (take (back last 50 - start) content ++ codes "..."))
    else done content

-- `if (buf < last) { *buf++ = ')'; }`
abbrev pub close_bracket : (start last : ℕ) → Bytes → Bytes
close_bracket start last content =
    if ltb (start + length content) last then content ++ codes ")" else content

-- `if (p > last - NGX_LINEFEED_SIZE) { p = last - NGX_LINEFEED_SIZE; } *p++ = LF;`
abbrev pub end_line : (start last : ℕ) → Bytes → Bytes
end_line start last content =
    (if ltb (last - linefeed_size) (start + length content)
      then take (last - linefeed_size - start) content
      else content)
    ++ 10 ∷ []

module _ {Double : Type 0} (ops : DoubleOps Double) where
  -- ngx_slprintf behind what is there
  unfoldable pub slprintf : (start last : ℕ) → Bytes → (fmt : Bytes) → List (Arg Double) → Formatted
  slprintf start last content fmt args =
      and_then (vslprintf ops (start + length content) last fmt args) (λ out. done (content ++ out))

  -- ngx_log_errno
  unfoldable pub log_errno : Describe → (start last : ℕ) → Bytes → (err : ℕ) → Formatted
  log_errno describe start last content err = and_then (leave_space start last content) λ kept.
      and_then (slprintf start last kept (codes " (%d: " ++ 0 ∷ []) (half err ∷ [])) λ shown. done (
        close_bracket start last
          (shown ++ strerror describe err (back last (start + length shown))))

  -- ngx_log_stderr with `errstr` at `start`: the bytes that it passes to `write`
  unfoldable pub log_stderr :
      Describe → (start err : ℕ) → (fmt : Bytes) → List (Arg Double) → Formatted
  log_stderr describe start err fmt args =
      let last = start + max_error_str in
      and_then (slprintf start last (codes "nginx: ") fmt args) λ printed.
        and_then (if err == 0 then done printed else log_errno describe start last printed err)
          λ text. done (end_line start last text)
