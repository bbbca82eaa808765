-- ===== src/Log/Core.antt =====
-- src/core/ngx_log.h, the levels and the macros ngx_log_error and ngx_log_debug, and src/core/ngx_log.c,
-- ngx_log_error_core. The function ends once the line is in its buffer; what it leaves there is the
-- list of the bytes, and a write elsewhere is a fault.
use Prim.Native.Nat.{bit_and}
use nginx_inside_out.Prelude.{
  ℕ, ◌+◌, ◌%◌, ◌^◌, List, [], ◌∷◌, ◌++◌, Option, none, some, ltb, leb, ◌==◌, if◌then◌else◌, length,
  get_elem?,
}
use nginx_inside_out.Str.Num.{Bytes}
use nginx_inside_out.Str.Format.Spec.{Arg, word, half, text}
use nginx_inside_out.Str.Format.Directive.{DoubleOps}
use nginx_inside_out.Str.Format.Loop.{Formatted, done, faulted}
use nginx_inside_out.Log.Text.{codes, Describe, max_error_str, and_then, slprintf, log_errno}
use nginx_inside_out.Log.Start.{Log}

-- `err_levels`
abbrev pub err_levels : List Bytes
err_levels =
    []
    ∷ codes "emerg"
    ∷ codes "alert"
    ∷ codes "crit"
    ∷ codes "error"
    ∷ codes "warn"
    ∷ codes "notice"
    ∷ codes "info"
    ∷ codes "debug"
    ∷ []

-- NGX_LOG_DEBUG
abbrev pub log_debug_level : ℕ
log_debug_level = 8

-- NGX_LOG_DEBUG_CORE and the others
pub data DebugLevel : Type 0 where
  debug_core : DebugLevel
  debug_alloc : DebugLevel
  debug_mutex : DebugLevel
  debug_event : DebugLevel
  debug_http : DebugLevel
  debug_mail : DebugLevel
  debug_stream : DebugLevel
  debug_connection : DebugLevel
  debug_all : DebugLevel

abbrev pub mask : DebugLevel → ℕ
mask debug_core = 0x010
mask debug_alloc = 0x020
mask debug_mutex = 0x040
mask debug_event = 0x080
mask debug_http = 0x100
mask debug_mail = 0x200
mask debug_stream = 0x400
mask debug_connection = 0x80000000
mask debug_all = 0x7ffffff0

-- What the function reads besides its arguments: `ngx_cached_err_log_time`, `ngx_log_pid`, and
-- `log->connection`. Without threads `ngx_log_tid` is 0.
pub record Scene : Type 0 where
  pub err_log_time : Bytes
  pub pid : ℕ
  pub connection : ℕ

-- the buffer holds no more
abbrev pub inside : Bytes → Formatted
inside content = if ltb max_error_str (length content) then faulted else done content

module _ {Double : Type 0} (ops : DoubleOps Double) (describe : Describe) (scene : Scene)
    (errstr : ℕ) where
  -- `if (log->connection) { … }`
  abbrev pub put_connection : (last : ℕ) → Bytes → Formatted
  put_connection last content =
      if scene.connection == 0
      then done content
      else slprintf ops errstr last content (codes "*%uA" ++ 0 ∷ []) (word scene.connection ∷ [])

  -- ngx_log_error_core with `errstr` at an address, from the name of the level on. `last` is a u_char;
  -- where it stands for a pointer it is the pointer with that number.
  unfoldable pub put_line : (name : Bytes) (err : ℕ) (fmt : Bytes) → List (Arg Double) → Formatted
  put_line name err fmt args =
      let last = (errstr + max_error_str) % 2 ^ 8 in
      and_then (inside scene.err_log_time) λ time.
        and_then
          (slprintf ops errstr last time (codes " [%V] " ++ 0 ∷ []) (text (length name) name ∷ []))
          λ levelled.
            and_then
              (slprintf ops errstr last levelled (codes "%P#%d: " ++ 0 ∷ [])
                (half scene.pid ∷ half 0 ∷ []))
              λ numbered. and_then (put_connection last numbered) λ connected.
                and_then (slprintf ops errstr last connected fmt args) λ printed.
                  and_then
                    (if err == 0
                      then done printed
                      else log_errno ops describe errstr last printed err)
                    inside

  -- ngx_log_error_core; there is no level behind the table.
  unfoldable pub log_error_core : (level err : ℕ) → (fmt : Bytes) → List (Arg Double) → Formatted
  log_error_core level err fmt args = elim (get_elem? err_levels level) [
    | none ↦ faulted
    | some name ↦ put_line name err fmt args
  ]

  -- ngx_log_error; `none` is no call.
  unfoldable pub log_error :
      Log → (level err : ℕ) → (fmt : Bytes) → List (Arg Double) → Option Formatted
  log_error log level err fmt args =
      if leb level log.log_level then some (log_error_core level err fmt args) else none

  -- ngx_log_debug
  unfoldable pub log_debug :
      Log → (level err : ℕ) → (fmt : Bytes) → List (Arg Double) → Option Formatted
  log_debug log level err fmt args =
      if bit_and log.log_level level == 0
      then none
      else some (log_error_core log_debug_level err fmt args)
