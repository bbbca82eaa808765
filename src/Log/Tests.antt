-- ===== src/Log/Tests.antt =====
-- src/core/ngx_log.c: the theorems at inputs that meet their hypotheses.
use nginx_inside_out.Prelude.{
  ℕ, ◌-◌, ◌≡◌, refl, false, [], ◌∷◌, ◌++◌, Option, none, some, arith, ◌==◌, if◌then◌else◌, take,
  leb,
}
use nginx_inside_out.Str.Num.{Bytes}
use nginx_inside_out.Str.Format.Directive.{DoubleOps}
use nginx_inside_out.Str.Format.Loop.{done}
use nginx_inside_out.Str.Format.Items.{plain, decimal, format_of, args_of, render}
use nginx_inside_out.Pool.Example.{libc}
use nginx_inside_out.Log.Text.{codes, Describe, max_error_str, and_then, log_stderr}
use nginx_inside_out.Log.Line.{line_text, log_stderr-line}
use nginx_inside_out.Log.Start.{Log, OpenFile, failed, log_notice, log_init}
use nginx_inside_out.Log.Core.{
  Scene, inside, mask, debug_http, log_error_core, log_error, log_debug,
}
use nginx_inside_out.Log.Silent.{remains, log_error_core-remains}
use nginx_inside_out.Log.Gates.{log_init-gates}
use nginx_inside_out.Log.Path.{started, HasErrno, log_init-path}

-- No floating-point value is used here: the type of doubles is the numbers.
abbrev no_doubles : DoubleOps ℕ
no_doubles = record { negative = λ d. false; negate = λ d. d; whole = λ d. d; rounded = λ d u s. 0 }

abbrev describe : Describe
describe err = if err == 2 then some (codes "No such file or directory") else none

-- a system that opens no file
abbrev no_file : OpenFile
no_file path = failed 2

no_file-HasErrno : HasErrno no_file
no_file-HasErrno path e h = ground arith

abbrev conf : Option Bytes
conf = some (codes "conf" ++ 0 ∷ [])

abbrev error_log : Option Bytes
error_log = some (codes "error.log" ++ 0 ∷ codes "junk")

log_stderr-line_example :
    log_stderr no_doubles describe 1000 2
      (format_of (plain b'n' ∷ decimal 7 ∷ []))
      (args_of (plain b'n' ∷ decimal 7 ∷ []))
    ≡ done (
        take (max_error_str - 1) (
          line_text describe 2
            (take max_error_str (codes "nginx: " ++ render (plain b'n' ∷ decimal 7 ∷ []))))
        ++ 10 ∷ [])
log_stderr-line_example =
    log_stderr-line no_doubles describe 1000 2 (plain b'n' ∷ decimal 7 ∷ []) (ground arith)
      (omega arith)

log_init-path_example :
    log_init no_doubles describe libc no_file 1000 conf error_log []
    ≡ some (started describe no_file (codes "conf") (codes "error.log") [])
log_init-path_example =
    log_init-path no_doubles describe libc no_file no_file-HasErrno 1000 conf error_log [] refl refl
      (omega arith) (omega arith)

abbrev scene : Scene
scene = record { err_log_time = codes "1970/09/28 12:00:00"; pid = 4711; connection = 3 }

log_error_core-remains_example :
    log_error_core no_doubles describe scene 1024 4 2 (b'x' ∷ 0 ∷ []) []
    ≡ and_then (inside scene.err_log_time) (remains describe 1024 2)
log_error_core-remains_example =
    log_error_core-remains no_doubles describe scene 1024 4 2 b'x' (0 ∷ []) [] (omega arith)
      (omega arith) (omega arith) (omega arith)

abbrev stderr_log : Log
stderr_log = record { fd = 2; log_level = 6 }

log_init-gates_example :
    (log_error no_doubles describe scene 1024 stderr_log 7 2 (b'x' ∷ 0 ∷ []) [] ≡ (
      if leb 7 log_notice
      then some (log_error_core no_doubles describe scene 1024 7 2 (b'x' ∷ 0 ∷ []) [])
      else none))
    × (log_debug no_doubles describe scene 1024 stderr_log (mask debug_http) 2 (b'x' ∷ 0 ∷ []) []
        ≡ none)
log_init-gates_example =
    log_init-gates no_doubles describe libc no_file 1024 conf error_log []
      (started describe no_file (codes "conf") (codes "error.log") []) stderr_log scene 7 2
      debug_http (b'x' ∷ 0 ∷ []) []
      (log_init-path no_doubles describe libc no_file no_file-HasErrno 1024 conf error_log [] refl
        refl (omega arith) (omega arith))
      refl
