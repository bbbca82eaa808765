-- ===== src/Log/Gates.antt =====
-- src/core/ngx_log.h, ngx_log_error and ngx_log_debug, with the log that ngx_log_init returns.
use Prim.Native.Nat.{bit_and}
use nginx_inside_out.Prelude.{
  ℕ, ◌+◌, ◌%◌, ◌^◌, ◌≡◌, refl, inl, inr, ap, ◌∙◌, List, [], ◌∷◌, Option, none, some, ltb, leb, ◌==◌,
  if◌then◌else◌, length, Option-cases, if_elim, subst,
}
use nginx_inside_out.Str.Num.{Bytes}
use nginx_inside_out.Str.Copy.Bounds.{c_string}
use nginx_inside_out.Str.Format.Spec.{Arg, string}
use nginx_inside_out.Str.Format.Directive.{DoubleOps}
use nginx_inside_out.Str.Format.Loop.{Formatted, done, faulted, no_fuel}
use nginx_inside_out.Pool.State.{Heap, Libc, null, ngx_free}
use nginx_inside_out.Log.Text.{Describe, log_stderr}
use nginx_inside_out.Log.Start.{
  Log, ngx_stderr, Started, OpenFile, Opened, opened, failed, log_notice, free_name, open_log,
  open_prefixed, full_name, log_init, strlen, or_default, is_absolute, error_log_path,
  default_prefix, open_failed,
}
use nginx_inside_out.Log.Core.{
  Scene, DebugLevel, mask, log_error_core, log_error, log_debug, log_debug_level, debug_core,
  debug_alloc, debug_mutex, debug_event, debug_http, debug_mail, debug_stream, debug_connection,
  debug_all,
}

-- The log, if there is one, has the level NGX_LOG_NOTICE.
abbrev pub IsNoticeLog : Option Log → Type 0
IsNoticeLog none = Unit {0}
IsNoticeLog (some log) = log.log_level ≡ log_notice

abbrev pub IsNotice : Option Started → Type 0
IsNotice none = Unit {0}
IsNotice (some started) = IsNoticeLog started.log

free_name-IsNotice :
    (p fd : ℕ) (name : Bytes) (report : Option Bytes) (heap : Heap)
    → IsNotice (free_name p fd name report heap)
free_name-IsNotice p fd name report heap = elim (Option-cases (ngx_free p heap)) [
  | inl e ↦ rw (free_name, e) tt
  | inr (h, e) ↦ rw (free_name, e) refl
]

-- No debug flag has a bit of NGX_LOG_NOTICE.
bit_and-mask : (flag : DebugLevel) → bit_and log_notice (mask flag) ≡ 0
bit_and-mask debug_core = refl
bit_and-mask debug_alloc = refl
bit_and-mask debug_mutex = refl
bit_and-mask debug_event = refl
bit_and-mask debug_http = refl
bit_and-mask debug_mail = refl
bit_and-mask debug_stream = refl
bit_and-mask debug_connection = refl
bit_and-mask debug_all = refl

module _ {Double : Type 0} (ops : DoubleOps Double) (describe : Describe) (lib : Libc)
    (open_file : OpenFile) (errstr : ℕ) where
  open_log-IsNotice :
      (name : Bytes) (p : ℕ) (heap : Heap)
      → IsNotice (open_log ops describe lib open_file errstr name p heap)
  open_log-IsNotice name p heap = after_open (open_file (c_string name))
    where
      after_report :
          (said : Formatted)
          → IsNotice (elim said [
            | done line ↦ free_name p ngx_stderr name (some line) heap
            | faulted ↦ none
            | no_fuel ↦ none
          ])
      after_report (done line) = free_name-IsNotice p ngx_stderr name (some line) heap
      after_report faulted = tt
      after_report no_fuel = tt

      after_open :
          (got : Opened)
          → IsNotice (elim got [
            | opened fd ↦ free_name p fd name none heap
            | failed errno ↦
                elim (log_stderr ops describe errstr errno open_failed (string name ∷ [])) [
                  | done line ↦ free_name p ngx_stderr name (some line) heap
                  | faulted ↦ none
                  | no_fuel ↦ none
                ]
          ])
      after_open (opened fd) = free_name-IsNotice p fd name none heap
      after_open (failed errno) =
          after_report (log_stderr ops describe errstr errno open_failed (string name ∷ []))

  open_prefixed-IsNotice :
      (size plen nlen : ℕ) (prefix error_log : Bytes) (heap : Heap)
      → IsNotice
          (open_prefixed ops describe lib open_file errstr size plen nlen prefix error_log heap)
  open_prefixed-IsNotice size plen nlen prefix error_log heap =
      let name = lib.malloc size heap in
      if_elim IsNotice (name == null) tt (after_copy (full_name name plen nlen prefix error_log))
    where
      after_copy :
          (full : Option Bytes)
          → IsNotice (elim full [
            | none ↦ none
            | some w ↦
                if ltb size (length w)
                then none
                else open_log ops describe lib open_file errstr w
                    (lib.malloc size heap)
                    (record { base = lib.malloc size heap; size = size } ∷ heap)
          ])
      after_copy none = tt
      after_copy (some w) = if_elim IsNotice (ltb size (length w)) tt (
          open_log-IsNotice w (lib.malloc size heap)
            (record { base = lib.malloc size heap; size = size } ∷ heap))

  log_init-IsNotice :
      (prefix error_log : Option Bytes) (heap : Heap)
      → IsNotice (log_init ops describe lib open_file errstr prefix error_log heap)
  unfolding log_init
  log_init-IsNotice prefix error_log heap =
      after_file (strlen (or_default error_log error_log_path))
    where
      file : Bytes
      file = or_default error_log error_log_path

      dir : Bytes
      dir = or_default prefix default_prefix

      after_dir :
          (nlen : ℕ) (plen : Option ℕ)
          → IsNotice (elim plen [
            | none ↦ none
            | some n ↦
                if n == 0
                then open_log ops describe lib open_file errstr file null heap
                else open_prefixed ops describe lib open_file errstr
                    ((n + nlen + 2) % 2 ^ 64)
                    n
                    nlen
                    dir
                    file
                    heap
          ])
      after_dir nlen none = tt
      after_dir nlen (some n) =
          if_elim IsNotice (n == 0) (open_log-IsNotice file null heap)
            (open_prefixed-IsNotice ((n + nlen + 2) % 2 ^ 64) n nlen dir file heap)

      after_file :
          (nlen : Option ℕ)
          → IsNotice (elim nlen [
            | none ↦ none
            | some n ↦
                if n == 0
                then some (record {
                  log = some (record { fd = ngx_stderr; log_level = log_notice });
                  path = none;
                  report = none;
                  heap = heap;
                })
                else if is_absolute file
                then open_log ops describe lib open_file errstr file null heap
                else elim (strlen dir) [
                  | none ↦ none
                  | some plen ↦
                      if plen == 0
                      then open_log ops describe lib open_file errstr file null heap
                      else open_prefixed ops describe lib open_file errstr
                          ((plen + n + 2) % 2 ^ 64)
                          plen
                          n
                          dir
                          file
                          heap
                ]
          ])
      after_file none = tt
      after_file (some n) = if_elim IsNotice (n == 0) refl (
          if_elim IsNotice (is_absolute file) (open_log-IsNotice file null heap)
            (after_dir n (strlen dir)))

  -- With the log that ngx_log_init returns, whatever its arguments, ngx_log_error calls
  -- ngx_log_error_core exactly for the levels up to NGX_LOG_NOTICE, and ngx_log_debug never does.
  pub log_init-gates :
      (prefix error_log : Option Bytes) (heap : Heap) (started : Started) (log : Log)
      (scene : Scene) (level err : ℕ) (flag : DebugLevel) (fmt : Bytes) (args : List (Arg Double))
      → log_init ops describe lib open_file errstr prefix error_log heap ≡ some started
      → started.log ≡ some log
      → (log_error ops describe scene errstr log level err fmt args ≡ (
          if leb level log_notice
          then some (log_error_core ops describe scene errstr level err fmt args)
          else none))
        × (log_debug ops describe scene errstr log (mask flag) err fmt args ≡ none)
  unfolding log_error log_debug
  log_init-gates prefix error_log heap started log scene level err flag fmt args run kept =
      let notice : log.log_level ≡ log_notice =
        subst IsNoticeLog kept (subst IsNotice run (log_init-IsNotice prefix error_log heap)) in
      (
        ap
            (λ n.
              if leb level n
              then some (log_error_core ops describe scene errstr level err fmt args)
              else none)
            notice,
        ap
              (λ n.
                if bit_and n (mask flag) == 0
                then none
                else some (log_error_core ops describe scene errstr log_debug_level err fmt args))
              notice
            ∙ ap
                (λ b.
                  if b == 0
                  then none
                  else some (log_error_core ops describe scene errstr log_debug_level err fmt args))
                (bit_and-mask flag),
      )
