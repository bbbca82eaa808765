-- ===== src/Log/Start.antt =====
-- src/core/ngx_log.c, ngx_log_init. A C string is the list of the bytes that may be read from it on,
-- NULL is `none`. What the block from `malloc` holds is the list of the bytes written to it, and a
-- write behind its end is a fault, as is a read behind a string and a `free` of what is not live.
use nginx_inside_out.Prelude.{
  ℕ, suc, ◌+◌, ◌%◌, ◌^◌, Bool, false, [], ◌∷◌, ◌++◌, Option, none, some, ltb, ◌==◌, if◌then◌else◌,
  length,
}
use nginx_inside_out.Str.Num.{Bytes}
use nginx_inside_out.Str.Copy.{Copied, cpystrn, read_bytes}
use nginx_inside_out.Str.Copy.Bounds.{c_string}
use nginx_inside_out.Str.Format.Spec.{string}
use nginx_inside_out.Str.Format.Directive.{DoubleOps}
use nginx_inside_out.Str.Format.Loop.{done, faulted, no_fuel}
use nginx_inside_out.Pool.State.{Heap, Libc, null, ngx_free}
use nginx_inside_out.Log.Text.{codes, Describe, log_stderr}

-- `ngx_log` with the descriptor of its file, `ngx_log_file.fd`
pub record Log : Type 0 where
  pub fd : ℕ
  pub log_level : ℕ

abbrev pub log_notice : ℕ
log_notice = 6

abbrev pub ngx_stderr : ℕ
ngx_stderr = 2

-- what `open` returns: a descriptor, or -1 with the error number
pub data Opened : Type 0 where
  opened : (fd : ℕ) → Opened
  failed : (errno : ℕ) → Opened

-- `open`, by the string that it is given, with the flags and the mode that ngx_log_init passes
abbrev pub OpenFile : Type 0
OpenFile = Bytes → Opened

-- What a call leaves: the log, `none` for NULL, the path passed to `open`, what
-- was written to the standard error stream, and the heap.
pub record Started : Type 0 where
  pub log : Option Log
  pub path : Option Bytes
  pub report : Option Bytes
  pub heap : Heap

-- NGX_PREFIX and NGX_ERROR_LOG_PATH
abbrev pub default_prefix : Bytes
default_prefix = codes "/usr/local/nginx/" ++ 0 ∷ []

abbrev pub error_log_path : Bytes
error_log_path = codes "logs/error.log" ++ 0 ∷ []

abbrev pub or_default : Option Bytes → Bytes → Bytes
or_default none default = default
or_default (some s) default = s

unfoldable pub strlen : Bytes → Option ℕ
strlen [] = none
strlen (c ∷ s) = if c == 0 then some 0 else elim (strlen s) [ none ↦ none | some n ↦ some (suc n) ]

-- `name[0] == '/'`
abbrev pub is_absolute : Bytes → Bool
is_absolute [] = false
is_absolute (c ∷ s) = c == b'/'

-- `ngx_path_separator(*(p - 1))`, by what is written in front of `p`
unfoldable pub ends_in_separator : Bytes → Bool
ends_in_separator [] = false
ends_in_separator (c ∷ []) = c == b'/'
ends_in_separator (c ∷ d ∷ s) = ends_in_separator (d ∷ s)

-- `if (!ngx_path_separator(*(p-1))) { *p++ = '/'; }`
abbrev pub separate : Bytes → Bytes
separate w = if ends_in_separator w then w else w ++ b'/' ∷ []

-- `ngx_cpystrn(p, error_log, nlen + 1)` behind what is in the block
abbrev pub append_name : (w : Bytes) → Option Copied → Option Bytes
append_name w none = none
append_name w (some (copy, end)) = some (w ++ copy)

-- the bytes written to the block at `name`
abbrev pub full_name : (name plen nlen : ℕ) (prefix error_log : Bytes) → Option Bytes
full_name name plen nlen prefix error_log = elim (read_bytes plen prefix) [
  | none ↦ none
  | some w ↦ append_name (separate w) (cpystrn (name + length (separate w)) error_log (nlen + 1))
]

abbrev pub open_failed : Bytes
open_failed = codes "[alert] could not open error log file: open() \"%s\" failed" ++ 0 ∷ []

-- `if (p) { ngx_free(p); } return &ngx_log;`
abbrev pub free_name :
    (p : ℕ) → (fd : ℕ) (name : Bytes) (report : Option Bytes) → Heap → Option Started
free_name p fd name report heap = elim (ngx_free p heap) [
  | none ↦ none
  | some h ↦ some (record {
    log = some (record { fd = fd; log_level = log_notice });
    path = some (c_string name);
    report = report;
    heap = h;
  })
]

module _ {Double : Type 0} (ops : DoubleOps Double) (describe : Describe) (lib : Libc)
    (open_file : OpenFile) (errstr : ℕ) where
  -- from `ngx_open_file` on; `errstr` is the address of the buffer in ngx_log_stderr
  abbrev pub open_log : (name : Bytes) (p : ℕ) → Heap → Option Started
  open_log name p heap = elim (open_file (c_string name)) [
    | opened fd ↦ free_name p fd name none heap
    | failed errno ↦ elim (log_stderr ops describe errstr errno open_failed (string name ∷ [])) [
      | done line ↦ free_name p ngx_stderr name (some line) heap
      | faulted ↦ none
      | no_fuel ↦ none
    ]
  ]

  -- from `name = malloc(size)` on
  abbrev pub open_prefixed : (size plen nlen : ℕ) (prefix error_log : Bytes) → Heap → Option Started
  open_prefixed size plen nlen prefix error_log heap =
      let name = lib.malloc size heap in
      if name == null
      then some (record { log = none; path = none; report = none; heap = heap })
      else elim (full_name name plen nlen prefix error_log) [
        | none ↦ none
        | some w ↦
            if ltb size (length w)
            then none
            else open_log w name (record { base = name; size = size } ∷ heap)
      ]

  -- ngx_log_init
  unfoldable pub log_init : (prefix error_log : Option Bytes) → Heap → Option Started
  unfolding strlen
  log_init prefix error_log heap =
      let file = or_default error_log error_log_path in
      elim (strlen file) [
        | none ↦ none
        | some nlen ↦
            if nlen == 0
            then some (record {
              log = some (record { fd = ngx_stderr; log_level = log_notice });
              path = none;
              report = none;
              heap = heap;
            })
            else if is_absolute file
            then open_log file null heap
            else let dir = or_default prefix default_prefix in
              elim (strlen dir) [
                | none ↦ none
                | some plen ↦
                    if plen == 0
                    then open_log file null heap
                    else open_prefixed ((plen + nlen + 2) % 2 ^ 64) plen nlen dir file heap
              ]
      ]
