-- ===== src/Log/Path.antt =====
-- src/core/ngx_log.c, ngx_log_init: the file that it opens, and what it leaves.
use nginx_inside_out.Prelude.{
  ℕ, ◌+◌, ◌-◌, ◌%◌, ◌^◌, ◌<◌, ◌≡◌, refl, ap, ◌∙◌, sym, inl, inr, true, false, List, [], ◌∷◌, ◌++◌,
  Option, none, some, arith, ltb, ◌==◌, if◌then◌else◌, Bool-cases, length, length-append, take,
  append-nil, append_assoc,
}
use nginx_inside_out.Str.Num.{Bytes}
use nginx_inside_out.Str.Copy.Bounds.{c_string, terminated}
use nginx_inside_out.Str.Format.Spec.{string}
use nginx_inside_out.Str.Format.Directive.{DoubleOps}
use nginx_inside_out.Str.Format.Loop.{done}
use nginx_inside_out.Str.Format.Items.{
  Item, cstr, AllItems, render, pieces, pieces-AllItems, pieces-render,
}
use nginx_inside_out.Pool.State.{Heap, Libc, null, ngx_free, release}
use nginx_inside_out.Log.Text.{codes, Describe, max_error_str, log_stderr}
use nginx_inside_out.Log.Line.{line_text, log_stderr-line}
use nginx_inside_out.Log.Start.{
  OpenFile, Opened, opened, failed, Started, log_notice, ngx_stderr, default_prefix, error_log_path,
  or_default, is_absolute, separate, open_failed, free_name, open_log, open_prefixed, log_init,
}
use nginx_inside_out.Log.Names.{
  strlen-c_string, c_string-append, is_absolute-c_string, full_name-separate, separate-c_string,
  separate-length, terminated-end, path_of,
}

-- What is said of a log that cannot be opened.
abbrev pub complaint : (path : Bytes) → Bytes
complaint path =
    codes "nginx: [alert] could not open error log file: open() \"" ++ (path ++ codes "\" failed")

-- The line about it on the standard error stream.
abbrev pub complaint_line : Describe → (errno : ℕ) (path : Bytes) → Bytes
complaint_line describe errno path =
    take (max_error_str - 1) (line_text describe errno (take max_error_str (complaint path)))
    ++ 10 ∷ []

abbrev failed_items : (name : Bytes) → List Item
failed_items name =
    pieces (codes "[alert] could not open error log file: open() \"")
      (cstr name ∷ pieces (codes "\" failed") [])

-- an error number is an int
abbrev pub HasErrno : OpenFile → Type 0
HasErrno open_file = (path : Bytes) (e : ℕ) → open_file path ≡ failed e → e < 2 ^ 32

-- What opening a path leaves: the file's descriptor, or the standard error stream and a line there.
abbrev pub outcome : Describe → OpenFile → (path : Bytes) → Heap → Started
outcome describe open_file path heap = elim (open_file path) [
  | opened fd ↦ record {
    log = some (record { fd = fd; log_level = log_notice });
    path = some path;
    report = none;
    heap = heap;
  }
  | failed e ↦ record {
    log = some (record { fd = ngx_stderr; log_level = log_notice });
    path = some path;
    report = some (complaint_line describe e path);
    heap = heap;
  }
]

-- What ngx_log_init leaves: the standard error stream for an empty name, else the log file's.
abbrev pub started : Describe → OpenFile → (dir file : Bytes) → Heap → Started
started describe open_file dir file heap =
    if length file == 0
    then record {
      log = some (record { fd = ngx_stderr; log_level = log_notice });
      path = none;
      report = none;
      heap = heap;
    }
    else outcome describe open_file (path_of dir file) heap

module _ {Double : Type 0} (ops : DoubleOps Double) (describe : Describe) (lib : Libc)
    (open_file : OpenFile) (errno : HasErrno open_file) (errstr : ℕ) where
  failed-complaint :
      (name : Bytes) (e : ℕ)
      → terminated name ≡ true
      → e < 2 ^ 32
      → log_stderr ops describe errstr e open_failed (string name ∷ [])
        ≡ done (complaint_line describe e (c_string name))
  failed-complaint name e t word =
      let text : codes "nginx: " ++ render (failed_items name) ≡ complaint (c_string name) =
        rw (pieces-render (codes "[alert] could not open error log file: open() \"")) refl in
      log_stderr-line ops describe errstr e (failed_items name) ok word
      ∙ ap
          (λ t.
            done
              (take (max_error_str - 1) (line_text describe e (take max_error_str t)) ++ 10 ∷ []))
          text
    where
      ok : AllItems (failed_items name)
      ok =
          pieces-AllItems (codes "[alert] could not open error log file: open() \"")
            (cstr name ∷ pieces (codes "\" failed") []) refl
            (t, pieces-AllItems (codes "\" failed") [] refl tt)

  open_log-outcome :
      (name : Bytes) (p : ℕ) (heap h : Heap)
      → terminated name ≡ true
      → ngx_free p heap ≡ some h
      → open_log ops describe lib open_file errstr name p heap
        ≡ some (outcome describe open_file (c_string name) h)
  open_log-outcome name p heap h t free = go (open_file (c_string name)) refl
    where
      go :
          (o : Opened) (e : open_file (c_string name) ≡ o)
          → open_log ops describe lib open_file errstr name p heap
            ≡ some (outcome describe open_file (c_string name) h)
      go (opened fd) e = rw (open_log, outcome, e, free_name, free) refl
      go (failed n) e =
          rw
            (
              open_log,
              outcome,
              e,
              failed-complaint name n t (errno (c_string name) n e),
              free_name,
              free,
            )
            refl

  free_last :
      (p size : ℕ) (heap : Heap)
      → 0 < p
      → ngx_free p (record { base = p; size = size } ∷ heap) ≡ some heap
  unfolding ngx_free release
  free_last p size heap pos =
      let live : (p == null) ≡ false = ground arith in
      let found : (p == p) ≡ true = ground arith in rw (live, found) refl

  open_prefixed-outcome :
      (dir file : Bytes) (size : ℕ) (heap : Heap)
      → terminated dir ≡ true
      → terminated file ≡ true
      → length (c_string dir) + length (c_string file) + 2 ≡ size
      → 0 < lib.malloc size heap
      → open_prefixed ops describe lib open_file errstr size
          (length (c_string dir))
          (length (c_string file))
          dir
          file
          heap
        ≡ some (outcome describe open_file (separate (c_string dir) ++ c_string file) heap)
  open_prefixed-outcome dir file size heap td tf enough got =
      let p = lib.malloc size heap in
      let name = separate (c_string dir) ++ (c_string file ++ 0 ∷ []) in
      let live : (p == null) ≡ false = ground arith in
      let fits : ltb size (length name) ≡ false = ground (
        arith,
        length-append (separate (c_string dir)) (c_string file ++ 0 ∷ []),
        length-append (c_string file) (0 ∷ []),
        separate-length (c_string dir),
      ) in
      let string_at : c_string name ≡ separate (c_string dir) ++ c_string file =
        rw
          (
            separate-c_string dir (c_string file ++ 0 ∷ []),
            c_string-append file (0 ∷ []),
            append-nil,
          )
          refl in
      let ends : terminated name ≡ true =
        rw (sym (append_assoc (separate (c_string dir)) (c_string file) (0 ∷ [])))
          (terminated-end (separate (c_string dir) ++ c_string file)) in
      rw (open_prefixed, live, full_name-separate p dir file td tf, fits)
        (open_log-outcome name p (record { base = p; size = size } ∷ heap) heap ends
            (free_last p size heap got)
          ∙ ap (λ t. some (outcome describe open_file t heap)) string_at)

  -- For C strings that are terminated, or NULL, and whose lengths leave the sum below 2^64, and where
  -- `malloc` has the memory, `ngx_log_init` stays inside of the block and returns the log: on the
  -- standard error stream for an empty name, else on the file by the given name, behind the prefix and
  -- one `/` where the name is relative and the prefix not empty. Where the file cannot be opened the
  -- log is on the standard error stream, which gets a line that names the path and the error. In all
  -- cases the heap is as before.
  pub log_init-path :
      (prefix error_log : Option Bytes) (heap : Heap)
      → terminated (or_default prefix default_prefix) ≡ true
      → terminated (or_default error_log error_log_path) ≡ true
      → length (c_string (or_default prefix default_prefix))
          + length (c_string (or_default error_log error_log_path))
          + 2
        < 2 ^ 64
      → 0
        < lib.malloc
            (length (c_string (or_default prefix default_prefix))
              + length (c_string (or_default error_log error_log_path))
              + 2)
            heap
      → log_init ops describe lib open_file errstr prefix error_log heap
        ≡ some (
            started describe open_file
              (c_string (or_default prefix default_prefix))
              (c_string (or_default error_log error_log_path))
              heap)
  unfolding log_init ngx_free
  log_init-path prefix error_log heap td tf small got =
      rw (log_init, strlen-c_string file tf)
        (elim (Bool-cases (length (c_string file) == 0)) [
          | inl empty ↦ rw empty refl
          | inr named ↦ elim (Bool-cases (is_absolute (c_string file))) [
            | inl absolute ↦
                rw (named, is_absolute-c_string file, absolute)
                  (open_log-outcome file null heap heap tf refl)
            | inr relative ↦ elim (Bool-cases (length (c_string dir) == 0)) [
              | inl bare ↦
                  rw (named, is_absolute-c_string file, relative, strlen-c_string dir td, bare)
                    (open_log-outcome file null heap heap tf refl)
              | inr prefixed ↦
                  let same : (length (c_string dir) + length (c_string file) + 2) % 2 ^ 64
                      ≡ length (c_string dir) + length (c_string file) + 2 =
                    omega arith in
                  rw (named, is_absolute-c_string file, relative, strlen-c_string dir td, prefixed)
                    (ap
                        (λ size.
                          open_prefixed ops describe lib open_file errstr size
                            (length (c_string dir)) (length (c_string file)) dir file heap)
                        same
                      ∙ open_prefixed-outcome dir file
                          (length (c_string dir) + length (c_string file) + 2) heap td tf refl got)
            ]
          ]
        ])
    where
      dir : Bytes
      dir = or_default prefix default_prefix

      file : Bytes
      file = or_default error_log error_log_path
