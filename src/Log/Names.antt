-- ===== src/Log/Names.antt =====
-- src/core/ngx_log.c, ngx_log_init: the name of the log file.
use nginx_inside_out.Prelude.{
  ℕ, ◌+◌, ◌-◌, ◌≤◌, ◌≡◌, refl, inl, inr, true, [], ◌∷◌, ◌++◌, some, arith, ◌==◌, if◌then◌else◌,
  Bool-cases, length, length-append, take_all, append_assoc,
}
use nginx_inside_out.Str.Num.{Bytes}
use nginx_inside_out.Str.Copy.{read_bytes}
use nginx_inside_out.Str.Copy.Bounds.{c_string, terminated, cpystrn-c_string}
use nginx_inside_out.Log.Start.{strlen, is_absolute, ends_in_separator, separate, full_name}

pub strlen-c_string : (s : Bytes) → terminated s ≡ true → strlen s ≡ some (length (c_string s))
unfolding strlen
strlen-c_string [] t = ground arith
strlen-c_string (c ∷ s) t = elim (Bool-cases (c == 0)) [
  | inl end ↦ rw end refl
  | inr more ↦ rw (more, strlen-c_string s (ground arith)) refl
]

read_bytes-c_string :
    (s : Bytes) → terminated s ≡ true → read_bytes (length (c_string s)) s ≡ some (c_string s)
unfolding read_bytes
read_bytes-c_string [] t = ground arith
read_bytes-c_string (c ∷ s) t = elim (Bool-cases (c == 0)) [
  | inl end ↦ rw end refl
  | inr more ↦ rw (more, read_bytes-c_string s (ground arith)) refl
]

pub c_string-append : (s t : Bytes) → c_string (c_string s ++ t) ≡ c_string s ++ c_string t
c_string-append [] t = refl
c_string-append (c ∷ s) t = elim (Bool-cases (c == 0)) [
  | inl end ↦ rw end refl
  | inr more ↦ rw (more, more, c_string-append s t) refl
]

pub is_absolute-c_string : (s : Bytes) → is_absolute s ≡ is_absolute (c_string s)
is_absolute-c_string [] = refl
is_absolute-c_string (c ∷ s) = elim (Bool-cases (c == 0)) [
  | inl end ↦ let e : c ≡ 0 = ground arith in rw e refl
  | inr more ↦ rw more refl
]

-- One `/` between a directory and a file in it, and the path by which the log is opened.
abbrev pub path_of : (dir file : Bytes) → Bytes
path_of dir file =
    if is_absolute file then file else if length dir == 0 then file else separate dir ++ file

pub full_name-separate :
    (name : ℕ) (dir file : Bytes)
    → terminated dir ≡ true
    → terminated file ≡ true
    → full_name name (length (c_string dir)) (length (c_string file)) dir file
      ≡ some (separate (c_string dir) ++ (c_string file ++ 0 ∷ []))
full_name-separate name dir file td tf =
    let room : length (c_string file) + 1 - 1 ≡ length (c_string file) = omega arith in
    rw
      (
        full_name,
        read_bytes-c_string dir td,
        cpystrn-c_string (name + length (separate (c_string dir))) (length (c_string file) + 1) file
            tf (omega arith),
        room,
        take_all (length (c_string file)) (c_string file) (omega arith),
      )
      refl

pub separate-c_string :
    (dir t : Bytes)
    → c_string (separate (c_string dir) ++ t) ≡ separate (c_string dir) ++ c_string t
separate-c_string dir t = elim (Bool-cases (ends_in_separator (c_string dir))) [
  | inl slash ↦ rw (slash, c_string-append) refl
  | inr bare ↦
      rw
        (
          bare,
          append_assoc (c_string dir) (b'/' ∷ []) t,
          c_string-append dir (b'/' ∷ t),
          append_assoc (c_string dir) (b'/' ∷ []) (c_string t),
        )
        refl
]

pub separate-length : (dir : Bytes) → length (separate dir) ≤ length dir + 1
separate-length dir = elim (Bool-cases (ends_in_separator dir)) [
  | inl slash ↦ rw slash (omega arith)
  | inr bare ↦ rw (bare, length-append) (omega arith)
]

pub terminated-end : (s : Bytes) → terminated (s ++ 0 ∷ []) ≡ true
terminated-end [] = refl
terminated-end (c ∷ s) = ground (arith, terminated-end s)
