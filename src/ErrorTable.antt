-- ===== src/ErrorTable.antt =====
-- src/os/unix/ngx_errno.c, ngx_strerror_init, in the variant for a C library without
-- strerrordesc_np: the search for the range of error numbers, from line 159 to line 288. What the
-- variant does with the range does not compile as it stands, since `mxg`, `mgs` and, in ngx_strerror,
-- `len` are not declared, and has no model.
--
-- The macros that choose between the variants of the range are the fields of `Platform`. Error numbers
-- are the `int`s that are not negative. A message is the list of its bytes in front of the terminator.
pub mod Range
mod Tests
use nginx_inside_out.Prelude.{
  ℕ, zero, suc, ◌+◌, ◌-◌, ◌^◌, Bool, true, false, ◌&&◌, ◌||◌, [], ◌∷◌, Option, none, some, ltb,
  ◌==◌, if◌then◌else◌,
}
use nginx_inside_out.Str.Num.{Bytes}
use nginx_inside_out.Log.Text.{unknown_error}

-- What `strerror` returns, `none` for NULL, and the value of `errno` behind a call made with 0 in it.
pub record Message : Type 0 where
  pub text : Option Bytes
  pub errno : ℕ

abbrev pub Strerror : Type 0
Strerror = ℕ → Message

-- NGX_SYS_NERR, where it is defined and not 0, and EPERM
pub record Platform : Type 0 where
  pub sys_nerr : Option ℕ
  pub eperm : ℕ

abbrev pub einval : ℕ
einval = 22

abbrev pub starts_with : (prefix s : Bytes) → Bool
starts_with [] s = true
starts_with (c ∷ prefix) [] = false
starts_with (c ∷ prefix) (d ∷ s) = (c == d) && starts_with prefix s

-- `msg == NULL || strncmp(msg, "Unknown error", 13) == 0`
abbrev pub is_unknown : Option Bytes → Bool
is_unknown none = true
is_unknown (some msg) = starts_with unknown_error msg

-- `errno == EINVAL || msg == NULL || strncmp(msg, "Unknown error", 13) == 0`
unfoldable pub is_skipped : Message → Bool
is_skipped m = (m.errno == einval) || is_unknown m.text

-- `for (err = EPERM; err > EPERM - 1000; err--)`, with `rounds` to go
unfoldable pub guess_first : Strerror → (rounds err first_error : ℕ) → ℕ
guess_first strerror zero err first_error = first_error
guess_first strerror (suc rounds) err first_error =
    guess_first strerror rounds (err - 1) (if is_skipped (strerror err) then first_error else err)

-- `for (err = EPERM; err < EPERM + 1000; err++)` and `for (err = 0; err < 1000; err++)`
unfoldable pub guess_last : Strerror → (rounds err last_error : ℕ) → ℕ
guess_last strerror zero err last_error = last_error
guess_last strerror (suc rounds) err last_error =
    guess_last strerror rounds (err + 1) (if is_skipped (strerror err) then last_error else err + 1)

-- `EPERM > 1000 && EPERM < 0x7fffffff - 1000`
abbrev pub is_large : (eperm : ℕ) → Bool
is_large eperm = ltb 1000 eperm && ltb eperm (2 ^ 31 - 1 - 1000)

-- ngx_first_error and ngx_last_error, by NGX_SYS_NERR; both are 0 when the program starts.
abbrev pub range_by : Option ℕ → (eperm : ℕ) → Strerror → ℕ × ℕ
range_by none eperm strerror =
    if is_large eperm
    then (guess_first strerror 1000 eperm 0, guess_last strerror 1000 eperm 0)
    else (0, guess_last strerror 1000 0 0)
range_by (some nerr) eperm strerror = (0, nerr)

unfoldable pub error_range : Platform → Strerror → ℕ × ℕ
error_range platform strerror = range_by platform.sys_nerr platform.eperm strerror
