-- ===== src/Files.antt =====
-- src/os/unix/ngx_files.c, ngx_read_file, with NGX_HAVE_PREAD. What is read is the list of the bytes
-- that the call puts into `buf`. The call of ngx_log_error has no part in the model: the log is one
-- whose level is 0 (NGX_LOG_STDERR), with which that macro does nothing.
mod Tests
use nginx_inside_out.Prelude.{
  ℕ, zero, suc, ◌+◌, ◌-◌, ◌%◌, ◌^◌, ◌≤◌, ◌<◌, ◌≡◌, refl, sym, ap, subst, ◌∙◌, take-nil, length-take,
  length-append, List, [], ◌∷◌, ◌++◌, Option, none, some, arith, length, take,
}
use nginx_inside_out.Str.Num.{Bytes}

-- ngx_file_t, the fields that ngx_read_file uses
pub record File : Type 0 where
  pub fd : ℕ
  pub offset : ℕ

-- `pread`, by the descriptor, the size and the offset: the bytes that it reads, `none` for -1
abbrev pub Pread : Type 0
Pread = (fd size offset : ℕ) → Option Bytes

-- `n`, with what is in the buffer, or NGX_ERROR
pub data ReadResult : Type 0 where
  got : Bytes → ReadResult
  error : ReadResult

-- ngx_read_file
unfoldable pub read_file : Pread → File → (size offset : ℕ) → ReadResult × File
read_file pread file size offset = elim (pread file.fd size offset) [
  | none ↦ (error, file)
  | some bytes ↦ (got bytes, record file { offset = (file.offset + length bytes) % 2 ^ 64 })
]

abbrev pub drop : ℕ → Bytes → Bytes
drop zero s = s
drop (suc n) [] = []
drop (suc n) (c ∷ s) = drop n s

-- What the manual page promises of a read that succeeds: some of the bytes at the offset, from the
-- first on, and no more than were asked for. They may be fewer.
abbrev pub IsPiece : (content : Bytes) (size offset : ℕ) → Option Bytes → Type 0
IsPiece content size offset none = Unit {0}
IsPiece content size offset (some bytes) =
    (length bytes ≤ size) × (bytes ≡ take (length bytes) (drop offset content))

-- A regular file with this content, of which a read may fail or be short.
abbrev pub Holds : Pread → (fd : ℕ) (content : Bytes) → Type 0
Holds pread fd content = (size offset : ℕ) → IsPiece content size offset (pread fd size offset)

length-drop : (n : ℕ) (s : Bytes) → length (drop n s) ≡ length s - n
length-drop zero s = omega arith
length-drop (suc n) [] = omega arith
length-drop (suc n) (c ∷ s) = omega (arith, length-drop n s)

drop-drop : (n k : ℕ) (s : Bytes) → drop n (drop k s) ≡ drop (k + n) s
drop-drop n zero s = let e : 0 + n ≡ n = omega arith in rw e refl
drop-drop n (suc k) [] = let e : suc k + n ≡ suc (k + n) = omega arith in rw e (drop-nil n)
  where
    drop-nil : (n : ℕ) → drop n [] ≡ []
    drop-nil zero = refl
    drop-nil (suc n) = refl
drop-drop n (suc k) (c ∷ s) =
    let e : suc k + n ≡ suc (k + n) = omega arith in rw e (drop-drop n k s)

-- What is taken off the front, with what is taken behind it.
take-drop_next :
    (n m : ℕ) (s : Bytes) → take n s ++ take m (drop (length (take n s)) s) ≡ take (n + m) s
take-drop_next zero m s = let e : 0 + m ≡ m = omega arith in rw e refl
take-drop_next (suc n) m [] = rw (take-nil m) (sym (take-nil (suc n + m)))
take-drop_next (suc n) m (c ∷ s) =
    let e : suc n + m ≡ suc (n + m) = omega arith in rw (e, sym (take-drop_next n m s)) refl

-- Two calls, each at the offset that the file is at.
abbrev pub behind : Bytes → ReadResult → ReadResult
behind first (got second) = got (first ++ second)
behind first error = error

abbrev pub read_on : Pread → ReadResult → File → (m : ℕ) → ReadResult × File
read_on pread (got first) file m =
    let r = read_file pread file m file.offset in (behind first r.0, r.1)
read_on pread error file m = (error, file)

abbrev pub read_twice : Pread → File → (n m : ℕ) → ReadResult × File
read_twice pread file n m = let r = read_file pread file n file.offset in read_on pread r.0 r.1 m

-- One piece of the file from its offset on, which has moved behind it; with an error, the offset has
-- moved by what the first call read, if that succeeded.
abbrev pub IsRow : (content : Bytes) → File → (n m : ℕ) → ReadResult × File → Type 0
IsRow content file n m (got bytes, file') =
    IsPiece content (n + m) file.offset (some bytes)
    × (file'.offset ≡ file.offset + length bytes)
    × (file'.fd ≡ file.fd)
IsRow content file n m (error, file') =
    (file.offset ≤ file'.offset) × (file'.offset ≤ file.offset + n) × (file'.fd ≡ file.fd)

IsPiece-inside :
    (content bytes : Bytes) (size offset : ℕ)
    → offset ≤ length content
    → IsPiece content size offset (some bytes)
    → offset + length bytes ≤ length content
IsPiece-inside content bytes size offset inside (_, piece) =
    let same : length bytes ≡ length (take (length bytes) (drop offset content)) =
      ap length piece in
    omega
      (arith, same, length-take (length bytes) (drop offset content), length-drop offset content)

IsPiece-append :
    (content first second : Bytes) (n m offset : ℕ)
    → IsPiece content n offset (some first)
    → IsPiece content m (offset + length first) (some second)
    → IsPiece content (n + m) offset (some (first ++ second))
IsPiece-append content first second n m offset (short, piece) (short', piece') =
    let k = length first in
    let rest = drop offset content in
    let behind_first : drop (length (take k rest)) rest ≡ drop (offset + k) content =
      ap (λ bytes. drop (length bytes) rest) (sym piece) ∙ drop-drop k offset content in
    (
      omega (arith, length-append first second),
      ap (λ bytes. bytes ++ second) piece
          ∙ ap (λ bytes. take k rest ++ bytes)
              (piece' ∙ ap (take (length second)) (sym behind_first))
          ∙ take-drop_next k (length second) rest
          ∙ ap (λ l. take l rest) (sym (length-append first second)),
    )

-- For a regular file of less than 2^63 bytes, at an offset inside of it, and a `pread` that may fail and
-- may read less than it is asked for: if two calls of `ngx_read_file` in a row, each at the offset that
-- the file is at, succeed, they read together one piece of the file from its offset on, no byte twice
-- and none left out, no longer than the two sizes, and the offset is behind that piece. If one of them
-- fails, the offset has moved on by no more than the first size.
pub read_file-IsRow :
    (pread : Pread) (file : File) (content : Bytes) (n m : ℕ)
    → Holds pread file.fd content
    → length content < 2 ^ 63
    → file.offset ≤ length content
    → IsRow content file n m (read_twice pread file n m)
unfolding read_file
read_file-IsRow pread file content n m holds short inside =
    one (pread file.fd n file.offset) (holds n file.offset)
  where
    two :
        (first : Bytes)
        → IsPiece content n file.offset (some first)
        → (at : ℕ) → at ≡ file.offset + length first
        → (r : Option Bytes) → IsPiece content m at r
        → IsRow content file n m (
            let r' : ReadResult × File = elim r [
              | none ↦ (error, record file { offset = at })
              | some bytes ↦ (got bytes, record file { offset = (at + length bytes) % 2 ^ 64 })
            ] in
            (behind first r'.0, r'.1))
    two first piece at e none piece' = (omega arith, omega (arith, piece.0), refl)
    two first piece at e (some second) piece' =
        let next = subst (λ k. IsPiece content m k (some second)) e piece' in
        let first_in = IsPiece-inside content first n file.offset inside piece in
        let in_file = IsPiece-inside content second m (file.offset + length first) first_in next in
        (
          IsPiece-append content first second n m file.offset piece next,
          omega (arith, length-append first second, in_file, e),
          refl,
        )

    one :
        (r : Option Bytes)
        → IsPiece content n file.offset r
        → IsRow content file n m (
            let r' : ReadResult × File = elim r [
              | none ↦ (error, file)
              | some bytes ↦
                  (got bytes, record file { offset = (file.offset + length bytes) % 2 ^ 64 })
            ] in
            read_on pread r'.0 r'.1 m)
    one none piece = (omega arith, omega arith, refl)
    one (some first) piece =
        let at = (file.offset + length first) % 2 ^ 64 in
        let exact : at ≡ file.offset + length first =
          omega (arith, IsPiece-inside content first n file.offset inside piece) in
        two first piece at exact (pread file.fd m at) (holds m at)
