-- ===== src/ErrorTable/Range.antt =====
-- src/os/unix/ngx_errno.c, ngx_strerror_init: the range of error numbers that it finds.
use nginx_inside_out.Prelude.{
  ℕ, zero, suc, ◌+◌, ◌-◌, ◌^◌, ◌≤◌, ◌<◌, ◌≡◌, inl, inr, refl, sym, ap, ◌∙◌, Bool, true, false, ◌&&◌,
  Option, none, some, arith, ltb, if◌then◌else◌, Bool-cases,
}
use nginx_inside_out.ErrorTable.{
  Strerror, Platform, is_large, is_skipped, guess_first, guess_last, range_by, error_range,
}

-- The error numbers that the loops try, and those below NGX_SYS_NERR where it is defined.
abbrev pub is_tried_by : Option ℕ → (eperm err : ℕ) → Bool
is_tried_by none eperm err =
    if is_large eperm then ltb eperm (err + 1000) && ltb err (eperm + 1000) else ltb err 1000
is_tried_by (some nerr) eperm err = ltb err nerr

abbrev pub is_tried : Platform → (err : ℕ) → Bool
is_tried platform err = is_tried_by platform.sys_nerr platform.eperm err

-- The number of errors is an `int`, and EPERM is an error that has a message.
pub record IsPlatform (platform : Platform) (strerror : Strerror) : Type 0 where
  pub nerr_int : (nerr : ℕ) → platform.sys_nerr ≡ some nerr → nerr < 2 ^ 31
  pub eperm_named : is_skipped (strerror platform.eperm) ≡ false

module _ (strerror : Strerror) where
  guess_last-bounds :
      (rounds err last_error : ℕ)
      → last_error ≤ err
      → (last_error ≤ guess_last strerror rounds err last_error)
        × (guess_last strerror rounds err last_error ≤ err + rounds)
  unfolding guess_last
  guess_last-bounds zero err last_error h = (omega arith, omega arith)
  guess_last-bounds (suc rounds) err last_error h = elim (Bool-cases (is_skipped (strerror err))) [
    | inl e ↦
        let next = guess_last-bounds rounds (err + 1) last_error (omega arith) in
        rw e (next.0, omega (arith, next.1))
    | inr e ↦
        let next = guess_last-bounds rounds (err + 1) (err + 1) (omega arith) in
        rw e (omega (arith, next.0), omega (arith, next.1))
  ]

  guess_last-covers :
      (rounds err last_error e : ℕ)
      → last_error ≤ err
      → err ≤ e
      → e < err + rounds
      → is_skipped (strerror e) ≡ false
      → e < guess_last strerror rounds err last_error
  unfolding guess_last
  guess_last-covers zero err last_error e h low high valid = omega arith
  guess_last-covers (suc rounds) err last_error e h low high valid = elim (Bool-cases (ltb err e)) [
    | inl above ↦
        guess_last-covers rounds (err + 1)
          (if is_skipped (strerror err) then last_error else err + 1) e (ground arith)
          (ground arith) (omega arith) valid
    | inr here ↦
        let same : e ≡ err = ground arith in
        rw (sym same, valid)
          (omega (arith, (guess_last-bounds rounds (e + 1) (e + 1) (omega arith)).0))
  ]

  guess_first-below :
      (rounds err first_error : ℕ)
      → err ≤ first_error
      → guess_first strerror rounds err first_error ≤ first_error
  unfolding guess_first
  guess_first-below zero err first_error h = omega arith
  guess_first-below (suc rounds) err first_error h = elim (Bool-cases (is_skipped (strerror err))) [
    | inl e ↦ rw e (guess_first-below rounds (err - 1) first_error (omega arith))
    | inr e ↦ rw e (omega (arith, guess_first-below rounds (err - 1) err (omega arith)))
  ]

  guess_first-covers :
      (rounds err first_error e : ℕ)
      → e ≤ err
      → err < e + rounds
      → is_skipped (strerror e) ≡ false
      → guess_first strerror rounds err first_error ≤ e
  unfolding guess_first
  guess_first-covers zero err first_error e high low valid = omega arith
  guess_first-covers (suc rounds) err first_error e high low valid = elim (Bool-cases (ltb e err)) [
    | inl below ↦
        guess_first-covers rounds (err - 1) (if is_skipped (strerror err) then first_error else err)
          e (ground arith) (ground arith) valid
    | inr here ↦
        let same : e ≡ err = ground arith in
        rw (sym same, valid) (guess_first-below rounds (e - 1) e (omega arith))
  ]

  tried-covered :
      (platform : Platform) (err : ℕ)
      → IsPlatform platform strerror
      → is_tried platform err ≡ true
      → is_skipped (strerror err) ≡ false
      → ((error_range platform strerror).0 ≤ err) × (err < (error_range platform strerror).1)
  unfolding error_range
  tried-covered platform err is tried valid = go platform.sys_nerr tried
    where
      large_covers :
          ltb platform.eperm (err + 1000) && ltb err (platform.eperm + 1000) ≡ true
          → (guess_first strerror 1000 platform.eperm 0 ≤ err)
            × (err < guess_last strerror 1000 platform.eperm 0)
      large_covers near = elim (Bool-cases (ltb err platform.eperm)) [
        | inl below ↦
            let under : err < platform.eperm = ground arith in
            (
              guess_first-covers 1000 platform.eperm 0 err (ground arith) (ground arith) valid,
              omega (
                arith,
                guess_last-covers 1000 platform.eperm 0 platform.eperm (omega arith) (omega arith)
                    (omega arith) is.eperm_named,
              ),
            )
        | inr above ↦
            let over : platform.eperm ≤ err = ground arith in
            (
              omega (
                arith,
                guess_first-covers 1000 platform.eperm 0 platform.eperm (omega arith) (omega arith)
                    is.eperm_named,
              ),
              guess_last-covers 1000 platform.eperm 0 err (omega arith) over (ground arith) valid,
            )
      ]

      go :
          (nerr : Option ℕ)
          → is_tried_by nerr platform.eperm err ≡ true
          → ((range_by nerr platform.eperm strerror).0 ≤ err)
            × (err < (range_by nerr platform.eperm strerror).1)
      go none t = elim (Bool-cases (is_large platform.eperm)) [
        | inl large ↦
            let near : ltb platform.eperm (err + 1000) && ltb err (platform.eperm + 1000) ≡ true =
              sym (
                ap
                  (λ b.
                    if b
                    then ltb platform.eperm (err + 1000) && ltb err (platform.eperm + 1000)
                    else ltb err 1000)
                  large)
              ∙ t in
            rw large (large_covers near)
        | inr small ↦
            let near : ltb err 1000 ≡ true =
              sym (
                ap
                  (λ b.
                    if b
                    then ltb platform.eperm (err + 1000) && ltb err (platform.eperm + 1000)
                    else ltb err 1000)
                  small)
              ∙ t in
            rw small (
              omega arith,
              guess_last-covers 1000 0 0 err (omega arith) (omega arith) (ground arith) valid,
            )
      ]
      go (some nerr) t = (omega arith, ground arith)

  error_range-bounds :
      (platform : Platform)
      → IsPlatform platform strerror
      → ((error_range platform strerror).0 ≤ (error_range platform strerror).1)
        × ((error_range platform strerror).1 < 2 ^ 31)
  unfolding error_range
  error_range-bounds platform is = go platform.sys_nerr is.nerr_int
    where
      go :
          (nerr : Option ℕ)
          → ((n : ℕ) → nerr ≡ some n → n < 2 ^ 31)
          → ((range_by nerr platform.eperm strerror).0 ≤ (range_by nerr platform.eperm strerror).1)
            × ((range_by nerr platform.eperm strerror).1 < 2 ^ 31)
      go none int = elim (Bool-cases (is_large platform.eperm)) [
        | inl large ↦
            let below : platform.eperm < 2 ^ 31 - 1 - 1000 = ground arith in
            rw large (
              omega (
                arith,
                guess_first-covers 1000 platform.eperm 0 platform.eperm (omega arith) (omega arith)
                    is.eperm_named,
                guess_last-covers 1000 platform.eperm 0 platform.eperm (omega arith) (omega arith)
                    (omega arith) is.eperm_named,
              ),
              omega (arith, (guess_last-bounds 1000 platform.eperm 0 (omega arith)).1),
            )
        | inr small ↦
            rw small (omega arith, omega (arith, (guess_last-bounds 1000 0 0 (omega arith)).1))
      ]
      go (some nerr) int = (omega arith, int nerr refl)

  -- On a platform where NGX_SYS_NERR, if it is defined, is less than 2^31 and where EPERM has a
  -- message: an error number that has a message, and that is below NGX_SYS_NERR or, where that is not
  -- defined, among the numbers that the loops try, lies in the range from `ngx_first_error` to
  -- `ngx_last_error`, the last one excluded, and the end of the range is an `int`.
  pub error_range-covers :
      (platform : Platform) (err : ℕ)
      → IsPlatform platform strerror
      → is_tried platform err ≡ true
      → is_skipped (strerror err) ≡ false
      → ((error_range platform strerror).0 ≤ err)
        × (err < (error_range platform strerror).1)
        × ((error_range platform strerror).1 < 2 ^ 31)
  error_range-covers platform err is tried valid =
      let within = tried-covered platform err is tried valid in
      (within.0, within.1, (error_range-bounds platform is).1)
