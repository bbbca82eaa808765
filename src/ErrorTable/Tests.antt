-- ===== src/ErrorTable/Tests.antt =====
-- src/os/unix/ngx_errno.c: the range of error numbers with a C library that knows four messages.
use nginx_inside_out.Prelude.{◌≡◌, ◌≤◌, ◌<◌, ◌^◌, refl, some, none, arith, ◌==◌, if◌then◌else◌}
use nginx_inside_out.Log.Text.{codes}
use nginx_inside_out.ErrorTable.{Strerror, Platform, error_range, is_skipped, guess_last}
use nginx_inside_out.ErrorTable.Range.{IsPlatform, error_range-covers}

abbrev errors : Strerror
errors err =
    if err == 0
    then record { text = some (codes "Success"); errno = 0 }
    else if err == 1
    then record { text = some (codes "Operation not permitted"); errno = 0 }
    else if err == 12
    then record { text = some (codes "Cannot allocate memory"); errno = 0 }
    else record { text = some (codes "Unknown error"); errno = 22 }

abbrev platform : Platform
platform = record { sys_nerr = none; eperm = 1 }

platform-IsPlatform : IsPlatform platform errors
unfolding is_skipped
platform-IsPlatform = record { nerr_int = λ nerr e. ground arith; eperm_named = refl }

range_found : error_range platform errors ≡ (0, 13)
unfolding error_range guess_last is_skipped
range_found = refl

error_range-covers_example :
    ((error_range platform errors).0 ≤ 12)
    × (12 < (error_range platform errors).1)
    × ((error_range platform errors).1 < 2 ^ 31)
unfolding is_skipped
error_range-covers_example = error_range-covers errors platform 12 platform-IsPlatform refl refl
