-- ===== src/Config/Tests.antt =====
-- src/core/ngx_config.h: rounding up to a multiple of 16.
use nginx_inside_out.Prelude.{arith, refl, ◌≡◌, ◌^◌}
use nginx_inside_out.Config.{align_ptr}
use nginx_inside_out.Config.Align.{IsRoundedUp, align_ptr-IsRoundedUp}

rounded : align_ptr 1001 16 ≡ 1008
unfolding align_ptr
rounded = refl

align_ptr-IsRoundedUp_example : IsRoundedUp (2 ^ 4) 1001 (align_ptr 1001 (2 ^ 4))
align_ptr-IsRoundedUp_example = align_ptr-IsRoundedUp 1001 4 (omega arith) (omega arith)
