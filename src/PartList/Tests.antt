-- ===== src/PartList/Tests.antt =====
-- src/core/ngx_list.c: a list with parts of two elements.
use nginx_inside_out.Prelude.{◌≡◌, refl, [], ◌∷◌}
use nginx_inside_out.PartList.{Parts}
use nginx_inside_out.PartList.Append.{slots}

abbrev full_list : Parts
full_list = record {
  front = [];
  last = record { addr = 104; elts = 152; nelts = 2 };
  size = 8;
  nalloc = 2;
}

full_list-slots : slots full_list ≡ 152 ∷ 160 ∷ []
full_list-slots = refl
