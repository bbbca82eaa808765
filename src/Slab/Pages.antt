-- ===== src/Slab/Pages.antt =====
-- src/core/ngx_slab.c, ngx_slab_alloc_pages. A write to what is no header is a fault, as is a read there.
use nginx_inside_out.Prelude.{
  ℕ, zero, suc, ◌+◌, ◌-◌, ◌*◌, ◌/◌, ◌%◌, ◌^◌, Bool, ◌&&◌, ◌||◌, Option, none, some, ltb, leb, ◌==◌,
  if◌then◌else◌,
}
use nginx_inside_out.Pool.State.{null}
use nginx_inside_out.Slab.{Page, Zone, pagesize_shift, sizeof_page, free_of, put, sub}

-- What a call comes to: a page, the end of the function without `return`, or a fault. `no_fuel` is
-- given where the rounds are used up.
pub data Taken : Type 0 where
  taken : (page : ℕ) → Zone → Taken
  no_return : Zone → Taken
  faulted : Taken
  no_fuel : Taken

-- one of the headers between `pages` and `last`, or `free`
abbrev pub is_header : Zone → ℕ → Bool
is_header z a =
    a == free_of z || (leb z.pages a && ltb a z.last && (a - z.pages) % sizeof_page == 0)

-- `&page[i]`
abbrev pub element : (page i : ℕ) → ℕ
element page i = (page + i * sizeof_page) % 2 ^ 64

abbrev pub set_header : (a : ℕ) → (Page → Page) → Zone → Option Zone
set_header a f z =
    if is_header z a then some (record z { headers = put a (f (z.headers a)) z.headers }) else none

abbrev pub then_set : Option Zone → (Zone → ℕ) → (Zone → Page → Page) → Option Zone
then_set none at f = none
then_set (some z) at f = set_header (at z) (f z) z

-- the body of `if (page->slab > pages)`
unfoldable pub split_run : (page pages : ℕ) → Zone → Option Zone
split_run page pages z =
    let rest = element page pages in
    let z1 =
      then_set (some z) (λ z. element page (sub (z.headers page).slab 1))
        (λ z h. record h { prev = rest }) in
    let z2 = then_set z1 (λ z. rest) (λ z h. record h { slab = sub (z.headers page).slab pages }) in
    let z3 = then_set z2 (λ z. rest) (λ z h. record h { next = (z.headers page).next }) in
    let z4 = then_set z3 (λ z. rest) (λ z h. record h { prev = (z.headers page).prev }) in
    let z5 =
      then_set z4 (λ z. (z.headers page).prev) (λ z h. record h { next = (z.headers page).next }) in
    then_set z5 (λ z. (z.headers page).next) (λ z h. record h { prev = (z.headers page).prev })

-- `pages | NGX_SLAB_PAGE_START`
abbrev pub page_start : ℕ → ℕ
page_start pages = pages % 2 ^ 63 + 2 ^ 63

-- the header of a page that is given out, and the count of free pages
abbrev pub mark : (page pages : ℕ) → Zone → Zone
mark page pages z = record z {
  headers = put page (record { slab = page_start pages; next = null; prev = 0 }) z.headers;
  pfree = sub z.pfree pages;
}

-- `if (page->slab > pages) { … } else { }`
abbrev pub detach : (page pages : ℕ) → Zone → Option Zone
detach page pages z = if ltb pages (z.headers page).slab then split_run page pages z else some z

-- `for (page = …; page != &pool->free; page = page->next)`
unfoldable pub alloc_loop : (rounds page pages : ℕ) → Zone → Taken
alloc_loop zero page pages z = no_fuel
alloc_loop (suc rounds) page pages z =
    let on = alloc_loop rounds (z.headers page).next pages z in
    if page == free_of z
    then no_return z
    else if is_header z page
    then (if leb pages (z.headers page).slab
        then elim (detach page pages z) [
          | none ↦ faulted
          | some z' ↦
              let z'' = mark page pages z' in
              if sub pages 1 == 0
              then taken page z''
              else alloc_loop rounds (z''.headers page).next (sub pages 1) z''
        ]
        else on)
    else faulted

-- ngx_slab_alloc_pages
abbrev pub alloc_pages : (rounds : ℕ) → Zone → (pages : ℕ) → Taken
alloc_pages rounds z pages = alloc_loop rounds (z.headers (free_of z)).next pages z

-- ngx_slab_page_addr
abbrev pub page_addr : Zone → (page : ℕ) → ℕ
page_addr z page = (page - z.pages) / sizeof_page * 2 ^ pagesize_shift + z.start
