-- ===== src/Queue.antt =====
-- src/core/ngx_queue.h: the intrusive doubly linked ring. An element is the address of its
-- ngx_queue_t; the store holds the two links of every address, and each macro is its assignments in
-- order.
pub mod Ring
pub mod Refine
pub mod History
mod Tests
use nginx_inside_out.Prelude.{ℕ, Bool, ◌==◌, if◌then◌else◌}

-- struct ngx_queue_s at each address
pub record Links : Type 0 where
  pub prev : ℕ → ℕ
  pub next : ℕ → ℕ

abbrev pub update : (ℕ → ℕ) → ℕ → ℕ → ℕ → ℕ
update f a v b = if b == a then v else f b

-- `(a)->prev = v` and `(a)->next = v`
abbrev pub set_prev : ℕ → ℕ → Links → Links
set_prev a v s = record s { prev = update s.prev a v }

abbrev pub set_next : ℕ → ℕ → Links → Links
set_next a v s = record s { next = update s.next a v }

-- ngx_queue_init
unfoldable pub queue_init : (q : ℕ) → Links → Links
queue_init q s = set_next q q (set_prev q q s)

-- ngx_queue_empty
unfoldable pub queue_empty : (h : ℕ) → Links → Bool
queue_empty h s = h == s.prev h

-- ngx_queue_insert_head, which is ngx_queue_insert_after too
unfoldable pub queue_insert_head : (h x : ℕ) → Links → Links
queue_insert_head h x s =
    let s1 = set_next x (s.next h) s in
    let s2 = set_prev (s1.next x) x s1 in let s3 = set_prev x h s2 in set_next h x s3

-- ngx_queue_insert_tail
unfoldable pub queue_insert_tail : (h x : ℕ) → Links → Links
queue_insert_tail h x s =
    let s1 = set_prev x (s.prev h) s in
    let s2 = set_next (s1.prev x) x s1 in let s3 = set_next x h s2 in set_prev h x s3

-- ngx_queue_head, ngx_queue_next
unfoldable pub queue_head : (h : ℕ) → Links → ℕ
queue_head h s = s.next h

-- ngx_queue_last, ngx_queue_prev
unfoldable pub queue_last : (h : ℕ) → Links → ℕ
queue_last h s = s.prev h

-- ngx_queue_remove, without NGX_DEBUG
unfoldable pub queue_remove : (x : ℕ) → Links → Links
queue_remove x s = let s1 = set_prev (s.next x) (s.prev x) s in set_next (s1.prev x) (s1.next x) s1

-- ngx_queue_remove, with NGX_DEBUG; NULL is 0
unfoldable pub queue_remove_debug : (x : ℕ) → Links → Links
unfolding queue_remove
queue_remove_debug x s = set_next x 0 (set_prev x 0 (queue_remove x s))
