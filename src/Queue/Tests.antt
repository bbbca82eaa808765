-- ===== src/Queue/Tests.antt =====
-- src/core/ngx_queue.h: a queue with the head at 100 and the elements 1, 2 and 3.
use nginx_inside_out.Prelude.{List, ◌≡◌, refl, some, [], ◌∷◌, arith}
use nginx_inside_out.Queue.{
  Links, queue_init, queue_insert_head, queue_insert_tail, queue_head, queue_last, queue_remove,
  queue_remove_debug,
}
use nginx_inside_out.Queue.Ring.{IsQueue}
use nginx_inside_out.Queue.History.{
  Operation, insert_head, insert_tail, remove, apply_all, apply_list_all, apply_all-IsQueue,
}
use nginx_inside_out.Queue.Refine.{
  queue_init-IsQueue, queue_insert_head-cons, queue_insert_tail-snoc,
  queue_remove-queue_remove_debug,
}

abbrev nowhere : Links
nowhere = record { prev = λ a. 0; next = λ a. 0 }

abbrev two : Links
two = queue_insert_head 100 1 (queue_insert_tail 100 2 (queue_init 100 nowhere))

two-IsQueue : IsQueue two 100 (1 ∷ 2 ∷ [])
two-IsQueue =
    queue_insert_head-cons (queue_insert_tail 100 2 (queue_init 100 nowhere)) 100 1 (2 ∷ [])
      (queue_insert_tail-snoc (queue_init 100 nowhere) 100 2 [] (queue_init-IsQueue 100 nowhere)
        (ground arith) tt)
      (ground arith) (ground arith)

first : queue_head 100 two ≡ 1
unfolding queue_head queue_init queue_insert_head queue_insert_tail
first = refl

last_one : queue_last 100 two ≡ 2
unfolding queue_last queue_init queue_insert_head queue_insert_tail
last_one = refl

queue_remove-queue_remove_debug_example :
    IsQueue (queue_remove 2 two) 100 (1 ∷ [])
    × IsQueue (queue_remove_debug 2 two) 100 (1 ∷ [])
    × ((queue_remove_debug 2 two).prev 2 ≡ 0)
    × ((queue_remove_debug 2 two).next 2 ≡ 0)
queue_remove-queue_remove_debug_example =
    queue_remove-queue_remove_debug two 100 2 (1 ∷ []) [] two-IsQueue

abbrev operations : List Operation
operations = insert_tail 3 ∷ insert_head 1 ∷ insert_tail 2 ∷ remove 3 ∷ insert_tail 3 ∷ []

on_a_list : apply_list_all 100 operations [] ≡ some (1 ∷ 2 ∷ 3 ∷ [])
unfolding apply_list_all
on_a_list = refl

apply_all-IsQueue_example :
    IsQueue (apply_all 100 operations (queue_init 100 nowhere)) 100 (1 ∷ 2 ∷ 3 ∷ [])
apply_all-IsQueue_example = apply_all-IsQueue 100 operations nowhere (1 ∷ 2 ∷ 3 ∷ []) on_a_list
