-- ===== src/TaskQueue/Tests.antt =====
-- The theorems on the task queue, applied to two tasks, one of which is handed out.
use rundo_dahua_sdk_edge.Common.{ℕ, ◌*◌, length, refl, true, arith}
use rundo_dahua_sdk_edge.TaskQueue.{
  Queue, empty, push_task, post, push_exit, wait, take, Reach, start, next, pushes, posts, waits,
  takes,
}
use rundo_dahua_sdk_edge.TaskQueue.Drain.{Drained, Reach-Drained}
use rundo_dahua_sdk_edge.TaskQueue.Pool.{Pool, not-Pool-true}

abbrev pushed_one : Queue ℕ
pushed_one = push_task 1 empty

abbrev pushed_two : Queue ℕ
pushed_two = push_task 2 (post pushed_one)

abbrev taken_one : Queue ℕ
taken_one = take (wait pushed_two)

taken_one-Reach : Reach taken_one
unfolding empty push_task post wait
taken_one-Reach =
    next {q = wait pushed_two}
      (next {q = pushed_two}
        (next {q = post pushed_one}
          (next {q = pushed_one} (next {q = empty} (start refl) (pushes 1 refl))
            (posts (omega arith) refl))
          (pushes 2 refl))
        (waits (omega arith) refl))
      (takes (omega arith) refl)

not-Pool-true_example : ¬ Pool 4 true (push_exit 4 taken_one)
not-Pool-true_example = not-Pool-true 4 (push_exit 4 taken_one) (omega arith)

Reach-Drained_example : Drained (3 * length taken_one.queue) taken_one
unfolding empty push_task post wait take
Reach-Drained_example = Reach-Drained taken_one taken_one-Reach refl
