-- ===== src/TaskQueue/Order.antt =====
-- Tasks are handed out in the order in which they were queued.
use mathlib.Core.List.{append_assoc}
use rundo_dahua_sdk_edge.Common.{List-cases, ℕ, ◌≡◌, ◌<◌, ap, inl, inr, List, [], ◌∷◌, ◌++◌, arith}
use rundo_dahua_sdk_edge.TaskQueue.{Queue, empty, push_task, post, push_exit, wait, take}

-- The states that are reached when only `push_task` queues tasks, with the tasks in that order.
pub data Fifo {A : Type 0} : List A → Queue A → Type 0 where
  fifo_start : {l : List A} {q : Queue A} → l ≡ [] → q ≡ empty → Fifo l q
  fifo_push :
      {l k : List A} {q r : Queue A} (a : A)
      → Fifo l q
      → k ≡ l ++ a ∷ []
      → r ≡ push_task a q
      → Fifo k r
  fifo_post : {l : List A} {q r : Queue A} → Fifo l q → 0 < q.posting → r ≡ post q → Fifo l r
  fifo_exit : {l : List A} {q r : Queue A} (n : ℕ) → Fifo l q → r ≡ push_exit n q → Fifo l r
  fifo_wait : {l : List A} {q r : Queue A} → Fifo l q → 0 < q.count → r ≡ wait q → Fifo l r
  fifo_take : {l : List A} {q r : Queue A} → Fifo l q → 0 < q.granted → r ≡ take q → Fifo l r

take-order : {A : Type 0} (q : Queue A) → (take q).taken ++ (take q).queue ≡ q.taken ++ q.queue
unfolding take
take-order q = elim (List-cases q.queue) [
  | inl e ↦ rw (e, take) (ap (◌++◌ q.taken) e)
  | inr (a, rest, e) ↦ rw (e, take) (append_assoc q.taken (a ∷ []) rest)
]

-- The tasks handed out and then those that wait are the tasks that were pushed, in order: none is
-- lost, repeated or overtaken.
pub Fifo-order : {A : Type 0} (l : List A) (q : Queue A) → Fifo l q → q.taken ++ q.queue ≡ l
unfolding empty push_task post push_exit wait
Fifo-order l q (fifo_start e f) = ground arith
Fifo-order k r (fifo_push {l = l} {q = q} a h e f) =
    ground (arith, append_assoc q.taken q.queue (a ∷ []), Fifo-order l q h)
Fifo-order l r (fifo_post {q = q} h p f) = ground (arith, Fifo-order l q h)
Fifo-order l r (fifo_exit {q = q} n h f) = ground (arith, Fifo-order l q h)
Fifo-order l r (fifo_wait {q = q} h p f) = ground (arith, Fifo-order l q h)
Fifo-order l r (fifo_take {q = q} h p f) = ground (arith, Fifo-order l q h, take-order q)
