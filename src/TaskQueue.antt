-- ===== src/TaskQueue.antt =====
-- src/dc_thread_pool: the semaphore, the task queue and the worker loop of the thread pool. Any number
-- of threads takes part; a state counts those that stand between the two atomic parts of an operation,
-- and a step is one atomic part of one thread.
pub mod Balance
pub mod Order
pub mod Pool
pub mod Refine
pub mod Drain
mod Tests
use rundo_dahua_sdk_edge.Common.{ℕ, suc, ◌+◌, ◌-◌, ◌≡◌, ◌<◌, List, [], ◌∷◌, ◌++◌}

pub record Queue (A : Type 0) : Type 0 where
  pub queue : List A
  pub count : ℕ  -- `semaphore::_count`
  pub posting : ℕ  -- threads in `push_task` that have queued their task and have still to post
  pub granted : ℕ  -- threads in `get_task` that have passed `_sem.wait()`
  pub taken : List A  -- tasks handed out, oldest first
  pub exits : ℕ  -- posts made by `push_exit`
  pub left : ℕ  -- workers whose `get_task` found the queue empty: their loop has ended

unfoldable pub empty : {A : Type 0} → Queue A
empty = record { queue = []; count = 0; posting = 0; granted = 0; taken = []; exits = 0; left = 0 }

-- The first part of `push_task`: `emplace_back` under the lock.
unfoldable pub push_task : {A : Type 0} → A → Queue A → Queue A
push_task a q = record q { queue = q.queue ++ a ∷ []; posting = q.posting + 1 }

-- The first part of `push_task_first`: `emplace_front`.
unfoldable pub push_task_first : {A : Type 0} → A → Queue A → Queue A
push_task_first a q = record q { queue = a ∷ q.queue; posting = q.posting + 1 }

-- The second part of both: `_sem.post()`.
unfoldable pub post : {A : Type 0} → Queue A → Queue A
post q = record q { posting = q.posting - 1; count = q.count + 1 }

unfoldable pub push_exit : {A : Type 0} → ℕ → Queue A → Queue A
push_exit n q = record q { count = q.count + n; exits = q.exits + n }

-- The first part of `get_task`: `_sem.wait()`, which goes on only when the count is positive.
unfoldable pub wait : {A : Type 0} → Queue A → Queue A
wait q = record q { count = q.count - 1; granted = q.granted + 1 }

-- The second part of `get_task`, under the lock: the front task, or the end of the worker's loop.
unfoldable pub take : {A : Type 0} → Queue A → Queue A
take q = elim q.queue [
  | [] ↦ record q { granted = q.granted - 1; left = q.left + 1 }
  | a ∷ rest ↦ record q { queue = rest; granted = q.granted - 1; taken = q.taken ++ a ∷ [] }
]

-- `next` is the state after one atomic part of one thread.
pub data Step {A : Type 0} (q next : Queue A) : Type 0 where
  pushes : (a : A) → next ≡ push_task a q → Step q next
  pushes_first : (a : A) → next ≡ push_task_first a q → Step q next
  posts : 0 < q.posting → next ≡ post q → Step q next
  pushes_exit : (n : ℕ) → next ≡ push_exit n q → Step q next
  waits : 0 < q.count → next ≡ wait q → Step q next
  takes : 0 < q.granted → next ≡ take q → Step q next

-- The states that some interleaving of the threads leads to.
pub data Reach {A : Type 0} : Queue A → Type 0 where
  start : {q : Queue A} → q ≡ empty → Reach q
  next : {q r : Queue A} → Reach q → Step q r → Reach r
