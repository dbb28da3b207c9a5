-- ===== src/TaskQueue/Balance.antt =====
-- The semaphore counts the tasks.
use rundo_dahua_sdk_edge.Common.{◌+◌, ◌≡◌, ◌≢◌, ◌<◌, [], ◌∷◌, length, length-append, arith}
use rundo_dahua_sdk_edge.TaskQueue.{
  Queue, empty, push_task, push_task_first, post, push_exit, wait, take, Step, pushes, pushes_first,
  posts, pushes_exit, waits, takes, Reach, start, next,
}

-- The posts that are made, under way or used up are the tasks that wait and the exits.
abbrev pub IsBalanced : {A : Type 0} → Queue A → Type 0
IsBalanced q = q.count + q.posting + q.granted + q.left ≡ length q.queue + q.exits

pub Step-IsBalanced : {A : Type 0} (q r : Queue A) → Step q r → IsBalanced q → IsBalanced r
unfolding push_task push_task_first post push_exit wait take
Step-IsBalanced q r (pushes a e) b = ground (arith, length-append q.queue (a ∷ []))
Step-IsBalanced q r (pushes_first a e) b = ground arith
Step-IsBalanced q r (posts h e) b = ground arith
Step-IsBalanced q r (pushes_exit n e) b = ground arith
Step-IsBalanced q r (waits h e) b = ground arith
Step-IsBalanced q r (takes h e) b = ground arith

-- In every state that an interleaving of producers and workers leads to, the posts that are counted,
-- under way, granted or used up by workers that left are as many as the waiting tasks and the exits.
pub Reach-IsBalanced : {A : Type 0} (q : Queue A) → Reach q → IsBalanced q
unfolding empty
Reach-IsBalanced q (start e) = ground arith
Reach-IsBalanced r (next {q = q} reached s) = Step-IsBalanced q r s (Reach-IsBalanced q reached)

-- So no wake-up is lost: while a task waits and no worker has left, a worker is granted one, can be
-- granted one, or will be when a producer posts.
pub Reach-awake :
    {A : Type 0} (q : Queue A)
    → Reach q
    → q.left ≡ 0
    → q.queue ≢ []
    → 0 < q.count + q.posting + q.granted
Reach-awake q reached l n = grind (arith, Reach-IsBalanced q reached)

-- No worker's loop ends, in any interleaving, before `push_exit` was called.
pub Reach-left : {A : Type 0} (q : Queue A) → Reach q → q.exits ≡ 0 → q.left ≡ 0
unfolding empty push_task push_task_first post push_exit wait take
Reach-left q (start e) x = ground arith
Reach-left r (next {q = q} reached (pushes a e)) x = ground (arith, Reach-left q reached)
Reach-left r (next {q = q} reached (pushes_first a e)) x = ground (arith, Reach-left q reached)
Reach-left r (next {q = q} reached (posts h e)) x = ground (arith, Reach-left q reached)
Reach-left r (next {q = q} reached (pushes_exit n e)) x = ground (arith, Reach-left q reached)
Reach-left r (next {q = q} reached (waits h e)) x = ground (arith, Reach-left q reached)
Reach-left r (next {q = q} reached (takes h e)) x =
    ground (arith, Reach-left q reached, Reach-IsBalanced q reached)
