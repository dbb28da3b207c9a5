-- ===== src/TaskQueue/Pool.antt =====
-- src/dc_thread_pool/thread_pool.h: the life of a pool of `n` workers, and its `stop`.
use rundo_dahua_sdk_edge.Common.{
  ℕ, ◌≡◌, ◌≢◌, refl, ◌<◌, ◌∙◌, Bool, true, false, ◌&&◌, arith, if◌then◌else◌,
}
use rundo_dahua_sdk_edge.TaskQueue.{
  Queue, empty, push_task, push_task_first, push_exit, Step, Reach, start, next,
}
use rundo_dahua_sdk_edge.TaskQueue.Balance.{Reach-left}

-- What becomes of a task that is handed to the pool.
pub data Input (A : Type 0) : Type 0 where
  run_at_once : A → Input A
  queued : Queue A → Input A

-- `input_task`: a worker that may run a task itself does so.
unfoldable pub input_task : {A : Type 0} → Bool → Bool → A → Queue A → Input A
input_task may_sync is_this_thread_in a q =
    if may_sync && is_this_thread_in then run_at_once a else queued (push_task a q)

-- `input_task_first` does not ask whether the caller is a worker.
unfoldable pub input_task_first : {A : Type 0} → Bool → A → Queue A → Input A
input_task_first may_sync a q = if may_sync then run_at_once a else queued (push_task_first a q)

-- The states of a pool of `n` workers. While it is not stopped its threads take steps, none of which
-- is `push_exit`, which only `stop` calls: `join_all` first, which returns when every worker has left,
-- and then `push_exit`.
pub data Pool {A : Type 0} (n : ℕ) : Bool → Queue A → Type 0 where
  runs : {b : Bool} {q : Queue A} → b ≡ false → q ≡ empty → Pool n b q
  steps : {b : Bool} {q r : Queue A} → Pool n b q → Step q r → r.exits ≡ q.exits → Pool n b r
  stops :
      {b c : Bool} {q r : Queue A}
      → Pool n b q
      → b ≡ false
      → q.left ≡ n
      → c ≡ true
      → r ≡ push_exit n q
      → Pool n c r

Pool-Reach :
    {A : Type 0} (n : ℕ) (b : Bool) (q : Queue A) → Pool n b q → b ≡ false → Reach q × (q.exits ≡ 0)
unfolding empty
Pool-Reach n b q (runs e s) f = (start s, ground arith)
Pool-Reach n b r (steps {q = q} p s e) f =
    let (reached, none_yet) = Pool-Reach n b q p f in (next reached s, e ∙ none_yet)
Pool-Reach n c r (stops p e l g h) f = absurd (cc)

Pool-stuck : {A : Type 0} (n : ℕ) (b : Bool) (q : Queue A) → 0 < n → Pool n b q → b ≢ true
Pool-stuck n b q h (runs e s) t = cc
Pool-stuck n b r h (steps {q = q} p s e) t = Pool-stuck n b q h p t
Pool-stuck n c r h (stops {b = b} {q = q} p e l g k) t =
    let (reached, none_yet) = Pool-Reach n b q p e in omega (arith, Reach-left q reached none_yet)

-- A pool with a worker never gets past `stop`: the workers are joined before they are told to leave,
-- so in no interleaving does `join_all` return.
pub not-Pool-true : {A : Type 0} (n : ℕ) (q : Queue A) → 0 < n → ¬ Pool n true q
not-Pool-true n q h p = Pool-stuck n true q h p refl
