-- ===== src/Server/Running.antt =====
-- The life of a request, from src/client_manage.cpp's `insert_task` to its handler: the request list
-- (Mailbox), `handle_msg_func` of src/server_manage.cpp, which hands each request to the thread pool,
-- the pool's queue (TaskQueue), and `run` of src/dc_thread_pool/thread_pool.h, whose workers handle them.
-- A handler is one step; the threads that publish are not steps of this model.
pub mod Parts
pub mod Once
pub mod Cost
pub mod Served
pub mod Overtaken
mod Tests
use rundo_dahua_sdk_edge.Common.{
  ℕ, ◌+◌, ◌≡◌, ◌<◌, List, [], ◌∷◌, ◌++◌, String, Option, none, some, length,
}
use rundo_dahua_sdk_edge.Mailbox
use rundo_dahua_sdk_edge.Mailbox.{Mailbox, looking, waiting, locking}
use rundo_dahua_sdk_edge.TaskQueue
use rundo_dahua_sdk_edge.TaskQueue.{Queue}
use rundo_dahua_sdk_edge.Server.{Server, Around}
use rundo_dahua_sdk_edge.Server.Dispatch.{handle_msg}

pub record Running : Type 0 where
  pub mailbox : Mailbox
  pub held : Option String  -- `msg_` of `handle_msg_func`, from `erase_task` to `input_task`
  pub queue : Queue String  -- the tasks of the pool, by the requests that they handle
  pub begun : List String  -- tasks that workers have got, and have not finished
  pub handled : List (Around × String)  -- finished tasks, oldest first, each with what it met
  pub server : Server

unfoldable pub boot : Server → Running
boot s = record {
  mailbox = Mailbox.empty;
  held = none;
  queue = TaskQueue.empty;
  begun = [];
  handled = [];
  server = s;
}

-- `erase_task(msg_)` under the lock: with `true` it leaves the first message in `msg_`.
unfoldable pub erase : Running → Running
erase r = elim r.mailbox.msg_list [
  | [] ↦ record r { mailbox = Mailbox.erase_task r.mailbox }
  | msg ∷ _ ↦ record r { mailbox = Mailbox.erase_task r.mailbox; held = some msg }
]

-- `input_task` of a thread that is no worker: the task is queued. Its post is a step of its own.
unfoldable pub dispatch : String → Running → Running
dispatch msg r = record r { held = none; queue = TaskQueue.push_task msg r.queue }

-- A worker in `get_task`, once it was granted a task: the front of the queue, which it then runs.
unfoldable pub begin_task : Running → Running
begin_task r = elim r.queue.queue [
  | [] ↦ record r { queue = TaskQueue.take r.queue }
  | msg ∷ _ ↦ record r { queue = TaskQueue.take r.queue; begun = r.begun ++ msg ∷ [] }
]

-- A worker finishes one of the tasks that were begun: the server is what its handler left.
unfoldable pub finish : Around → List String → String → List String → Server → Running → Running
finish a before msg after s r = record r {
  begun = before ++ after;
  handled = r.handled ++ (a, msg) ∷ [];
  server = s;
}

-- The dispatching thread is between two rounds of its loop: it holds no message, and has posted what
-- it pushed.
abbrev pub IsFree : Running → Type 0
IsFree r = (r.held ≡ none) × (r.queue.posting ≡ 0)

-- The workers that are in `get_task` with a grant, run a task, or have left.
abbrev pub busy : Running → ℕ
busy r = r.queue.granted + length r.begun + r.queue.left

-- A step of a thread that inserts and has still to signal, of the dispatching thread, or of one of
-- `workers` workers: `q` is the state after it.
pub data Step (workers : ℕ) (r q : Running) : Type 0 where
  signals :
      0 < r.mailbox.signalling
      → q ≡ record r { mailbox = Mailbox.signal_task r.mailbox }
      → Step workers r q
  looks :
      IsFree r
      → r.mailbox.phase ≡ looking
      → q ≡ record r { mailbox = Mailbox.look r.mailbox }
      → Step workers r q
  wakes :
      r.mailbox.phase ≡ waiting
      → 0 < r.mailbox.count
      → q ≡ record r { mailbox = Mailbox.wake r.mailbox }
      → Step workers r q
  erases : IsFree r → r.mailbox.phase ≡ locking → q ≡ erase r → Step workers r q
  dispatches : (msg : String) → r.held ≡ some msg → q ≡ dispatch msg r → Step workers r q
  posts : 0 < r.queue.posting → q ≡ record r { queue = TaskQueue.post r.queue } → Step workers r q
  waits :
      0 < r.queue.count
      → busy r < workers
      → q ≡ record r { queue = TaskQueue.wait r.queue }
      → Step workers r q
  begins : 0 < r.queue.granted → q ≡ begin_task r → Step workers r q
  finishes :
      (a : Around) (before : List String) (msg : String) (after : List String) (s' : Server)
      → r.begun ≡ before ++ msg ∷ after
      → handle_msg a msg r.server ≡ some s'
      → q ≡ finish a before msg after s' r
      → Step workers r q

-- The states that an interleaving leads to, with the messages inserted so far.
pub data Reach (workers : ℕ) (s : Server) : List String → Running → Type 0 where
  boots : {l : List String} {r : Running} → l ≡ [] → r ≡ boot s → Reach workers s l r
  inserts :
      {l k : List String} {r q : Running} (msg : String)
      → Reach workers s l r
      → k ≡ l ++ msg ∷ []
      → q ≡ record r { mailbox = Mailbox.insert_task msg r.mailbox }
      → Reach workers s k q
  acts :
      {l : List String} {r q : Running}
      → Reach workers s l r
      → Step workers r q
      → Reach workers s l q

-- The states that lie ahead of one when no message is inserted any more.
pub data Ahead (workers : ℕ) (r : Running) : Running → Type 0 where
  stays : {q : Running} → q ≡ r → Ahead workers r q
  goes : {p q : Running} → Ahead workers r p → Step workers p q → Ahead workers r q
