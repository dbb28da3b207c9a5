-- ===== src/Mailbox.antt =====
-- src/event_condition_variable.h and, in src/server_manage.cpp, `insert_task` and `erase_task`: the
-- message consumer (`start_business_queue`) puts requests into `_msg_list`, and the one thread of
-- `handle_msg_func` takes them out. A step is one atomic part of one thread.
pub mod Delivery
use rundo_dahua_sdk_edge.Common.{
  ℕ, ◌+◌, ◌-◌, ◌≡◌, ◌<◌, List, [], ◌∷◌, ◌++◌, String, ◌==◌, if◌then◌else◌,
}

-- `event_condition_variable`: its `_count`.
unfoldable pub signal : ℕ → ℕ → ℕ
signal n count = count + n

-- `wait`, once the count is positive.
unfoldable pub wait : ℕ → ℕ
wait count = count - 1

-- `wait_for`: whatever happened, the count is forgotten.
unfoldable pub wait_for : ℕ → ℕ
wait_for count = 0

-- Where the taking thread stands in `erase_task`: at its first test, in `_msg_ev.wait()`, or behind
-- it, before the lock.
pub data Phase : Type 0 where
  looking waiting locking : Phase

pub record Mailbox : Type 0 where
  pub msg_list : List String
  pub count : ℕ
  pub signalling : ℕ  -- threads in `insert_task` that have still to signal
  pub phase : Phase
  pub taken : List String  -- messages that `erase_task` returned, oldest first

unfoldable pub empty : Mailbox
empty = record { msg_list = []; count = 0; signalling = 0; phase = looking; taken = [] }

-- The first part of `insert_task`: `push_back` under the lock.
unfoldable pub insert_task : String → Mailbox → Mailbox
insert_task msg b = record b { msg_list = b.msg_list ++ msg ∷ []; signalling = b.signalling + 1 }

-- Its second part: `_msg_ev.signal()`.
unfoldable pub signal_task : Mailbox → Mailbox
unfolding signal
signal_task b = record b { signalling = b.signalling - 1; count = signal 1 b.count }

-- The first part of `erase_task`: the test of the list, without the lock.
unfoldable pub look : Mailbox → Mailbox
look b = elim b.msg_list [
  | [] ↦ record b { phase = waiting }
  | _ ∷ _ ↦ record b { phase = locking }
]

-- The return of `_msg_ev.wait()`.
unfoldable pub wake : Mailbox → Mailbox
unfolding wait
wake b = record b { phase = locking; count = wait b.count }

-- The last part of `erase_task`, under the lock: the first message, or `false`.
unfoldable pub erase_task : Mailbox → Mailbox
erase_task b = elim b.msg_list [
  | [] ↦ record b { phase = looking }
  | msg ∷ rest ↦ record b { phase = looking; msg_list = rest; taken = b.taken ++ msg ∷ [] }
]

-- The states that an interleaving of inserting threads and the taking thread leads to, with the
-- messages inserted so far.
pub data Reach : List String → Mailbox → Type 0 where
  starts : {l : List String} {b : Mailbox} → l ≡ [] → b ≡ empty → Reach l b
  inserts :
      {l k : List String} {b c : Mailbox} (msg : String)
      → Reach l b
      → k ≡ l ++ msg ∷ []
      → c ≡ insert_task msg b
      → Reach k c
  signals :
      {l : List String} {b c : Mailbox}
      → Reach l b
      → 0 < b.signalling
      → c ≡ signal_task b
      → Reach l c
  looks : {l : List String} {b c : Mailbox} → Reach l b → b.phase ≡ looking → c ≡ look b → Reach l c
  wakes :
      {l : List String} {b c : Mailbox}
      → Reach l b
      → b.phase ≡ waiting
      → 0 < b.count
      → c ≡ wake b
      → Reach l c
  erases :
      {l : List String} {b c : Mailbox}
      → Reach l b
      → b.phase ≡ locking
      → c ≡ erase_task b
      → Reach l c
