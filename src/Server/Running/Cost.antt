-- ===== src/Server/Running/Cost.antt =====
-- How much is left to do for the messages that were inserted.
use rundo_dahua_sdk_edge.Common.{
  ℕ, ◌+◌, ◌*◌, ◌≡◌, refl, ◌∙◌, ◌⊎◌, inl, inr, List, [], ◌∷◌, String, none, length, arith,
}
use rundo_dahua_sdk_edge.Mailbox
use rundo_dahua_sdk_edge.Mailbox.{Phase, looking, waiting, locking}
use rundo_dahua_sdk_edge.TaskQueue
use rundo_dahua_sdk_edge.Server.{Server}
use rundo_dahua_sdk_edge.Server.Running.{
  Running, boot, erase, dispatch, finish, Reach, acts, boots, inserts, signals, looks, wakes,
  erases, dispatches, posts, waits, begins, finishes,
}
use rundo_dahua_sdk_edge.Server.Running.Parts.{in_hand, erase-queue, begin_task-queue}

-- The queue of tasks is reached as one of its own states is, and nobody told the workers to leave.
pub record IsQueue (q : TaskQueue.Queue String) : Type 0 where
  pub reached : TaskQueue.Reach q
  pub staying : q.exits ≡ 0

stepped :
    (q p : TaskQueue.Queue String) → IsQueue q → TaskQueue.Step q p → p.exits ≡ q.exits → IsQueue p
stepped q p v s e = record { reached = TaskQueue.next v.reached s; staying = e ∙ v.staying }

take-exits : (q : TaskQueue.Queue String) → (TaskQueue.take q).exits ≡ q.exits
unfolding TaskQueue.take
take-exits q = ground arith

pub Reach-IsQueue :
    (workers : ℕ) (s : Server) (l : List String) (r : Running)
    → Reach workers s l r
    → IsQueue r.queue
unfolding boot dispatch finish TaskQueue.empty TaskQueue.push_task TaskQueue.post TaskQueue.wait
Reach-IsQueue workers s l r (boots e f) =
    rw f (record { reached = TaskQueue.start refl; staying = refl })
Reach-IsQueue workers s k q (inserts {l = l} {r = r} msg h e f) =
    rw f (Reach-IsQueue workers s l r h)
Reach-IsQueue workers s l q (acts {r = r} h (signals pos f)) = rw f (Reach-IsQueue workers s l r h)
Reach-IsQueue workers s l q (acts {r = r} h (looks free here f)) =
    rw f (Reach-IsQueue workers s l r h)
Reach-IsQueue workers s l q (acts {r = r} h (wakes here pos f)) =
    rw f (Reach-IsQueue workers s l r h)
Reach-IsQueue workers s l q (acts {r = r} h (erases free here f)) =
    rw (f, erase-queue r) (Reach-IsQueue workers s l r h)
Reach-IsQueue workers s l q (acts {r = r} h (dispatches msg holds f)) =
    rw f (stepped r.queue _ (Reach-IsQueue workers s l r h) (TaskQueue.pushes msg refl) refl)
Reach-IsQueue workers s l q (acts {r = r} h (posts pos f)) =
    rw f (stepped r.queue _ (Reach-IsQueue workers s l r h) (TaskQueue.posts pos refl) refl)
Reach-IsQueue workers s l q (acts {r = r} h (waits pos spare f)) =
    rw f (stepped r.queue _ (Reach-IsQueue workers s l r h) (TaskQueue.waits pos refl) refl)
Reach-IsQueue workers s l q (acts {r = r} h (begins pos f)) =
    rw (f, begin_task-queue r)
      (stepped r.queue _ (Reach-IsQueue workers s l r h) (TaskQueue.takes pos refl)
        (take-exits r.queue))
Reach-IsQueue workers s l q (acts {r = r} h (finishes a before msg after s' split done f)) =
    rw f (Reach-IsQueue workers s l r h)

-- How far the messages have to go.
abbrev pub distance : Phase → ℕ
distance locking = 0
distance _ = 1

abbrev pub left_to_do : Running → ℕ
left_to_do r =
    7 * length r.mailbox.msg_list
    + 5 * length (in_hand r)
    + length r.queue.queue
    + 3 * r.queue.posting
    + 2 * r.queue.count
    + r.queue.granted
    + length r.begun
    + distance r.mailbox.phase
    + r.mailbox.signalling

-- Nothing is begun, queued, held or in the list.
pub record IsServed (r : Running) : Type 0 where
  pub begun : r.begun ≡ []
  pub queue : r.queue.queue ≡ []
  pub hand : r.held ≡ none
  pub list : r.mailbox.msg_list ≡ []

pub nil_of_length : (xs : List String) → length xs ≡ 0 → xs ≡ []
nil_of_length [] e = refl
nil_of_length (x ∷ xs) e = absurd (omega arith)

pub Phase-cases : (p : Phase) → (p ≡ looking) ⊎ ((p ≡ waiting) ⊎ (p ≡ locking))
Phase-cases looking = inl refl
Phase-cases waiting = inr (inl refl)
Phase-cases locking = inr (inr refl)

pub look-cost :
    (b : Mailbox.Mailbox) (msg : String) (rest : List String)
    → b.msg_list ≡ msg ∷ rest
    → ((Mailbox.look b).msg_list ≡ b.msg_list)
      × (distance (Mailbox.look b).phase ≡ 0)
      × ((Mailbox.look b).signalling ≡ b.signalling)
unfolding Mailbox.look
look-cost b msg rest e = (ground arith, rw (e, Mailbox.look) refl, ground arith)

pub erase_task-cost :
    (b : Mailbox.Mailbox) (msg : String) (rest : List String)
    → b.msg_list ≡ msg ∷ rest
    → (length (Mailbox.erase_task b).msg_list + 1 ≡ length b.msg_list)
      × (distance (Mailbox.erase_task b).phase ≡ 1)
      × ((Mailbox.erase_task b).signalling ≡ b.signalling)
unfolding Mailbox.erase_task
erase_task-cost b msg rest e =
    (rw (e, Mailbox.erase_task) (omega arith), rw (e, Mailbox.erase_task) refl, ground arith)

pub erase-held :
    (r : Running) (msg : String) (rest : List String)
    → r.mailbox.msg_list ≡ msg ∷ rest
    → length (in_hand (erase r)) ≡ 1
unfolding erase
erase-held r msg rest e = rw (e, erase) refl
