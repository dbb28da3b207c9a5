-- ===== src/Server/Running/Once.antt =====
-- Where the requests are that were inserted.
use mathlib.Core.List.{append_assoc, map-append, perm_middle}
use mathlib.Core.List.Perm
use mathlib.Core.List.{Perm}
use rundo_dahua_sdk_edge.Common.{
  List-cases, ℕ, ◌≡◌, inl, inr, List, [], ◌∷◌, ◌++◌, String, map, arith,
}
use rundo_dahua_sdk_edge.Mailbox.Delivery as Delivery
use rundo_dahua_sdk_edge.TaskQueue
use rundo_dahua_sdk_edge.TaskQueue.{Queue}
use rundo_dahua_sdk_edge.TaskQueue.Order.{Fifo-order}
use rundo_dahua_sdk_edge.Server.{Server, Around}
use rundo_dahua_sdk_edge.Server.Running.{
  Running, boot, erase, dispatch, begin_task, finish, Reach, acts, boots, inserts, signals, looks,
  wakes, erases, dispatches, posts, waits, begins, finishes,
}
use rundo_dahua_sdk_edge.Server.Running.Parts.{in_hand, erase-queue, Reach-Parts}

abbrev pub messages : List (Around × String) → List String
messages = map (λ p. p.1)

-- A task that is finished leaves those that were begun for those that were handled.
finish-perm :
    (done : List (Around × String)) (a : Around) (before : List String) (msg : String)
    (after : List String)
    → Perm
        (messages (done ++ (a, msg) ∷ []) ++ (before ++ after))
        (messages done ++ (before ++ msg ∷ after))
finish-perm done a before msg after =
    rw (map-append, append_assoc)
      (Perm.append_left (messages done) (Perm.symm (perm_middle before after)))

begin-perm :
    (done : List (Around × String)) (r : Running)
    → Perm (messages done ++ r.begun) r.queue.taken
    → Perm (messages done ++ (begin_task r).begun) (begin_task r).queue.taken
unfolding begin_task TaskQueue.take
begin-perm done r p = elim (List-cases r.queue.queue) [
  | inl e ↦ rw (e, begin_task) (rw (e, TaskQueue.take) p)
  | inr (msg, rest, e) ↦
      rw (e, begin_task)
        (rw (e, TaskQueue.take)
          (rw (← append_assoc (messages done) r.begun (msg ∷ [])) (Perm.append_right (msg ∷ []) p)))
]

pub begin_task-handled : (r : Running) → (begin_task r).handled ≡ r.handled
unfolding begin_task
begin_task-handled r = ground arith

pub erase-handled : (r : Running) → ((erase r).handled ≡ r.handled) × ((erase r).begun ≡ r.begun)
unfolding erase
erase-handled r = ground arith

-- The tasks that were handed out are those that were handled and those that were begun.
abbrev IsKept : Running → Type 0
IsKept r = Perm (messages r.handled ++ r.begun) r.queue.taken

Reach-IsKept :
    (workers : ℕ) (s : Server) (l : List String) (r : Running) → Reach workers s l r → IsKept r
unfolding boot dispatch finish TaskQueue.empty TaskQueue.push_task TaskQueue.post TaskQueue.wait
Reach-IsKept workers s l r (boots e f) = rw f (Perm.refl [])
Reach-IsKept workers s k q (inserts {l = l} {r = r} msg h e f) = rw f (Reach-IsKept workers s l r h)
Reach-IsKept workers s l q (acts {r = r} h (signals pos f)) = rw f (Reach-IsKept workers s l r h)
Reach-IsKept workers s l q (acts {r = r} h (looks free here f)) =
    rw f (Reach-IsKept workers s l r h)
Reach-IsKept workers s l q (acts {r = r} h (wakes here pos f)) = rw f (Reach-IsKept workers s l r h)
Reach-IsKept workers s l q (acts {r = r} h (erases free here f)) =
    let (done, begun) = erase-handled r in
    rw (f, erase-queue r, done, begun) (Reach-IsKept workers s l r h)
Reach-IsKept workers s l q (acts {r = r} h (dispatches msg holds f)) =
    rw f (Reach-IsKept workers s l r h)
Reach-IsKept workers s l q (acts {r = r} h (posts pos f)) = rw f (Reach-IsKept workers s l r h)
Reach-IsKept workers s l q (acts {r = r} h (waits pos spare f)) =
    rw f (Reach-IsKept workers s l r h)
Reach-IsKept workers s l q (acts {r = r} h (begins pos f)) =
    rw (f, begin_task-handled r) (begin-perm r.handled r (Reach-IsKept workers s l r h))
Reach-IsKept workers s l q (acts {r = r} h (finishes a before msg after s' split done f)) = rw f (
    Perm.trans (finish-perm r.handled a before msg after)
      (rw split at (Reach-IsKept workers s l r h)))

-- The places of a request, from its handler back to the list: handled, begun by a worker, queued for
-- one, in the dispatching thread's hand, or in the list of requests.
abbrev pub places : Running → List String
places r = messages r.handled ++ r.begun ++ r.queue.queue ++ in_hand r ++ r.mailbox.msg_list

-- In every interleaving each message that was inserted is in exactly one place, as often as it was
-- inserted: handled, begun, queued for a worker, held by the dispatching thread, or in the list of
-- requests. So none is lost, and none is handled twice.
pub Reach-Perm :
    (workers : ℕ) (s : Server) (l : List String) (r : Running)
    → Reach workers s l r
    → Perm (places r) l
Reach-Perm workers s l r h =
    let p = Reach-Parts workers s l r h in
    let tasks = Fifo-order p.given r.queue p.tasks in
    let mail = Delivery.Reach-order l r.mailbox p.mail in
    let kept = Perm.append_right r.queue.queue (Reach-IsKept workers s l r h) in
    let dispatched = Perm.append_right (in_hand r) (rw tasks at kept) in
    rw mail at (Perm.append_right r.mailbox.msg_list (rw p.moved at dispatched))
