-- ===== src/Server/Running/Parts.antt =====
-- The list of requests and the queue of tasks run as they do by themselves.
use mathlib.Core.List.{append-nil}
use rundo_dahua_sdk_edge.Common.{
  List-cases, ℕ, ◌≡◌, refl, sym, ap, ◌∙◌, inl, inr, List, [], ◌∷◌, ◌++◌, String, none, some, arith,
}
use rundo_dahua_sdk_edge.Mailbox
use rundo_dahua_sdk_edge.Mailbox.{Mailbox, locking}
use rundo_dahua_sdk_edge.TaskQueue
use rundo_dahua_sdk_edge.TaskQueue.{Queue}
use rundo_dahua_sdk_edge.TaskQueue.Order.{Fifo}
use rundo_dahua_sdk_edge.Server.{Server}
use rundo_dahua_sdk_edge.Server.Running.{
  Running, boot, erase, dispatch, begin_task, finish, Reach, acts, boots, inserts, signals, looks,
  wakes, erases, dispatches, posts, waits, begins, finishes,
}

-- The message that the dispatching thread holds, as a list.
abbrev pub in_hand : Running → List String
in_hand r = elim r.held [ none ↦ [] | some msg ↦ msg ∷ [] ]

-- The state's parts are reached as the components' own states are: the list of requests with the
-- messages inserted, and the queue of tasks with the messages dispatched.
pub record Parts (l : List String) (r : Running) : Type 0 where
  pub mail : Mailbox.Reach l r.mailbox
  pub given : List String
  pub tasks : Fifo given r.queue
  pub moved : given ++ in_hand r ≡ r.mailbox.taken

-- What the dispatching thread has taken: its hand is filled by `erase_task` alone.
erase-moved :
    (given : List String) (r : Running)
    → given ++ in_hand r ≡ r.mailbox.taken
    → r.held ≡ none
    → given ++ in_hand (erase r) ≡ (erase r).mailbox.taken
unfolding erase Mailbox.erase_task
erase-moved given r m free = elim (List-cases r.mailbox.msg_list) [
  | inl e ↦ rw (e, erase) (rw (e, Mailbox.erase_task) m)
  | inr (msg, rest, e) ↦
      let whole : given ≡ r.mailbox.taken = sym (append-nil given) ∙ (rw free at m) in
      rw (e, erase) (rw (e, Mailbox.erase_task) (ap (λ t. t ++ msg ∷ []) whole))
]

look-taken : (b : Mailbox) → b.taken ≡ (Mailbox.look b).taken
unfolding Mailbox.look
look-taken b = ground arith

pub erase-mailbox : (r : Running) → (erase r).mailbox ≡ Mailbox.erase_task r.mailbox
unfolding erase
erase-mailbox r = ground arith

pub erase-queue : (r : Running) → (erase r).queue ≡ r.queue
unfolding erase
erase-queue r = ground arith

pub begin_task-queue : (r : Running) → (begin_task r).queue ≡ TaskQueue.take r.queue
unfolding begin_task
begin_task-queue r = ground arith

begin_task-mailbox : (r : Running) → (begin_task r).mailbox ≡ r.mailbox
unfolding begin_task
begin_task-mailbox r = ground arith

begin_task-held : (r : Running) → (begin_task r).held ≡ r.held
unfolding begin_task
begin_task-held r = ground arith

pub Reach-Parts :
    (workers : ℕ) (s : Server) (l : List String) (r : Running) → Reach workers s l r → Parts l r
unfolding boot dispatch finish Mailbox.empty Mailbox.insert_task Mailbox.signal_task Mailbox.look
    Mailbox.wake
Reach-Parts workers s l r (boots e f) = rw f (record {
  mail = Mailbox.starts e refl;
  given = [];
  tasks = Fifo.fifo_start refl refl;
  moved = refl;
})
Reach-Parts workers s k q (inserts {l = l} {r = r} msg h e f) =
    let p = Reach-Parts workers s l r h in
    rw f (record {
      mail = Mailbox.inserts {b = r.mailbox} msg p.mail e refl;
      given = p.given;
      tasks = p.tasks;
      moved = p.moved;
    })
Reach-Parts workers s l q (acts {r = r} h (signals pos f)) =
    let p = Reach-Parts workers s l r h in
    rw f (record {
      mail = Mailbox.signals {b = r.mailbox} p.mail pos refl;
      given = p.given;
      tasks = p.tasks;
      moved = p.moved;
    })
Reach-Parts workers s l q (acts {r = r} h (looks free here f)) =
    let p = Reach-Parts workers s l r h in
    rw f (record {
      mail = Mailbox.looks {b = r.mailbox} p.mail here refl;
      given = p.given;
      tasks = p.tasks;
      moved = p.moved ∙ look-taken r.mailbox;
    })
Reach-Parts workers s l q (acts {r = r} h (wakes here pos f)) =
    let p = Reach-Parts workers s l r h in
    rw f (record {
      mail = Mailbox.wakes {b = r.mailbox} p.mail here pos refl;
      given = p.given;
      tasks = p.tasks;
      moved = p.moved;
    })
Reach-Parts workers s l q (acts {r = r} h (erases free here f)) =
    let p = Reach-Parts workers s l r h in
    rw f (record {
      mail = Mailbox.erases {b = r.mailbox} p.mail here (erase-mailbox r);
      given = p.given;
      tasks = rw (erase-queue r) p.tasks;
      moved = erase-moved p.given r p.moved free.0;
    })
Reach-Parts workers s l q (acts {r = r} h (dispatches msg holds f)) =
    let p = Reach-Parts workers s l r h in
    rw f (record {
      mail = p.mail;
      given = p.given ++ msg ∷ [];
      tasks = Fifo.fifo_push {q = r.queue} msg p.tasks refl refl;
      moved = append-nil (p.given ++ msg ∷ []) ∙ (rw holds at (p.moved));
    })
Reach-Parts workers s l q (acts {r = r} h (posts pos f)) =
    let p = Reach-Parts workers s l r h in
    rw f (record {
      mail = p.mail;
      given = p.given;
      tasks = Fifo.fifo_post {q = r.queue} p.tasks pos refl;
      moved = p.moved;
    })
Reach-Parts workers s l q (acts {r = r} h (waits pos spare f)) =
    let p = Reach-Parts workers s l r h in
    rw f (record {
      mail = p.mail;
      given = p.given;
      tasks = Fifo.fifo_wait {q = r.queue} p.tasks pos refl;
      moved = p.moved;
    })
Reach-Parts workers s l q (acts {r = r} h (begins pos f)) =
    let p = Reach-Parts workers s l r h in
    rw f (record {
      mail = rw (begin_task-mailbox r) p.mail;
      given = p.given;
      tasks = Fifo.fifo_take {q = r.queue} p.tasks pos (begin_task-queue r);
      moved = rw (begin_task-held r, begin_task-mailbox r) p.moved;
    })
Reach-Parts workers s l q (acts {r = r} h (finishes a before msg after s' split done f)) =
    let p = Reach-Parts workers s l r h in
    rw f (record { mail = p.mail; given = p.given; tasks = p.tasks; moved = p.moved })
