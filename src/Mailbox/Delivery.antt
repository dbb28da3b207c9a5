-- ===== src/Mailbox/Delivery.antt =====
-- Every request is delivered once and in order, and the taking thread does not sleep over one.
use mathlib.Core.List.{append_assoc}
use rundo_dahua_sdk_edge.Common.{
  List-cases, ◌+◌, ◌≡◌, ◌≢◌, ◌≤◌, ◌<◌, ap, inl, inr, List, [], ◌∷◌, ◌++◌, String, length,
  length-append, arith,
}
use rundo_dahua_sdk_edge.Mailbox.{
  Mailbox, waiting, empty, insert_task, signal_task, look, wake, erase_task, Reach, starts, inserts,
  signals, looks, wakes, erases,
}

erase_task-order :
    (b : Mailbox) → (erase_task b).taken ++ (erase_task b).msg_list ≡ b.taken ++ b.msg_list
unfolding erase_task
erase_task-order b = elim (List-cases b.msg_list) [
  | inl e ↦ rw (e, erase_task) (ap (◌++◌ b.taken) e)
  | inr (a, rest, e) ↦ rw (e, erase_task) (append_assoc b.taken (a ∷ []) rest)
]

look-order : (b : Mailbox) → (look b).taken ++ (look b).msg_list ≡ b.taken ++ b.msg_list
unfolding look
look-order b = ground arith

-- In every interleaving the messages taken and then those that wait are the messages inserted, in
-- order: none is lost, repeated or overtaken.
pub Reach-order : (l : List String) (b : Mailbox) → Reach l b → b.taken ++ b.msg_list ≡ l
unfolding empty insert_task signal_task wake
Reach-order l b (starts e f) = ground arith
Reach-order k c (inserts {l = l} {b = b} msg h e f) =
    ground (arith, append_assoc b.taken b.msg_list (msg ∷ []), Reach-order l b h)
Reach-order l c (signals {b = b} h p f) = ground (arith, Reach-order l b h)
Reach-order l c (looks {b = b} h p f) = ground (arith, Reach-order l b h, look-order b)
Reach-order l c (wakes {b = b} h p q f) = ground (arith, Reach-order l b h)
Reach-order l c (erases {b = b} h p f) = ground (arith, Reach-order l b h, erase_task-order b)

waiting-le :
    (l : List String) (b : Mailbox)
    → Reach l b
    → b.phase ≡ waiting
    → length b.msg_list ≤ b.count + b.signalling
unfolding empty insert_task signal_task wake look erase_task
waiting-le l b (starts e f) w = ground arith
waiting-le k c (inserts {l = l} {b = b} msg h e f) w =
    ground (arith, length-append b.msg_list (msg ∷ []), waiting-le l b h)
waiting-le l c (signals {b = b} h p f) w = ground (arith, waiting-le l b h)
waiting-le l c (looks {b = b} h p f) w = ground (arith, waiting-le l b h)
waiting-le l c (wakes {b = b} h p q f) w = ground (arith, waiting-le l b h)
waiting-le l c (erases {b = b} h p f) w = ground (arith, waiting-le l b h)

-- In no interleaving does the taking thread wait for good while a message is in the list: the event
-- is signalled, or an inserting thread is about to signal it.
pub Reach-roused :
    (l : List String) (b : Mailbox)
    → Reach l b
    → b.phase ≡ waiting
    → b.msg_list ≢ []
    → 0 < b.count + b.signalling
Reach-roused l b h w n = grind (arith, waiting-le l b h w)
