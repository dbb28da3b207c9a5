-- ===== src/Server/Running/Overtaken.antt =====
-- Two workers, and the order of two requests.
use rundo_dahua_sdk_edge.Common.{ℕ, ◌≡◌, ◌≤◌, ◌<◌, refl, List, [], ◌∷◌, String, some, arith}
use rundo_dahua_sdk_edge.Mailbox
use rundo_dahua_sdk_edge.Mailbox.{looking, waiting, locking}
use rundo_dahua_sdk_edge.TaskQueue
use rundo_dahua_sdk_edge.Server.{Server, Around}
use rundo_dahua_sdk_edge.Server.Dispatch.{handle_msg}
use rundo_dahua_sdk_edge.Server.Running.{
  Running, IsFree, acts, boot, erase, dispatch, begin_task, finish, Reach, boots, inserts, signals,
  looks, erases, dispatches, posts, waits, begins, finishes,
}

-- A round of the dispatching thread that finds a message: it looks, takes it, and queues it.
taken : Running → Running
taken r = erase (record r { mailbox = Mailbox.look r.mailbox })

delivered : String → Running → Running
unfolding taken
delivered msg r = let q = dispatch msg (taken r) in record q { queue = TaskQueue.post q.queue }

delivered-Reach :
    (workers : ℕ) (s : Server) (l : List String) (r : Running) (msg : String) (rest : List String)
    → IsFree r
    → r.mailbox.phase ≡ looking
    → r.mailbox.msg_list ≡ msg ∷ rest
    → Reach workers s l r
    → Reach workers s l (delivered msg r)
unfolding delivered taken
delivered-Reach workers s l r msg rest free here e h =
    let looked = record r { mailbox = Mailbox.look r.mailbox } in
    let locked : looked.mailbox.phase ≡ locking =
      unfold Mailbox.look in rw (e, Mailbox.look) refl in
    let full : looked.mailbox.msg_list ≡ msg ∷ rest =
      unfold Mailbox.look in rw (e, Mailbox.look) e in
    let hand : (erase looked).held ≡ some msg = unfold erase in rw (full, erase) refl in
    let posted : 0 < (dispatch msg (erase looked)).queue.posting =
      unfold dispatch TaskQueue.push_task in omega arith in
    acts {r = dispatch msg (erase looked)}
      (acts {r = erase looked}
        (acts {r = looked} (acts {r = r} h (looks free here refl)) (erases free locked refl))
        (dispatches msg hand refl))
      (posts posted refl)

module _ (s : Server) (x y : String) where
  -- Two messages are in the list.
  abbrev pub inserted : Running
  inserted = record (boot s) {
    mailbox =
        Mailbox.signal_task
          (Mailbox.insert_task y (Mailbox.signal_task (Mailbox.insert_task x Mailbox.empty)));
  }

  abbrev queued : Running
  queued = delivered y (delivered x inserted)

  -- Two workers are about to take a task.
  abbrev granted : Running
  granted = record queued { queue = TaskQueue.wait (TaskQueue.wait queued.queue) }

  abbrev both_begun : Running
  both_begun = begin_task (begin_task granted)

  pub inserted-Reach : (workers : ℕ) → Reach workers s (x ∷ y ∷ []) inserted
  unfolding boot Mailbox.empty Mailbox.insert_task Mailbox.signal_task
  inserted-Reach workers =
      let after = λ (b : Mailbox.Mailbox). record (boot s) { mailbox = b } in
      let b₁ = Mailbox.insert_task x Mailbox.empty in
      let b₂ = Mailbox.insert_task y (Mailbox.signal_task b₁) in
      acts {r = after b₂}
        (inserts {l = x ∷ []} {r = after (Mailbox.signal_task b₁)} y
          (acts {r = after b₁} (inserts {l = []} {r = boot s} x (boots refl refl) refl refl)
            (signals (omega arith) refl))
          refl refl)
        (signals (omega arith) refl)

  queued-Reach : (workers : ℕ) → Reach workers s (x ∷ y ∷ []) queued
  unfolding boot Mailbox.empty Mailbox.insert_task Mailbox.signal_task Mailbox.look
      Mailbox.erase_task erase dispatch delivered taken TaskQueue.empty TaskQueue.push_task
      TaskQueue.post
  queued-Reach workers =
      let l = x ∷ y ∷ [] in
      delivered-Reach workers s l (delivered x inserted) y [] (refl, refl) refl refl
        (delivered-Reach workers s l inserted x (y ∷ []) (refl, refl) refl refl
          (inserted-Reach workers))

  begun-Reach : (workers : ℕ) → 2 ≤ workers → Reach workers s (x ∷ y ∷ []) both_begun
  unfolding boot Mailbox.empty Mailbox.insert_task Mailbox.signal_task Mailbox.look
      Mailbox.erase_task erase dispatch delivered taken TaskQueue.empty TaskQueue.push_task
      TaskQueue.post TaskQueue.wait begin_task TaskQueue.take
  begun-Reach workers two =
      let w = TaskQueue.wait queued.queue in
      acts {r = begin_task granted}
        (acts {r = granted}
          (acts {r = record queued { queue = w }}
            (acts {r = queued} (queued-Reach workers) (waits (omega arith) (omega arith) refl))
            (waits (omega arith) (omega arith) refl))
          (begins (omega arith) refl))
        (begins (omega arith) refl)

  both_begun-shape :
      (both_begun.begun ≡ x ∷ y ∷ []) × (both_begun.handled ≡ []) × (both_begun.server ≡ s)
  unfolding boot Mailbox.empty Mailbox.insert_task Mailbox.signal_task Mailbox.look
      Mailbox.erase_task erase dispatch delivered taken TaskQueue.empty TaskQueue.push_task
      TaskQueue.post TaskQueue.wait begin_task TaskQueue.take
  both_begun-shape = (refl, refl, refl)

-- Two workers can handle two requests in the other order than their messages were inserted in,
-- whatever the requests are, if both handlers finish: the server is then what the later request and
-- after it the earlier one leave.
pub Reach-overtaken :
    (workers : ℕ) (s s₁ s₂ : Server) (x y : String) (a b : Around)
    → 2 ≤ workers
    → handle_msg b y s ≡ some s₁
    → handle_msg a x s₁ ≡ some s₂
    → (r : Running) × Reach workers s (x ∷ y ∷ []) r
      × (r.handled ≡ (b, y) ∷ (a, x) ∷ [])
      × (r.server ≡ s₂)
unfolding finish
Reach-overtaken workers s s₁ s₂ x y a b two e f =
    let (begun, handled, same) = both_begun-shape s x y in
    let r = both_begun s x y in
    let r₁ = finish b (x ∷ []) y [] s₁ r in
    let r₂ = finish a [] x [] s₂ r₁ in
    (
      r₂,
      acts {r = r₁}
          (acts {r = r} (begun-Reach s x y workers two)
            (finishes b (x ∷ []) y [] s₁ begun (rw same e) refl))
          (finishes a [] x [] s₂ refl f refl),
      rw handled refl,
      refl,
    )
