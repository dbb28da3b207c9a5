-- ===== src/Server/Running/Served.antt =====
-- What lies ahead of the messages that were inserted.
use mathlib.Core.List.{
  append-nil, Mem, Perm, mem-append_left, mem-append_right, mem-cons, mem-cons_self, not-mem-nil,
}
use mathlib.Core.List.Perm
use mathlib.Core.Logic.Or
use mathlib.Core.Path.{subst}
use native.Mathlib.Decide.{dec_lt}
use rundo_dahua_sdk_edge.Common.{
  All, sym, ◌++◌, List-cases, ℕ, zero, suc, ◌+◌, ◌≡◌, ◌≢◌, ◌≤◌, ◌<◌, refl, ap, ◌⊎◌, inl, inr, List,
  [], ◌∷◌, String, none, some, length, length-append, Option-cases, arith,
}
use rundo_dahua_sdk_edge.Mailbox
use rundo_dahua_sdk_edge.Mailbox.{Phase, looking, waiting, locking}
use rundo_dahua_sdk_edge.Mailbox.Delivery as Delivery
use rundo_dahua_sdk_edge.TaskQueue
use rundo_dahua_sdk_edge.TaskQueue.Balance.{Reach-IsBalanced, Reach-left}
use rundo_dahua_sdk_edge.Server.{Server, Around}
use rundo_dahua_sdk_edge.Server.Dispatch.{handle_msg}
use rundo_dahua_sdk_edge.Server.Running.{
  Running, erase, dispatch, begin_task, finish, busy, Step, Ahead, stays, goes, Reach, acts,
  signals, looks, wakes, erases, dispatches, posts, waits, begins, finishes,
}
use rundo_dahua_sdk_edge.Server.Running.Parts.{in_hand, erase-queue, erase-mailbox, Reach-Parts}
use rundo_dahua_sdk_edge.Server.Running.Once.{messages, places, erase-handled, Reach-Perm}
use rundo_dahua_sdk_edge.Server.Running.Cost.{
  Reach-IsQueue, distance, left_to_do, IsServed, nil_of_length, Phase-cases, look-cost,
  erase_task-cost, erase-held,
}

-- Whatever the state of the server, the handler of the message finishes.
abbrev pub Finishes : Around → String → Type 0
Finishes a msg = (t : Server) → handle_msg a msg t ≢ none

Finishes-prop : (a : Around) (msg : String) → IsProp (Finishes a msg)
Finishes-prop a msg = (hlevel)

All-Mem :
    {A : Type 0} {P : A → Type 0}
    → ((x : A) → IsProp (P x))
    → (l : List A) {a : A} → All P l
    → Mem a l
    → P a
All-Mem q [] h m = absurd (not-mem-nil m)
All-Mem {P = P} q (x ∷ xs) {a} h m =
    Or.elim (q a) (mem-cons.0 m) (λ e. subst P (sym e) h.0) (All-Mem q xs h.1)

module _ (workers : ℕ) (s : Server) (l : List String) (r : Running) (h : Reach workers s l r) where
  -- A step that no message needs to come for.
  abbrev Moves : Type 0
  Moves = (q : Running) × Step workers r q × (left_to_do q < left_to_do r)

  pool-Moves :
      (spare : 0 < workers)
      → (0 < r.queue.posting + r.queue.count)
      → r.begun ≡ []
      → r.queue.granted ≡ 0
      → Moves
  unfolding TaskQueue.post TaskQueue.wait
  pool-Moves spare some_post idle none_granted =
      let v = Reach-IsQueue workers s l r h in
      let stay = Reach-left r.queue v.reached v.staying in
      elim (dec_lt 0 r.queue.posting) [
        | yes pos ↦ (record r { queue = TaskQueue.post r.queue }, posts pos refl, omega arith)
        | no done ↦
            let free : busy r < workers = rw idle (omega arith) in
            (
              record r { queue = TaskQueue.wait r.queue },
              waits (omega arith) free refl,
              omega arith,
            )
      ]

  begin-Moves : 0 < r.queue.granted → Moves
  unfolding begin_task TaskQueue.take
  begin-Moves pos =
      let v = Reach-IsQueue workers s l r h in
      let stay = Reach-left r.queue v.reached v.staying in
      let balance = Reach-IsBalanced r.queue v.reached in
      elim (List-cases r.queue.queue) [
        | inl e ↦ absurd (omega (arith, ap (length {A = String}) e, v.staying))
        | inr (msg, rest, e) ↦ (
          begin_task r,
          begins pos refl,
          rw (e, begin_task)
              (rw (e, TaskQueue.take)
                (omega (arith, length-append r.begun (msg ∷ []), ap (length {A = String}) e))),
        )
      ]

  finish-Moves :
      (a : Around) (msg : String) (rest : List String) (s' : Server)
      → r.begun ≡ msg ∷ rest
      → handle_msg a msg r.server ≡ some s'
      → Moves
  unfolding finish
  finish-Moves a msg rest s' e f = (
    finish a [] msg rest s' r,
    finishes a [] msg rest s' e f refl,
    omega (arith, ap (length {A = String}) e),
  )

  dispatch-Moves : (msg : String) → r.held ≡ some msg → Moves
  unfolding dispatch TaskQueue.push_task
  dispatch-Moves msg e = (
    dispatch msg r,
    dispatches msg e refl,
    rw e (omega (arith, length-append r.queue.queue (msg ∷ []))),
  )

  erase-cost :
      (msg : String) (rest : List String)
      → r.held ≡ none
      → r.mailbox.msg_list ≡ msg ∷ rest
      → r.mailbox.phase ≡ locking
      → left_to_do (erase r) < left_to_do r
  erase-cost msg rest hand e locks =
      let (shorter, far, same) = erase_task-cost r.mailbox msg rest e in
      rw (erase-mailbox r, erase-queue r, (erase-handled r).1)
        (omega (arith, shorter, far, same, erase-held r msg rest e))

  list-Moves :
      (msg : String) (rest : List String)
      → r.held ≡ none
      → r.queue.posting ≡ 0
      → r.mailbox.msg_list ≡ msg ∷ rest
      → Moves
  unfolding Mailbox.wake Mailbox.signal_task
  list-Moves msg rest hand posted e = elim (Phase-cases r.mailbox.phase) [
    | inl looks_now ↦ (
      record r { mailbox = Mailbox.look r.mailbox },
      looks (hand, posted) looks_now refl,
      omega (
        arith,
        ap distance looks_now,
        ap (length {A = String}) (look-cost r.mailbox msg rest e).0,
        (look-cost r.mailbox msg rest e).1,
        (look-cost r.mailbox msg rest e).2,
      ),
    )
    | inr (inr locks) ↦
        (erase r, erases (hand, posted) locks refl, erase-cost msg rest hand e locks)
    | inr (inl waits_now) ↦
        let full : r.mailbox.msg_list ≢ [] = λ n. cc in
        let p = Reach-Parts workers s l r h in
        let roused = Delivery.Reach-roused l r.mailbox p.mail waits_now full in
        elim (dec_lt 0 r.mailbox.count) [
          | yes pos ↦ (
            record r { mailbox = Mailbox.wake r.mailbox },
            wakes waits_now pos refl,
            omega (arith, ap distance waits_now),
          )
          | no c ↦ (
            record r { mailbox = Mailbox.signal_task r.mailbox },
            signals (omega arith) refl,
            omega arith,
          )
        ]
  ]

  -- A task that was begun is one of the messages that were inserted.
  begun-Finishes :
      (a : Around) (msg : String) (rest : List String)
      → r.begun ≡ msg ∷ rest
      → All (Finishes a) l
      → Finishes a msg
  begun-Finishes a msg rest e all =
      let done_or_begun : Mem msg (messages r.handled ++ r.begun) =
        rw e (mem-append_right (messages r.handled) mem-cons_self) in
      let placed : Mem msg (places r) =
        mem-append_left r.mailbox.msg_list
          (mem-append_left (in_hand r) (mem-append_left r.queue.queue done_or_begun)) in
      All-Mem (Finishes-prop a) l all ((Perm.mem_iff (Reach-Perm workers s l r h)).0 placed)

  -- Unless everything is served, a step leads on, if the handlers finish.
  progress : (a : Around) → All (Finishes a) l → 0 < workers → IsServed r ⊎ Moves
  progress a finishing spare = elim (List-cases r.begun) [
    | inr (msg, rest, e) ↦ (elim (Option-cases (handle_msg a msg r.server)) [
      | inl stuck ↦ absurd (begun-Finishes a msg rest e finishing r.server stuck)
      | inr (t', done) ↦ inr (finish-Moves a msg rest t' e done)
    ])
    | inl idle ↦ elim (dec_lt 0 r.queue.granted) [
      | yes pos ↦ inr (begin-Moves pos)
      | no none_granted ↦ elim (dec_lt 0 (r.queue.posting + r.queue.count)) [
        | yes some_post ↦ inr (pool-Moves spare some_post idle (omega arith))
        | no quiet ↦ elim (Option-cases r.held) [
          | inr (msg, e) ↦ inr (dispatch-Moves msg e)
          | inl hand ↦ elim (List-cases r.mailbox.msg_list) [
            | inr (msg, rest, e) ↦ inr (list-Moves msg rest hand (omega arith) e)
            | inl list ↦
                let v = Reach-IsQueue workers s l r h in
                let balance = Reach-IsBalanced r.queue v.reached in
                let stay = Reach-left r.queue v.reached v.staying in
                let short : length r.queue.queue ≡ 0 = omega (arith, v.staying) in
                inl (record {
                  begun = idle;
                  queue = nil_of_length r.queue.queue short;
                  hand = hand;
                  list = list;
                })
          ]
        ]
      ]
    ]
  ]

IsServed-places : (r : Running) → IsServed r → places r ≡ messages r.handled
IsServed-places r v = rw (v.begun, v.queue, v.hand, v.list) (simp append-nil)

module _ (workers : ℕ) (s : Server) (l : List String) (a : Around) (finishing : All (Finishes a) l)
    (spare : 0 < workers) where
  serve :
      (n : ℕ) (r p : Running)
      → left_to_do p ≤ n
      → Reach workers s l p
      → Ahead workers r p
      → (q : Running) × Ahead workers r q × Reach workers s l q × IsServed q
  serve zero r p few h g = elim (progress workers s l p h a finishing spare) [
    | inl done ↦ (p, g, h, done)
    | inr (q, st, less) ↦ absurd (omega arith)
  ]
  serve (suc n) r p few h g = elim (progress workers s l p h a finishing spare) [
    | inl done ↦ (p, g, h, done)
    | inr (q, st, less) ↦ serve n r q (omega arith) (acts h st) (goes g st)
  ]

  -- If the handlers of the messages that were inserted finish, then from every state that an
  -- interleaving leads to a pool with a worker can go on, with no further message, to a state in which
  -- every message that was inserted has been handled, as often as it was inserted. (A handler is one
  -- step here: what handlers wait for among themselves is not part of this.)
  pub Reach-Ahead :
      (r : Running)
      → Reach workers s l r
      → (q : Running) × Ahead workers r q × Perm (messages q.handled) l
  Reach-Ahead r h =
      let (q, g, k, done) = serve (left_to_do r) r r (omega arith) h (stays refl) in
      (q, g, rw (IsServed-places q done) at (Reach-Perm workers s l q k))
