-- ===== src/TaskQueue/Refine.antt =====
-- src/dc_thread_pool: what a queue of tasks promises, whatever its threads do in between: a list of
-- tasks that grows at either end and is handed out from the front.
use rundo_dahua_sdk_edge.Common.{List-cases, ◌≡◌, refl, ap, inl, inr, List, [], ◌∷◌, ◌++◌}
use rundo_dahua_sdk_edge.TaskQueue.{
  Queue, empty, push_task, push_task_first, post, push_exit, wait, take, Step, pushes, pushes_first,
  posts, pushes_exit, waits, takes, Reach, start, next,
}

-- The tasks that wait, and those that were handed out.
pub record Deque (A : Type 0) : Type 0 where
  pub waiting : List A
  pub handed : List A

-- What may happen to them.
pub data Change {A : Type 0} (d e : Deque A) : Type 0 where
  unchanged : e ≡ d → Change d e
  joins : (a : A) → e ≡ record d { waiting = d.waiting ++ a ∷ [] } → Change d e
  overtakes : (a : A) → e ≡ record d { waiting = a ∷ d.waiting } → Change d e
  serves : (a : A) → d.waiting ≡ a ∷ e.waiting → e.handed ≡ d.handed ++ a ∷ [] → Change d e

-- The histories of changes from the empty list.
pub data History {A : Type 0} : Deque A → Type 0 where
  begins : {d : Deque A} → d ≡ record { waiting = []; handed = [] } → History d
  changes : {d e : Deque A} → History d → Change d e → History e

abbrev pub view : {A : Type 0} → Queue A → Deque A
view q = record { waiting = q.queue; handed = q.taken }

take-Change : {A : Type 0} (q : Queue A) → Change (view q) (view (take q))
unfolding take
take-Change q = elim (List-cases q.queue) [
  | inl e ↦ unchanged (rw (e, take) (ap (λ w. record { waiting = w; handed = q.taken }) e))
  | inr (a, rest, e) ↦ serves a (rw (e, take) refl) (rw (e, take) refl)
]

-- Each atomic part of each operation makes one change to the list of tasks or none.
pub Step-Change : {A : Type 0} (q r : Queue A) → Step q r → Change (view q) (view r)
unfolding push_task push_task_first post push_exit wait
Step-Change q r (pushes a e) = joins a (ap view e)
Step-Change q r (pushes_first a e) = overtakes a (ap view e)
Step-Change q r (posts h e) = unchanged (ap view e)
Step-Change q r (pushes_exit n e) = unchanged (ap view e)
Step-Change q r (waits h e) = unchanged (ap view e)
Step-Change q r (takes h e) = rw e (take-Change q)

-- Every state that an interleaving of producers and workers leads to is one that a list of tasks gets
-- into which grows at either end and is handed out from the front, one task at a time.
pub Reach-History : {A : Type 0} (q : Queue A) → Reach q → History (view q)
unfolding empty
Reach-History q (start e) = begins (ap view e)
Reach-History r (next {q = q} reached s) = changes (Reach-History q reached) (Step-Change q r s)
