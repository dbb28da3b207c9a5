-- ===== src/TaskQueue/Drain.antt =====
-- The tasks that wait can always be handed out.
use mathlib.Core.List.{append_assoc, append-nil}
use rundo_dahua_sdk_edge.Common.{
  ℕ, suc, ◌+◌, ◌*◌, ◌≡◌, ◌≤◌, ◌<◌, refl, sym, ap, ◌∙◌, inl, inr, List, [], ◌∷◌, ◌++◌, length, ◌==◌,
  Bool-cases, arith,
}
use rundo_dahua_sdk_edge.TaskQueue.{Queue, post, wait, take, posts, waits, takes, Reach}
use rundo_dahua_sdk_edge.TaskQueue.Balance.{
  IsBalanced, Step-IsBalanced, Reach-IsBalanced, Reach-left,
}

-- `n` steps of producers that end their `push_task` and of workers: nothing is queued meanwhile.
pub data Work {A : Type 0} : ℕ → Queue A → Queue A → Type 0 where
  rests : {n : ℕ} {q r : Queue A} → n ≡ 0 → r ≡ q → Work n q r
  works_post :
      {m n : ℕ} {q r : Queue A} → n ≡ suc m → 0 < q.posting → Work m (post q) r → Work n q r
  works_wait : {m n : ℕ} {q r : Queue A} → n ≡ suc m → 0 < q.count → Work m (wait q) r → Work n q r
  works_take :
      {m n : ℕ} {q r : Queue A} → n ≡ suc m → 0 < q.granted → Work m (take q) r → Work n q r

-- A run that hands out every waiting task, in order, in at most `n` steps.
pub record Drained {A : Type 0} (n : ℕ) (q : Queue A) : Type 0 where
  pub steps : ℕ
  pub few : steps ≤ n
  pub final : Queue A
  pub work : Work steps q final
  pub none_waits : final.queue ≡ []
  pub handed : final.taken ≡ q.taken ++ q.queue

-- A queue in balance, in which no worker has left.
pub record Fair {A : Type 0} (q : Queue A) : Type 0 where
  pub balanced : IsBalanced q
  pub no_exits : q.exits ≡ 0
  pub none_left : q.left ≡ 0

take-Fair :
    {A : Type 0} (q : Queue A) (a : A) (rest : List A)
    → q.queue ≡ a ∷ rest
    → 0 < q.granted
    → Fair q
    → Fair (take q) × ((take q).queue ≡ rest) × ((take q).taken ++ rest ≡ q.taken ++ q.queue)
unfolding take
take-Fair q a rest e g f =
    let b = Step-IsBalanced q (take q) (takes g refl) f.balanced in
    (
      record {
        balanced = b;
        no_exits = rw (e, take) f.no_exits;
        none_left = rw (e, take) f.none_left;
      },
      rw (e, take) refl,
      rw (e, take) (append_assoc q.taken (a ∷ []) rest),
    )

module _ {A : Type 0} where
  wider : (m n : ℕ) (q : Queue A) → m ≤ n → Drained m q → Drained n q
  wider m n q h d = record {
    steps = d.steps;
    few = omega (arith, d.few);
    final = d.final;
    work = d.work;
    none_waits = d.none_waits;
    handed = d.handed;
  }

  post-Drained : (n : ℕ) (q : Queue A) → 0 < q.posting → Drained n (post q) → Drained (suc n) q
  unfolding post
  post-Drained n q h d = record {
    steps = suc d.steps;
    few = omega (arith, d.few);
    final = d.final;
    work = works_post refl h d.work;
    none_waits = d.none_waits;
    handed = d.handed;
  }

  wait-Drained : (n : ℕ) (q : Queue A) → 0 < q.count → Drained n (wait q) → Drained (suc n) q
  unfolding wait
  wait-Drained n q h d = record {
    steps = suc d.steps;
    few = omega (arith, d.few);
    final = d.final;
    work = works_wait refl h d.work;
    none_waits = d.none_waits;
    handed = d.handed;
  }

  take-Drained :
      (n : ℕ) (q : Queue A) (a : A) (rest : List A)
      → q.queue ≡ a ∷ rest
      → 0 < q.granted
      → Fair q
      → Drained n (take q)
      → Drained (suc n) q
  take-Drained n q a rest e h f d =
      let (fair, left, order) = take-Fair q a rest e h f in
      record {
        steps = suc d.steps;
        few = omega (arith, d.few);
        final = d.final;
        work = works_take refl h d.work;
        none_waits = d.none_waits;
        handed = d.handed ∙ ap (◌++◌ (take q).taken) left ∙ order;
      }

  wait-Fair : (q : Queue A) → 0 < q.count → Fair q → Fair (wait q)
  unfolding wait
  wait-Fair q h f = record {
    balanced = Step-IsBalanced q (wait q) (waits h refl) f.balanced;
    no_exits = f.no_exits;
    none_left = f.none_left;
  }

  post-Fair : (q : Queue A) → 0 < q.posting → Fair q → Fair (post q)
  unfolding post
  post-Fair q h f = record {
    balanced = Step-IsBalanced q (post q) (posts h refl) f.balanced;
    no_exits = f.no_exits;
    none_left = f.none_left;
  }

  -- By the tasks that wait: the first is granted already, or can be, or will be after a post.
  drain-Fair : (l : List A) (q : Queue A) → q.queue ≡ l → Fair q → Drained (3 * length l) q
  unfolding wait post
  drain-Fair [] q e f = record {
    steps = 0;
    few = omega arith;
    final = q;
    work = rests refl refl;
    none_waits = e;
    handed = sym (append-nil q.taken) ∙ ap (◌++◌ q.taken) (sym e);
  }
  drain-Fair (a ∷ rest) q e f =
      let serve : (r : Queue A)
          → r.queue ≡ a ∷ rest
          → 0 < r.granted
          → Fair r
          → Drained (3 * length rest + 1) r =
        λ r same h g.
          let (fair, left, order) = take-Fair r a rest same h g in
          wider _ _ r (omega arith)
            (take-Drained _ r a rest same h g (drain-Fair rest (take r) left fair)) in
      let grant : (r : Queue A)
          → r.queue ≡ a ∷ rest
          → 0 < r.count
          → Fair r
          → Drained (3 * length rest + 2) r =
        λ r same h g.
          wider _ _ r (omega arith)
            (wait-Drained _ r h (serve (wait r) same (omega arith) (wait-Fair r h g))) in
      elim (Bool-cases (q.granted == 0)) [
        | inr g ↦ wider _ _ q (omega arith) (serve q e (ground arith) f)
        | inl g ↦ elim (Bool-cases (q.count == 0)) [
          | inr c ↦ wider _ _ q (omega arith) (grant q e (ground arith) f)
          | inl c ↦
              let h : 0 < q.posting = ground (arith, f.balanced, f.none_left, e) in
              wider _ _ q (omega arith)
                (post-Drained _ q h (grant (post q) e (omega arith) (post-Fair q h f)))
        ]
      ]

-- From every state that an interleaving leads to before the workers are told to leave, the tasks that
-- wait can be handed out, all of them and in order, by at most three steps of the producers and the
-- workers for each task.
pub Reach-Drained :
    {A : Type 0} (q : Queue A) → Reach q → q.exits ≡ 0 → Drained (3 * length q.queue) q
Reach-Drained q reached x = drain-Fair q.queue q refl (record {
  balanced = Reach-IsBalanced q reached;
  no_exits = x;
  none_left = Reach-left q reached x;
})
