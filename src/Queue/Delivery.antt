-- ===== src/Queue/Delivery.antt =====
-- src/primihub/util/threadsafe_queue.h: what every schedule of threads over one queue keeps.
use primihub.Prelude.{
  ℕ, zero, suc, ◌≤◌, ◌<◌, ◌≡◌, refl, sym, ◌∙◌, ◌⊎◌, inl, inr, true, false, none, some, List, [],
  ◌∷◌, ◌++◌, append-nil, append_assoc, arith, Option-cases, length, length-append, All,
}
use primihub.Queue.{push, shutdown}
use primihub.Queue.Schedule.{
  Shared, Action, pushes, enters, runs, tries, stops, wakes, remove_at, notify_one, resume, act,
  run, pushed,
}

length-remove_at {ℓ} :
    {B : Type ℓ} (n : ℕ) (xs : List B) {x : B} {rest : List B}
    → remove_at n xs ≡ some (x, rest)
    → length xs ≡ suc (length rest)
unfolding remove_at
length-remove_at n [] h = cc
length-remove_at zero (x ∷ xs) h = ground arith
length-remove_at (suc n) (x ∷ xs) h = elim (Option-cases (remove_at n xs)) [
  | inl e ↦ ground (arith, e)
  | inr ((y, ys), e) ↦ ground (arith, length-remove_at n xs e)
]

remove_at-none {ℓ} : {B : Type ℓ} (n : ℕ) (xs : List B) → remove_at n xs ≡ none → xs ≡ []
unfolding remove_at
remove_at-none n [] h = refl
remove_at-none zero (x ∷ xs) h = cc
remove_at-none (suc n) (x ∷ xs) h = elim (Option-cases (remove_at n xs)) [
  | inl e ↦ ground (arith, e)
  | inr ((y, ys), e) ↦ ground (arith, e)
]

module _ {ℓ} {A : Type ℓ} where
  -- All values of the queue's life: those handed out, then those that wait.
  abbrev pub flow : Shared A → List A
  flow s = s.taken ++ s.queue.items

  notify_one-flow : (n : ℕ) (s : Shared A) → flow (notify_one n s) ≡ flow s
  unfolding notify_one
  notify_one-flow n s = ground arith

  resume-flow : (t : ℕ) (rest : List ℕ) (s : Shared A) → flow (resume t rest s) ≡ flow s
  unfolding resume
  resume-flow t rest s = grind (arith, append_assoc)

  try-flow : (s : Shared A) → flow (act tries s) ≡ flow s
  unfolding act
  try-flow s = grind (arith, append_assoc)

  -- One action hands values out in the order in which they were pushed.
  act-flow : (c : Action A) (s : Shared A) → flow (act c s) ≡ flow s ++ pushed (c ∷ [])
  unfolding pushed act
  act-flow (pushes a n) s =
      notify_one-flow n (record s { queue = push a s.queue })
      ∙ sym (append_assoc s.taken s.queue.items (a ∷ []))
  act-flow (enters t) s = sym (append-nil (flow s))
  act-flow (runs n) s = elim (Option-cases (remove_at n s.awake)) [
    | inl e ↦ rw (e, act) (sym (append-nil (flow s)))
    | inr ((t, rest), e) ↦ rw (e, act) (resume-flow t rest s ∙ sym (append-nil (flow s)))
  ]
  act-flow tries s = try-flow s ∙ sym (append-nil (flow s))
  act-flow (stops n) s =
      notify_one-flow n (record s { queue = shutdown s.queue }) ∙ sym (append-nil (flow s))
  act-flow (wakes n) s = notify_one-flow n s ∙ sym (append-nil (flow s))

  pushed-cons :
      (c : Action A) (cs : List (Action A)) → pushed (c ∷ cs) ≡ pushed (c ∷ []) ++ pushed cs
  unfolding pushed
  pushed-cons (pushes a n) cs = refl
  pushed-cons _ cs = refl

  -- Over any schedule of any threads, the values handed out followed by the values that still wait
  -- are those handed out and waiting before followed by those pushed meanwhile, in order: none is
  -- lost, doubled or overtaken, also across `shutdown`.
  pub flow-run : (cs : List (Action A)) (s : Shared A) → flow (run cs s) ≡ flow s ++ pushed cs
  unfolding run pushed
  flow-run [] s = sym (append-nil (flow s))
  flow-run (c ∷ cs) s =
      rw (pushed-cons c cs, flow-run cs (act c s), act-flow c s)
        (append_assoc (flow s) (pushed (c ∷ [])) (pushed cs))

  -- Every waiting value has a thread that is about to look for it.
  abbrev pub IsServed : Shared A → Type 0
  IsServed s = (s.asleep ≡ []) ⊎ (length s.queue.items ≤ length s.awake)

  notify_one-stop : (n : ℕ) (s : Shared A) → (notify_one n s).queue ≡ s.queue
  unfolding notify_one
  notify_one-stop n s = ground arith

  act-stop : (c : Action A) (s : Shared A) → (act c s).queue.stop ≡ false → s.queue.stop ≡ false
  unfolding act
  act-stop (pushes a n) s h = ground arith
  act-stop _ s h = ground arith

  run-stop :
      (cs : List (Action A)) (s : Shared A) → (run cs s).queue.stop ≡ false → s.queue.stop ≡ false
  unfolding run
  run-stop [] s h = h
  run-stop (c ∷ cs) s h = act-stop c s (run-stop cs (act c s) h)

  push-IsServed : (a : A) (n : ℕ) (s : Shared A) → IsServed s → IsServed (act (pushes a n) s)
  unfolding act
  push-IsServed a n s v =
      ground (arith, length-append s.queue.items (a ∷ []), remove_at-none n s.asleep, v)

  runs-IsServed :
      (n : ℕ) (s : Shared A) → s.queue.stop ≡ false → IsServed s → IsServed (act (runs n) s)
  unfolding act
  runs-IsServed n s h v = elim (Option-cases (remove_at n s.awake)) [
    | inl e ↦ rw (e, act) v
    | inr ((t, rest), e) ↦ ground (arith, e, length-remove_at n s.awake e)
  ]

  act-IsServed :
      (c : Action A) (s : Shared A) → (act c s).queue.stop ≡ false → IsServed s → IsServed (act c s)
  act-IsServed (pushes a n) s h v = push-IsServed a n s v
  act-IsServed (enters t) s h v = unfold act in ground arith
  act-IsServed (runs n) s h v = runs-IsServed n s (act-stop (runs n) s h) v
  act-IsServed tries s h v = unfold act in ground arith
  act-IsServed (stops n) s h v = unfold act in ground arith
  act-IsServed (wakes n) s h v = unfold act in ground arith

  -- No wake-up is lost while the queue is open: from a state in which nobody sleeps, or there are at
  -- least as many threads about to run as values, every schedule leads to such a state.
  pub run-IsServed :
      (cs : List (Action A)) (s : Shared A)
      → (run cs s).queue.stop ≡ false
      → IsServed s
      → IsServed (run cs s)
  unfolding run
  run-IsServed [] s h v = v
  run-IsServed (c ∷ cs) s h v =
      run-IsServed cs (act c s) h (act-IsServed c s (run-stop cs (act c s) h) v)

  -- Actions after which no sleeper wakes up.
  abbrev pub IsQuiet : Action A → Type 0
  IsQuiet (pushes a n) = ⊥
  IsQuiet (stops n) = ⊥
  IsQuiet (wakes n) = ⊥
  IsQuiet _ = Unit

  -- The queue is shut down and at least `k` threads sleep on it.
  abbrev Stranded : ℕ → Shared A → Type 0
  Stranded k s = (s.queue.stop ≡ true) × (k ≤ length s.asleep)

  act-Stranded :
      (k : ℕ) (c : Action A) (s : Shared A) → IsQuiet c → Stranded k s → Stranded k (act c s)
  unfolding act
  act-Stranded k (pushes a n) s q v = absurd q
  act-Stranded k (stops n) s q v = absurd q
  act-Stranded k (wakes n) s q v = absurd q
  act-Stranded k (enters t) s q v = ground arith
  act-Stranded k (runs n) s q v = ground arith
  act-Stranded k tries s q v = ground arith

  run-Stranded :
      (k : ℕ) (cs : List (Action A)) (s : Shared A)
      → All IsQuiet cs
      → Stranded k s
      → Stranded k (run cs s)
  unfolding run
  run-Stranded k [] s q v = v
  run-Stranded k (c ∷ cs) s q v = run-Stranded k cs (act c s) q.1 (act-Stranded k c s q.0 v)

  stop-Stranded : (n k : ℕ) (s : Shared A) → suc k ≤ length s.asleep → Stranded k (act (stops n) s)
  unfolding act
  stop-Stranded n k s h = elim (Option-cases (remove_at n s.asleep)) [
    | inl e ↦ ground (arith, remove_at-none n s.asleep e)
    | inr ((t, rest), e) ↦ ground (arith, e, length-remove_at n s.asleep e)
  ]

  -- One `shutdown` wakes one sleeper: where more than `k` threads sleep, the queue is shut down
  -- afterwards, but at least `k` of them still sleep, however long the threads that are not asleep
  -- go on, until somebody pushes or shuts down once more, or a sleeper wakes up without a notification.
  pub shutdown_strands :
      (n k : ℕ) (cs : List (Action A)) (s : Shared A)
      → k < length s.asleep
      → All IsQuiet cs
      → let t = run cs (act (stops n) s) in (t.queue.stop ≡ true) × (k ≤ length t.asleep)
  shutdown_strands n k cs s h q = run-Stranded k cs (act (stops n) s) q (stop-Stranded n k s h)
