-- ===== src/Pthread/Progress.antt =====
-- A thread that is as urgent as the one that runs gets its turn.
use xmertl.Base.{ℕ, zero, suc, ◌<◌, ◌≡◌, ◌∙◌, sym, ap, refl, true, arith}
use xmertl.Base.{some, List, [], ◌∷◌, ◌++◌, bit_and, length}
use mathlib.Core.Option.{some-injective}
use mathlib.Core.Path.{subst}
use mathlib.Core.List.{append_assoc}
use xmertl.Pthread.{Scheduler, get_head_ss, head, prio2ij, outside_irqs, pthread_yield_sys}
use xmertl.Pthread.Lists.{mem}
use xmertl.Pthread.Valid.{is_ready, is_at, IsValid, prio2ij-lt}
use xmertl.Pthread.Choice.{get_head_ss-le}
use xmertl.Pthread.Rotation.{IsTurn, is_at-some, pthread_yield_sys-IsTurn}

-- The calls of yield by whichever thread runs, at the times of a clock.
pub yields : (ℕ → ℕ × ℕ) → ℕ → Scheduler → Scheduler
yields clock zero s = s
yields clock (suc n) s =
    let (before, after) = clock n in yields clock n (pthread_yield_sys before after s)

yields-IsTurn :
    (clock : ℕ → ℕ × ℕ) (i j t : ℕ) (xs ys : List ℕ) (s : Scheduler)
    → IsTurn i j (xs ++ (t ∷ ys)) s
    → (yields clock (length xs) s).current_thread ≡ t
unfolding yields
yields-IsTurn clock i j t [] ys s k = ground (arith, k.current)
yields-IsTurn clock i j t (c ∷ xs) ys s k =
    let (before, after) = clock (length xs) in
    let k' = pthread_yield_sys-IsTurn before after i j c (xs ++ (t ∷ ys)) s k in
    yields-IsTurn clock i j t xs (ys ++ (c ∷ [])) (pthread_yield_sys before after s) (
      subst (λ l. IsTurn i j l (pthread_yield_sys before after s))
        (append_assoc xs (t ∷ ys) (c ∷ [])) k')

-- The list of the threads that are as urgent as the one that runs.
abbrev pub equals : Scheduler → List ℕ
equals s =
    let (i, j) = prio2ij (s.threads s.current_thread).sched_priority in
    s.active_threads.thread_matrix i j

mem-middle : (t : ℕ) (xs ys : List ℕ) → mem t (xs ++ (t ∷ ys)) ≡ true
unfolding mem
mem-middle t [] ys = ground arith
mem-middle t (x ∷ xs) ys = ground (arith, mem-middle t xs ys)

cell : (f : ℕ → ℕ → List ℕ) (b i c j : ℕ) → b ≡ i → c ≡ j → head (f i j) ≡ head (f b c)
cell f b i c j p q = rw (p, q) refl

-- A thread stands in one list, inside the matrix.
mem-inside :
    (s : Scheduler) (x d f : ℕ)
    → IsValid s
    → mem x (s.active_threads.thread_matrix d f) ≡ true
    → (d < 32) × (f < 32)
mem-inside s x d f v m =
    v.inside x d f (is_at-some ((s.threads x).ss) d f (ground (arith, v.links x d f, m)))

running-IsTurn :
    (s : Scheduler) (t : ℕ)
    → IsValid s
    → bit_and s.irq_nesting_counter outside_irqs ≡ 0
    → get_head_ss s.active_threads ≡ some s.current_thread
    → mem t (equals s) ≡ true
    → IsTurn
        (prio2ij (s.threads s.current_thread).sched_priority).0
        (prio2ij (s.threads s.current_thread).sched_priority).1
        (equals s)
        s
running-IsTurn s t v outside top there =
    let a = s.active_threads in
    let (i, j) = prio2ij (s.threads s.current_thread).sched_priority in
    let (hi, hj) = prio2ij-lt (s.threads s.current_thread).sched_priority in
    let (u, b, c, e, eh, m, hc, le) = get_head_ss-le a v.bitmaps i j t hi hj there in
    let same : u ≡ s.current_thread = some-injective _ _ (sym e ∙ top) in
    let here : mem s.current_thread (a.thread_matrix b c) ≡ true = rw (sym same) m in
    let ready : is_ready s.current_thread s ≡ true =
      ground (arith, v.links s.current_thread b c, here) in
    let place : is_at (some (i, j)) b c ≡ true =
      ground (arith, v.links s.current_thread b c, here, v.placed s.current_thread ready) in
    let same_b : b ≡ i = ground (arith, place) in
    let same_c : c ≡ j = ground (arith, place) in
    record {
      valid = v;
      outside = outside;
      here = refl;
      below = (hi, hj);
      first = λ d f x m'.
          let (hd, hf) = mem-inside s x d f v m' in
          let (u', b', c', e', eh', m'', hc', le') = get_head_ss-le a v.bitmaps d f x hd hf m' in
          let same' : u' ≡ s.current_thread = some-injective _ _ (sym e' ∙ top) in
          let there' : mem s.current_thread (a.thread_matrix b' c') ≡ true = rw (sym same') m'' in
          ground
            (arith, v.links s.current_thread b' c', there', v.placed s.current_thread ready, le');
      current = cell a.thread_matrix b i c j same_b same_c ∙ eh ∙ ap some same;
    }

-- With valid lists, outside interrupts and with the head of the lists running, a thread that stands
-- behind `length xs` others in the list of the running thread runs after as many yields.
pub yields-current_thread :
    (clock : ℕ → ℕ × ℕ) (t : ℕ) (xs ys : List ℕ) (s : Scheduler)
    → IsValid s
    → bit_and s.irq_nesting_counter outside_irqs ≡ 0
    → get_head_ss s.active_threads ≡ some s.current_thread
    → equals s ≡ (xs ++ (t ∷ ys))
    → (yields clock (length xs) s).current_thread ≡ t
yields-current_thread clock t xs ys s v outside top e =
    let (i, j) = prio2ij (s.threads s.current_thread).sched_priority in
    yields-IsTurn clock i j t xs ys s
      (subst (λ l. IsTurn i j l s) e (running-IsTurn s t v outside top (rw e (mem-middle t xs ys))))
