-- ===== src/Pthread/Choice.antt =====
-- The thread that the two bitmaps lead to is the most urgent of those that are ready.
use xmertl.Base.{
  ℕ, ◌+◌, ◌*◌, ◌/◌, ◌%◌, ◌^◌, ◌≤◌, ◌<◌, ◌≡◌, ◌∙◌, refl, true, false, not, inl, inr, arith,
}
use xmertl.Base.{none, some, List, [], ◌∷◌, ◌==◌, Bool-cases, Option-cases, bit_and}
use xmertl.Bitmap.{ffs, ffs_lem, is_bit_set, one_of_is_bit_set, is_bit_set_lem}
use xmertl.Pthread.{ActiveThreads, Scheduler, get_head_ss, head, is_empty, scheduling, outside_irqs}
use xmertl.Pthread.Lists.{mem}
use xmertl.Pthread.Bitmaps.{IsBitmapped, some_bit}
use xmertl.Pthread.Valid.{is_ready, is_at, IsValid, prio2ij_lem}
use xmertl.Pthread.Reprice.{same_state}
use xmertl.Pthread.Turns.{head_or_idle, scheduling-IsSame}

ffs-some :
    (x : ℕ)
    → x < 2 ^ 32
    → (x == 0) ≡ false
    → (p : ℕ) × (ffs x ≡ some p) × (p < 32) × (is_bit_set x p ≡ true)
ffs-some x h nonzero =
    let found = ffs_lem x h in
    elim (Option-cases (ffs x)) [
      | inl e ↦ absurd (ground (arith, found.1.0 e, nonzero))
      | inr (p, e) ↦
          let (below, set, first) = found.0 p e in
          (p, e, below, ground (arith, is_bit_set_lem x p, set))
    ]

ffs-le : (x p b : ℕ) → x < 2 ^ 32 → ffs x ≡ some p → is_bit_set x b ≡ true → p ≤ b
ffs-le x p b h e set =
    let (below, found, first) = (ffs_lem x h).0 p e in
    ground (arith, first b, one_of_is_bit_set x b set)

mem-is_empty : (u : ℕ) (list : List ℕ) → mem u list ≡ true → is_empty list ≡ false
unfolding mem
mem-is_empty u [] e = absurd (ground arith)
mem-is_empty u (v ∷ list) e = refl

head-mem :
    (list : List ℕ) → is_empty list ≡ false → (t : ℕ) × (head list ≡ some t) × (mem t list ≡ true)
unfolding mem
head-mem [] e = absurd (ground arith)
head-mem (t ∷ list) e = (t, refl, ground arith)

head-is_empty : (list : List ℕ) → is_empty list ≡ true → head list ≡ none
head-is_empty [] e = refl
head-is_empty (t ∷ list) e = absurd (ground arith)

module _ (a : ActiveThreads) (v : IsBitmapped a) where
  occupied :
      (i j u : ℕ)
      → i < 32
      → j < 32
      → mem u (a.thread_matrix i j) ≡ true
      → (is_bit_set (a.slbitmap i) j ≡ true) × (is_bit_set a.flbitmap i ≡ true)
  occupied i j u hi hj there =
      let second : is_bit_set (a.slbitmap i) j ≡ true =
        ground (arith, v.second i j hi hj, mem-is_empty u (a.thread_matrix i j) there) in
      (second, ground (arith, v.first i hi, some_bit (a.slbitmap i) j second))

  ffs-order :
      (b c i j : ℕ)
      → b ≤ i
      → c < 32
      → ffs (a.slbitmap b) ≡ some c
      → is_bit_set (a.slbitmap i) j ≡ true
      → 32 * b + c ≤ 32 * i + j
  ffs-order b c i j h hc e set = elim (Bool-cases (b == i)) [
    | inr apart ↦ ground (arith, h, hc, apart)
    | inl same ↦
        let equal : b ≡ i = ground (arith, same) in
        let within : c ≤ j = ffs-le (a.slbitmap b) c j (v.words b) e (rw equal set) in
        omega (arith, equal, within)
  ]

  -- The head stands in a list no later than any list with a thread in it.
  pub get_head_ss-le :
      (i j u : ℕ)
      → i < 32
      → j < 32
      → mem u (a.thread_matrix i j) ≡ true
      → (t : ℕ) × (b : ℕ) × (c : ℕ) × (get_head_ss a ≡ some t)
        × (head (a.thread_matrix b c) ≡ some t)
        × (mem t (a.thread_matrix b c) ≡ true)
        × (c < 32)
        × (32 * b + c ≤ 32 * i + j)
  unfolding get_head_ss
  get_head_ss-le i j u hi hj there =
      let (second, first) = occupied i j u hi hj there in
      let (b, eb, hb, set_b) = ffs-some a.flbitmap v.word (some_bit a.flbitmap i first) in
      let (c, ec, hc, set_c) =
        ffs-some (a.slbitmap b) (v.words b) (ground (arith, v.first b hb, set_b)) in
      let (t, et, mt) =
        head-mem (a.thread_matrix b c) (ground (arith, v.second b c hb hc, set_c)) in
      (
        t,
        b,
        c,
        rw (get_head_ss, eb, ec) et,
        et,
        mt,
        hc,
        ffs-order b c i j (ffs-le a.flbitmap b i v.word eb first) hc ec second,
      )

-- The place of a thread in the order of the lists.
abbrev pub urgency : ℕ → Scheduler → ℕ
urgency t s = (s.threads t).sched_priority % 1024

place_of_ready :
    (s : Scheduler) (u i j : ℕ)
    → IsValid s
    → mem u (s.active_threads.thread_matrix i j) ≡ true
    → (is_ready u s ≡ true) × (32 * i + j ≡ urgency u s)
place_of_ready s u i j v there =
    let ready : is_ready u s ≡ true = ground (arith, v.links u i j, there) in
    let at_ij : is_at
          (some ((s.threads u).sched_priority % 1024 / 32, (s.threads u).sched_priority % 32)) i j
        ≡ true =
      ground
        (arith, v.links u i j, v.placed u ready, prio2ij_lem (s.threads u).sched_priority, there) in
    (ready, ground (arith, at_ij))

pub ready_place :
    (s : Scheduler) (u : ℕ)
    → IsValid s
    → is_ready u s ≡ true
    → mem u (s.active_threads.thread_matrix (urgency u s / 32) ((s.threads u).sched_priority % 32))
      ≡ true
ready_place s u v ready = ground (
  arith,
  v.links u (urgency u s / 32) ((s.threads u).sched_priority % 32),
  v.placed u ready,
  prio2ij_lem (s.threads u).sched_priority,
  ready,
)

-- With a thread ready, the head is a ready thread, and no ready one is more urgent.
pub get_head_ss_lem :
    (s : Scheduler) (u : ℕ)
    → IsValid s
    → is_ready u s ≡ true
    → (t : ℕ) × (get_head_ss s.active_threads ≡ some t)
      × (is_ready t s ≡ true)
      × (urgency t s ≤ urgency u s)
get_head_ss_lem s u v ready =
    let p = (s.threads u).sched_priority in
    let (t, b, c, e, first, there, hc, le) =
      get_head_ss-le s.active_threads v.bitmaps (p % 1024 / 32) (p % 32) u (omega arith)
        (omega arith) (ready_place s u v ready) in
    let (on, place) = place_of_ready s t b c v there in (t, e, on, omega (arith, place, le))

-- With no thread ready there is no head.
pub get_head_ss-none :
    (s : Scheduler)
    → IsValid s
    → ((u : ℕ) → is_ready u s ≡ false)
    → get_head_ss s.active_threads ≡ none
unfolding get_head_ss
get_head_ss-none s v idle =
    let a = s.active_threads in
    elim (Option-cases (ffs a.flbitmap)) [
      | inl e ↦ rw (get_head_ss, e) refl
      | inr (i, ei) ↦ elim (Option-cases (ffs (a.slbitmap i))) [
        | inl e ↦ rw (get_head_ss, ei, e) refl
        | inr (j, ej) ↦
            rw (get_head_ss, ei, ej)
              (elim (Bool-cases (is_empty (a.thread_matrix i j))) [
                | inl empty ↦ head-is_empty (a.thread_matrix i j) empty
                | inr more ↦
                    let (t, et, mt) = head-mem (a.thread_matrix i j) more in
                    absurd (ground (arith, place_of_ready s t i j v mt, idle t))
              ])
      ]
    ]

-- Outside interrupts, a schedule runs the head of the lists, else the idle thread, and clears what
-- was pending.
pub scheduling-current :
    (before after : ℕ) (s : Scheduler)
    → bit_and s.irq_nesting_counter outside_irqs ≡ 0
    → ((scheduling before after s).current_thread ≡ head_or_idle s)
      × ((scheduling before after s).irq_nesting_counter ≡ 0)
unfolding scheduling
scheduling-current before after s outside =
    elim (Bool-cases (not (head_or_idle s == s.current_thread))) [
      | inl switches ↦ rw (scheduling, outside, switches) (refl, refl)
      | inr stays ↦ rw (scheduling, outside, stays) (ground (arith, stays), refl)
    ]

-- With valid lists and a thread ready, a schedule outside interrupts makes a ready thread the
-- current one, and no ready thread is more urgent.
pub scheduling_lem :
    (before after : ℕ) (s : Scheduler) (u : ℕ)
    → IsValid s
    → bit_and s.irq_nesting_counter outside_irqs ≡ 0
    → is_ready u s ≡ true
    → (is_ready (scheduling before after s).current_thread (scheduling before after s) ≡ true)
      × (urgency (scheduling before after s).current_thread (scheduling before after s)
          ≤ urgency u (scheduling before after s))
scheduling_lem before after s u v outside ready =
    let s' = scheduling before after s in
    let (t, e, on, le) = get_head_ss_lem s u v ready in
    let k = scheduling-IsSame before after s in
    let now : s'.current_thread ≡ t =
      (scheduling-current before after s outside).0 ∙ rw (e, head_or_idle) refl in
    rw now (
      ground (arith, same_state t s s' (k.flags t), on),
      ground (arith, k.priority t, k.priority u, le),
    )

-- With no thread ready, a schedule outside interrupts runs the idle thread.
pub scheduling-idle_thread :
    (before after : ℕ) (s : Scheduler)
    → IsValid s
    → bit_and s.irq_nesting_counter outside_irqs ≡ 0
    → ((u : ℕ) → is_ready u s ≡ false)
    → (scheduling before after s).current_thread ≡ s.idle_thread
scheduling-idle_thread before after s v outside idle =
    (scheduling-current before after s outside).0
    ∙ rw (get_head_ss-none s v idle, head_or_idle) refl
