-- ===== src/Pthread.antt =====
-- partikle/core/include/sched_struct.h: the lists of ready threads by priority under two levels of
-- bitmaps, and partikle/core/kernel/port/sched.c, which keeps them. A pointer to a thread is a number.
pub mod Lists
pub mod Bitmaps
pub mod Valid
pub mod Reprice
pub mod Keep
pub mod Turns
pub mod Choice
pub mod Rotation
pub mod Progress
pub mod Reach
use xmertl.Base.{ℕ, ◌+◌, ◌-◌, ◌*◌, ◌/◌, ◌^◌, bit_or, bit_and, ◌&&◌, ◌||◌, Bool, true, false, not}
use xmertl.Base.{Option, none, some, List, [], ◌∷◌, ◌++◌, ◌==◌, if◌then◌else◌}
use xmertl.Bitmap.{complement, ffs}

-- `struct pthread_struct`, as far as scheduling goes: `ss` is `ss_i` and `ss_j`, and `none` is the
-- -1 in both of them. A new struct is zeroed, with `some (0, 0)`.
pub record Thread : Type 0 where
  pub thread_flags : ℕ
  pub sched_priority : ℕ
  pub ss : Option (ℕ × ℕ)
  pub starting_time : ℕ
  pub used_time : ℕ

-- The threads that `next_matrix` and `prev_matrix` link make a list.
pub record ActiveThreads : Type 0 where
  pub thread_matrix : ℕ → ℕ → List ℕ
  pub flbitmap : ℕ
  pub slbitmap : ℕ → ℕ

-- The variables of sched.c, and the counter of irqs.c.
pub record Scheduler : Type 0 where
  pub threads : ℕ → Thread
  pub active_threads : ActiveThreads
  pub current_thread : ℕ
  pub idle_thread : ℕ
  pub irq_nesting_counter : ℕ

abbrev pub ready_thread : ℕ
ready_thread = 0x0

abbrev pub suspended_thread : ℕ
suspended_thread = 0x1

abbrev pub finished_thread : ℕ
finished_thread = 0x2

abbrev pub outside_irqs : ℕ
outside_irqs = 0x7fffffff

abbrev pub sched_pending : ℕ
sched_pending = 0x80000000

unfoldable pub set_thread_state : ℕ → Thread → Thread
set_thread_state state thread = record thread {
  thread_flags = bit_or (bit_and thread.thread_flags (complement 0x7)) (bit_and state 0x7);
}

unfoldable pub get_thread_state : Thread → ℕ
get_thread_state thread = bit_and thread.thread_flags 0x7

unfoldable pub setbit : ℕ → ℕ → ℕ
setbit bitmap bit = bit_or bitmap (2 ^ bit)

unfoldable pub clearbit : ℕ → ℕ → ℕ
clearbit bitmap bit = bit_and bitmap (complement (2 ^ bit))

unfoldable pub prio2ij : ℕ → ℕ × ℕ
prio2ij prio = (bit_and prio 0x3ff / 2 ^ 5, bit_and prio 0x1f)

unfoldable pub ij2prio : ℕ → ℕ → ℕ
ij2prio i j = bit_or (bit_and i 0x1f * 2 ^ 5) (bit_and j 0x1f)

unfoldable pub init_ss : ActiveThreads
init_ss = record { thread_matrix = λ i j. []; flbitmap = 0; slbitmap = λ i. 0 }

-- A write to an entry of the matrix, and to one of the second bitmaps.
abbrev pub put_list : ℕ → ℕ → List ℕ → (ℕ → ℕ → List ℕ) → ℕ → ℕ → List ℕ
put_list i j list matrix a b = if (a == i) && (b == j) then list else matrix a b

abbrev pub put_bits : ℕ → ℕ → (ℕ → ℕ) → ℕ → ℕ
put_bits i bits slbitmap a = if a == i then bits else slbitmap a

abbrev pub put_thread : ℕ → Thread → (ℕ → Thread) → ℕ → Thread
put_thread t thread threads u = if u == t then thread else threads u

-- Both insertions end with the bits of the list.
unfoldable pub linked : ℕ → ℕ → List ℕ → ActiveThreads → ActiveThreads
unfolding setbit
linked i j list a = record {
  thread_matrix = put_list i j list a.thread_matrix;
  flbitmap = setbit a.flbitmap i;
  slbitmap = put_bits i (setbit (a.slbitmap i) j) a.slbitmap;
}

abbrev pub set_ss : ℕ → Option (ℕ × ℕ) → (ℕ → Thread) → ℕ → Thread
set_ss t place threads = put_thread t (record (threads t) { ss = place }) threads

unfoldable pub insert_ss : ℕ → ℕ → Scheduler → Scheduler
unfolding prio2ij linked
insert_ss t priority s =
    let (i, j) = prio2ij priority in
    record s {
      active_threads = linked i j (t ∷ s.active_threads.thread_matrix i j) s.active_threads;
      threads = set_ss t (some (i, j)) s.threads;
    }

unfoldable pub insert_ss_tail : ℕ → ℕ → Scheduler → Scheduler
unfolding prio2ij linked
insert_ss_tail t priority s =
    let (i, j) = prio2ij priority in
    record s {
      active_threads = linked i j (s.active_threads.thread_matrix i j ++ (t ∷ [])) s.active_threads;
      threads = set_ss t (some (i, j)) s.threads;
    }

-- The head of the list of the first bits that are set; `none` is a null pointer.
abbrev pub head : List ℕ → Option ℕ
head [] = none
head (t ∷ list) = some t

unfoldable pub get_head_ss : ActiveThreads → Option ℕ
unfolding ffs
get_head_ss a = elim (ffs a.flbitmap) [
  | none ↦ none
  | some i ↦ elim (ffs (a.slbitmap i)) [ none ↦ none | some j ↦ head (a.thread_matrix i j) ]
]

-- A thread is taken out of a list, in which it stands once at most.
unfoldable pub erase : ℕ → List ℕ → List ℕ
erase t [] = []
erase t (u ∷ list) = let rest = erase t list in if u == t then list else u ∷ rest

abbrev pub is_empty : List ℕ → Bool
is_empty [] = true
is_empty (t ∷ list) = false

unfoldable pub unlinked : ℕ → ℕ → List ℕ → ActiveThreads → ActiveThreads
unfolding clearbit
unlinked i j list a =
    let bits = if is_empty list then clearbit (a.slbitmap i) j else a.slbitmap i in
    record {
      thread_matrix = put_list i j list a.thread_matrix;
      flbitmap = if is_empty list && (bits == 0) then clearbit a.flbitmap i else a.flbitmap;
      slbitmap = put_bits i bits a.slbitmap;
    }

unfoldable pub remove_ss : ℕ → Scheduler → Scheduler
unfolding erase unlinked
remove_ss t s = elim ((s.threads t).ss) [
  | none ↦ s
  | some (i, j) ↦ record s {
    active_threads = unlinked i j (erase t (s.active_threads.thread_matrix i j)) s.active_threads;
    threads = set_ss t none s.threads;
  }
]

abbrev pub state_of : ℕ → Scheduler → ℕ
state_of t s = get_thread_state (s.threads t)

abbrev pub set_state : ℕ → ℕ → Scheduler → Scheduler
set_state t state s = record s {
  threads = put_thread t (set_thread_state state (s.threads t)) s.threads;
}

abbrev pub set_priority : ℕ → ℕ → Scheduler → Scheduler
set_priority t prio s = record s {
  threads = put_thread t (record (s.threads t) { sched_priority = prio }) s.threads;
}

unfoldable pub change_thread_prio : ℕ → ℕ → Scheduler → Scheduler
unfolding get_thread_state
change_thread_prio t prio s =
    let removed = set_priority t prio (remove_ss t s) in
    if state_of t s == ready_thread then insert_ss t prio removed else removed

unfoldable pub suspend_thread : ℕ → Scheduler → Scheduler
unfolding get_thread_state set_thread_state
suspend_thread t s =
    let removed = remove_ss t s in
    if state_of t removed == finished_thread then removed else set_state t suspended_thread removed

unfoldable pub activate_thread : ℕ → Scheduler → Scheduler
unfolding get_thread_state set_thread_state
activate_thread t s =
    if not (state_of t s == finished_thread) && not (state_of t s == ready_thread)
    then set_state t ready_thread (insert_ss t (s.threads t).sched_priority s)
    else s

unfoldable pub finish_thread : ℕ → Scheduler → Scheduler
unfolding set_thread_state
finish_thread t s = set_state t finished_thread (remove_ss t s)

-- The clock is read before the switch and after it; it does not run backwards.
unfoldable pub scheduling : ℕ → ℕ → Scheduler → Scheduler
scheduling before after s =
    let new_thread : ℕ = elim (get_head_ss s.active_threads) [
      | none ↦ s.idle_thread
      | some t ↦ t
    ] in
    let old = s.threads s.current_thread in
    let left =
      put_thread s.current_thread
        (record old { used_time = old.used_time + (before - old.starting_time) }) s.threads in
    let switched : Scheduler = record s {
      threads = put_thread new_thread (record (left new_thread) { starting_time = after }) left;
      current_thread = new_thread;
      irq_nesting_counter = 0;
    } in
    if not (bit_and s.irq_nesting_counter outside_irqs == 0)
    then record s { irq_nesting_counter = bit_or s.irq_nesting_counter sched_pending }
    else if not (new_thread == s.current_thread)
    then switched
    else record s { irq_nesting_counter = 0 }

unfoldable pub pthread_yield_sys : ℕ → ℕ → Scheduler → Scheduler
pthread_yield_sys before after s =
    let t = s.current_thread in
    let removed = remove_ss t s in
    scheduling before after (insert_ss_tail t (removed.threads t).sched_priority removed)
