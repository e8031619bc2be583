-- ===== src/Pthread/Valid.antt =====
-- The threads that are ready are those that are linked, each in the list of its priority.
use xmertl.Base.{ℕ, ◌/◌, ◌%◌, ◌<◌, ◌≡◌, refl, ◌&&◌, ◌||◌, Bool, true, false, not, inl, inr, arith}
use xmertl.Base.{
  Option, none, some, List, [], ◌∷◌, ◌++◌, ◌==◌, if◌then◌else◌, Option-cases, bit_and, bit_or,
}
use xmertl.Base.Words.{bit_or_step, bit_and_step}
use xmertl.Base.Masks.{bit_and-low}
use xmertl.Bitmap.{complement}
use xmertl.Pthread.{
  Thread, Scheduler, linked, unlinked, is_empty, erase, insert_ss, insert_ss_tail, remove_ss,
  prio2ij, state_of, get_thread_state, set_thread_state, ready_thread,
}
use xmertl.Pthread.Lists.{
  mem, distinct, mem-append, distinct-snoc, mem-erase, distinct-erase, is_empty-snoc,
}
use xmertl.Pthread.Bitmaps.{IsBitmapped, linked-IsBitmapped, unlinked-IsBitmapped}

abbrev pub is_ready : ℕ → Scheduler → Bool
is_ready t s = state_of t s == ready_thread

abbrev pub is_at : Option (ℕ × ℕ) → ℕ → ℕ → Bool
is_at none i j = false
is_at (some (a, b)) i j = (i == a) && (j == b)

pub record IsValid (s : Scheduler) : Type 0 where
  pub bitmaps : IsBitmapped s.active_threads
  pub links :
      (t i j : ℕ)
      → mem t (s.active_threads.thread_matrix i j) ≡ (is_ready t s && is_at (s.threads t).ss i j)
  pub placed :
      (t : ℕ) → is_ready t s ≡ true → (s.threads t).ss ≡ some (prio2ij (s.threads t).sched_priority)
  pub inside : (t i j : ℕ) → (s.threads t).ss ≡ some (i, j) → (i < 32) × (j < 32)

pub prio2ij_lem : (p : ℕ) → prio2ij p ≡ (p % 1024 / 32, p % 32)
unfolding prio2ij
prio2ij_lem p = rw (bit_and-low 10 p, bit_and-low 5 p) refl

low_three : (x : ℕ) → bit_and x 7 ≡ x % 8
low_three x = bit_and-low 3 x

-- The state that is set is the state that is read.
pub get_thread_state-set_thread_state :
    (state : ℕ) (t : Thread) → state < 8 → get_thread_state (set_thread_state state t) ≡ state
unfolding get_thread_state set_thread_state
get_thread_state-set_thread_state state t h =
    let x = t.thread_flags in
    let cleared = bit_and x (complement 7) in
    omega (
      arith,
      low_three (bit_or cleared (bit_and state 7)),
      low_three state,
      bit_and_step x (complement 7),
      bit_and_step (x / 2) (complement 7 / 2),
      bit_and_step (x / 2 / 2) (complement 7 / 4),
      bit_or_step cleared (bit_and state 7),
      bit_or_step (cleared / 2) (bit_and state 7 / 2),
      bit_or_step (cleared / 2 / 2) (bit_and state 7 / 2 / 2),
    )

-- What a removal does: the thread leaves its list, and nothing else is changed.
pub record IsRemoved (t : ℕ) (s s' : Scheduler) : Type 0 where
  pub bitmaps : IsBitmapped s'.active_threads
  pub links :
      (u i j : ℕ)
      → mem u (s'.active_threads.thread_matrix i j)
        ≡ (not (u == t) && mem u (s.active_threads.thread_matrix i j))
  pub place : (u : ℕ) → (s'.threads u).ss ≡ (if u == t then none else (s.threads u).ss)
  pub flags : (u : ℕ) → (s'.threads u).thread_flags ≡ (s.threads u).thread_flags
  pub priority : (u : ℕ) → (s'.threads u).sched_priority ≡ (s.threads u).sched_priority

pub erase_empty : (t : ℕ) (list : List ℕ) → (is_empty list && not (is_empty (erase t list))) ≡ false
unfolding erase
erase_empty t [] = refl
erase_empty t (u ∷ list) = refl

pub remove_ss-IsRemoved : (t : ℕ) (s : Scheduler) → IsValid s → IsRemoved t s (remove_ss t s)
unfolding remove_ss unlinked
remove_ss-IsRemoved t s v = elim (Option-cases ((s.threads t).ss)) [
  | inl absent ↦
      rw (remove_ss, absent)
        (record {
          bitmaps = v.bitmaps;
          links = λ u i j. ground (arith, v.links u i j, v.links t i j, absent);
          place = λ u. ground (arith, absent);
          flags = λ u. refl;
          priority = λ u. refl;
        })
  | inr ((a, b), there) ↦
      let (ha, hb) = v.inside t a b there in
      let list = s.active_threads.thread_matrix a b in
      rw (remove_ss, there)
        (record {
          bitmaps =
              unlinked-IsBitmapped s.active_threads v.bitmaps a b ha hb (erase t list)
                (distinct-erase t list (v.bitmaps.unique a b)) (erase_empty t list);
          links = λ u i j. ground (
            arith,
            v.links u i j,
            v.links t i j,
            there,
            mem-erase t u list (v.bitmaps.unique a b),
          );
          place = λ u. ground arith;
          flags = λ u. ground arith;
          priority = λ u. ground arith;
        })
]

-- What an insertion does: the thread stands in the list of the priority, too.
pub record IsInserted (t p : ℕ) (s s' : Scheduler) : Type 0 where
  pub bitmaps : IsBitmapped s'.active_threads
  pub links :
      (u i j : ℕ)
      → mem u (s'.active_threads.thread_matrix i j)
        ≡ (mem u (s.active_threads.thread_matrix i j) || ((u == t) && is_at (some (prio2ij p)) i j))
  pub place : (u : ℕ) → (s'.threads u).ss ≡ (if u == t then some (prio2ij p) else (s.threads u).ss)
  pub flags : (u : ℕ) → (s'.threads u).thread_flags ≡ (s.threads u).thread_flags
  pub priority : (u : ℕ) → (s'.threads u).sched_priority ≡ (s.threads u).sched_priority

pub prio2ij-lt : (p : ℕ) → ((prio2ij p).0 < 32) × ((prio2ij p).1 < 32)
prio2ij-lt p = rw (prio2ij_lem p) (omega arith, omega arith)

module _ (t p : ℕ) (s : Scheduler) (b : IsBitmapped s.active_threads)
    (absent : (i j : ℕ) → mem t (s.active_threads.thread_matrix i j) ≡ false) where
  pub insert_ss-IsInserted : IsInserted t p s (insert_ss t p s)
  unfolding insert_ss linked
  insert_ss-IsInserted =
      let (i, j) = prio2ij p in
      let list = s.active_threads.thread_matrix i j in
      record {
        bitmaps =
            linked-IsBitmapped s.active_threads b i j (prio2ij-lt p).0 (prio2ij-lt p).1 (t ∷ list)
              (unfold distinct in ground (arith, absent i j, b.unique i j)) refl;
        links = λ u a c. unfold mem in ground (arith, absent a c);
        place = λ u. ground arith;
        flags = λ u. ground arith;
        priority = λ u. ground arith;
      }

  pub insert_ss_tail-IsInserted : IsInserted t p s (insert_ss_tail t p s)
  unfolding insert_ss_tail linked
  insert_ss_tail-IsInserted =
      let (i, j) = prio2ij p in
      let list = s.active_threads.thread_matrix i j in
      record {
        bitmaps =
            linked-IsBitmapped s.active_threads b i j (prio2ij-lt p).0 (prio2ij-lt p).1
              (list ++ (t ∷ [])) (distinct-snoc t list (absent i j) (b.unique i j))
              (is_empty-snoc t list);
        links = λ u a c. unfold mem in ground (arith, mem-append u list (t ∷ []));
        place = λ u. ground arith;
        flags = λ u. ground arith;
        priority = λ u. ground arith;
      }
