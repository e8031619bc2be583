-- ===== src/Heap.antt =====
-- partikle/core/kernel/port/heap.c: the timers that are pending, a binary heap by the time at which
-- they expire. A timer is a number, 0 is a null pointer, and `key` is its `timer_value`.
-- The array of the source has the indices up to 32, and `nelem` follows it.
pub mod Insert
pub mod Remove
use xmertl.Base.{ℕ, zero, suc, ◌+◌, ◌-◌, ◌*◌, ◌/◌, Bool, true, false, ◌&&◌, Option, none, some}
use xmertl.Base.{ltb, leb, ◌==◌, if◌then◌else◌}

pub record Heap : Type 0 where
  pub array : ℕ → ℕ
  pub nelem : ℕ

abbrev pub heap_max_nelem : ℕ
heap_max_nelem = 33

abbrev pub father : ℕ → ℕ
father i = i / 2

abbrev pub write : ℕ → ℕ → (ℕ → ℕ) → ℕ → ℕ
write i t array j = if j == i then t else array j

unfoldable pub heap_init : Heap
heap_init = record { array = λ i. 0; nelem = 0 }

unfoldable pub heap_min : Heap → ℕ
heap_min heap = if ltb 0 heap.nelem then heap.array 1 else 0

-- What an insertion does: -1, the heap after it, or a write to `array [33]`, which is `nelem`. What
-- comes of that write is not modelled.
pub data Insertion : Type 0 where
  refused past_the_end : Insertion
  inserted : Heap → Insertion

module _ (key : ℕ → ℕ) where
  -- The loop of the insertion: the fathers move down until `k` fits.
  unfoldable pub up : ℕ → ℕ → ℕ → (ℕ → ℕ) → ℕ → ℕ
  up zero i k array = write i k array
  up (suc fuel) i k array =
      let more = up fuel (father i) k (write i (array (father i)) array) in
      if ltb 1 i && ltb (key k) (key (array (father i))) then more else write i k array

  -- The place of the new timer is written in any case.
  unfoldable pub heap_insert : Heap → ℕ → Insertion
  heap_insert heap k =
      let i = heap.nelem + 1 in
      if ltb heap_max_nelem i
      then refused
      else if i == heap_max_nelem
      then past_the_end
      else inserted (record { array = up i i k heap.array; nelem = i })

  -- The lesser of two children.
  abbrev pub least_child : ℕ → ℕ → (ℕ → ℕ) → ℕ
  least_child nelem child array =
      if leb (child + 1) nelem && ltb (key (array (child + 1))) (key (array child))
      then child + 1
      else child

  unfoldable pub heapify : ℕ → ℕ → ℕ → (ℕ → ℕ) → ℕ → ℕ
  heapify zero nelem top array = array
  heapify (suc fuel) nelem top array =
      let child = least_child nelem (2 * top) array in
      let more =
        heapify fuel nelem child (write child (array top) (write top (array child) array)) in
      if leb (2 * top) nelem
      then (if ltb (key (array top)) (key (array child)) then array else more)
      else array

  -- The timer that is removed, 0 if there is none, and the heap after it.
  unfoldable pub heap_remove_min : Heap → ℕ × Heap
  heap_remove_min heap =
      let n = heap.nelem - 1 in
      if ltb 0 heap.nelem
      then (
        heap.array 1,
        record { array = heapify n n 1 (write 1 (heap.array heap.nelem) heap.array); nelem = n },
      )
      else (0, heap)

  -- The first of `left` places from `i` on that has the timer.
  unfoldable pub find : ℕ → ℕ → ℕ → (ℕ → ℕ) → Option ℕ
  find zero i k array = none
  find (suc left) i k array =
      let later = find left (i + 1) k array in if array i == k then some i else later

  unfoldable pub heap_remove_element : Heap → ℕ → Option Heap
  heap_remove_element heap k =
      let n = heap.nelem - 1 in
      elim (find heap.nelem 1 k heap.array) [
        | none ↦ none
        | some i ↦ some (
            if ltb 1 heap.nelem
            then record {
              array = heapify n n i (write i (heap.array heap.nelem) heap.array);
              nelem = n;
            }
            else record { array = write i 0 heap.array; nelem = 0 })
      ]
