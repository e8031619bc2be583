-- ===== src/Tests/Heap.antt =====
-- A heap of three timers, and the removal of one from the middle of a heap of seven.
use xmertl.Base.{ℕ, ◌*◌, ◌≡◌, refl, Option, none, some, arith, ◌==◌, if◌then◌else◌}
use xmertl.Heap.{Heap, heapify, heap_insert, heap_remove_min, heap_remove_element, find}
use xmertl.Heap.Insert.{IsHeap, IsInserted, heap_insert_lem}
use xmertl.Heap.Remove.{IsShrunk, heap_remove_min_lem}

-- A timer is as late as its number says.
abbrev key : ℕ → ℕ
key t = t

abbrev three : Heap
three = record { array = λ i. i * 10; nelem = 3 }

three-IsHeap : IsHeap key three.nelem three.array
three-IsHeap = λ j l h. omega arith

heap_insert_lem_example : IsInserted key 5 three (heap_insert key three 5)
heap_insert_lem_example = heap_insert_lem key three 5 three-IsHeap

heap_remove_min_lem_example :
    (heap' : Heap) × (heap_remove_min key three ≡ (10, heap')) × IsShrunk key 10 three heap'
heap_remove_min_lem_example = heap_remove_min_lem key three three-IsHeap (omega arith)

removed : (heap_remove_min key three).0 ≡ 10
unfolding heap_remove_min
removed = refl

abbrev seven : Heap
seven = record {
  array = λ i.
      if i == 1
      then 1
      else if i == 2
      then 10
      else if i == 3
      then 2
      else if i == 4
      then 11
      else if i == 5
      then 12
      else if i == 6
      then 3
      else 4;
  nelem = 7;
}

seven-IsHeap : IsHeap key seven.nelem seven.array
seven-IsHeap = λ j l h. ground arith

abbrev timer_at : ℕ → Option Heap → ℕ
timer_at i none = 0
timer_at i (some heap) = heap.array i

-- The last timer, 4, takes the place of the timer 11, below the timer 10.
left_unordered :
    (timer_at 2 (heap_remove_element key seven 11) ≡ 10)
    × (timer_at 4 (heap_remove_element key seven 11) ≡ 4)
unfolding heap_remove_element find heapify
left_unordered = (refl, refl)
