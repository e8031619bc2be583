-- ===== src/Heap/Insert.antt =====
-- An insertion keeps the order of the heap and every timer in it.
use xmertl.Base.{ℕ, zero, suc, ◌+◌, ◌≤◌, ◌<◌, ◌≡◌, ◌≢◌, ◌∙◌, refl, false, ◌&&◌, arith, inl, inr}
use xmertl.Base.{ltb, ◌==◌, Bool-cases}
use xmertl.Heap.{Heap, Insertion, refused, past_the_end, inserted, father, write, up, heap_insert}

-- No timer expires before its father.
abbrev pub IsHeap : (ℕ → ℕ) → ℕ → (ℕ → ℕ) → Type 0
IsHeap key n array = (j : ℕ) → 2 ≤ j → j ≤ n → key (array (father j)) ≤ key (array j)

-- What holds before `k` is put into the place `i`.
record IsOpen (key : ℕ → ℕ) (n i k : ℕ) (array : ℕ → ℕ) : Type 0 where
  apart : (j : ℕ) → 2 ≤ j → j ≤ n → j ≢ i → father j ≢ i → key (array (father j)) ≤ key (array j)
  above : (j : ℕ) → 2 ≤ j → j ≤ n → father j ≡ i → key k ≤ key (array j)
  over : (j : ℕ) → 2 ≤ j → j ≤ n → father j ≡ i → 2 ≤ i → key (array (father i)) ≤ key (array j)

-- What an insertion of `k` does: one timer more, in order, and none is lost.
pub record IsGrown (key : ℕ → ℕ) (k : ℕ) (heap heap' : Heap) : Type 0 where
  pub size : heap'.nelem ≡ heap.nelem + 1
  pub ordered : IsHeap key heap'.nelem heap'.array
  pub new : (i : ℕ) × (1 ≤ i) × (i ≤ heap'.nelem) × (heap'.array i ≡ k)
  pub kept :
      (j : ℕ)
      → 1 ≤ j
      → j ≤ heap.nelem
      → (i : ℕ) × (1 ≤ i) × (i ≤ heap'.nelem) × (heap'.array i ≡ heap.array j)

-- What `HEAP_insert` does, by the number of timers.
pub IsInserted : (ℕ → ℕ) → ℕ → Heap → Insertion → Type 0
IsInserted key k heap refused = 33 ≤ heap.nelem
IsInserted key k heap past_the_end = heap.nelem ≡ 32
IsInserted key k heap (inserted heap') = (heap.nelem < 32) × IsGrown key k heap heap'

module _ (key : ℕ → ℕ) where
  write-IsHeap :
      (n i k : ℕ) (array : ℕ → ℕ)
      → IsOpen key n i k array
      → (ltb 1 i && ltb (key k) (key (array (father i)))) ≡ false
      → IsHeap key n (write i k array)
  write-IsHeap n i k array o stop =
      λ j low high. ground (arith, o.apart j low high, o.above j low high, stop)

  step-IsOpen :
      (n i k : ℕ) (array : ℕ → ℕ)
      → IsOpen key n i k array
      → i ≤ n
      → 2 ≤ i
      → key k < key (array (father i))
      → IsOpen key n (father i) k (write i (array (father i)) array)
  step-IsOpen n i k array o high low less = record {
    apart = λ j l h a b. ground (arith, o.apart j l h, o.over j l h);
    above = λ j l h e. ground (arith, o.apart j l h, less);
    over = λ j l h e two. ground (arith, o.apart j l h, o.apart (father i) two, less);
  }

  up-IsHeap :
      (fuel n i k : ℕ) (array : ℕ → ℕ)
      → IsOpen key n i k array
      → 1 ≤ i
      → i ≤ n
      → i ≤ fuel
      → IsHeap key n (up key fuel i k array)
  unfolding up
  up-IsHeap zero n i k array o one high enough = absurd (omega arith)
  up-IsHeap (suc fuel) n i k array o one high enough =
      elim (Bool-cases (ltb 1 i && ltb (key k) (key (array (father i))))) [
        | inr stop ↦ rw (up, stop) (write-IsHeap n i k array o stop)
        | inl more ↦
            rw (up, more)
              (up-IsHeap fuel n (father i) k _
                (step-IsOpen n i k array o high (ground (arith, more)) (ground (arith, more)))
                (ground (arith, more)) (omega (arith, high)) (omega (arith, enough)))
      ]

  -- Every timer at another place than `i` is still there.
  up_keeps :
      (fuel i k n j : ℕ) (array : ℕ → ℕ)
      → 1 ≤ i
      → i ≤ n
      → i ≤ fuel
      → 1 ≤ j
      → j ≤ n
      → j ≢ i
      → (j' : ℕ) × (1 ≤ j') × (j' ≤ n) × (up key fuel i k array j' ≡ array j)
  unfolding up
  up_keeps zero i k n j array one high enough low end other = absurd (omega arith)
  up_keeps (suc fuel) i k n j array one high enough low end other =
      elim (Bool-cases (ltb 1 i && ltb (key k) (key (array (father i))))) [
        | inr stop ↦ rw (up, stop) (j, low, end, ground (arith, other))
        | inl more ↦
            let two : 2 ≤ i = ground (arith, more) in
            let moved = write i (array (father i)) array in
            rw (up, more)
              (elim (Bool-cases (j == father i)) [
                | inl here ↦
                    let (j', a, b, e) =
                      up_keeps fuel (father i) k n i moved (omega (arith, two))
                        (omega (arith, high)) (omega (arith, enough)) one high
                        (omega (arith, two)) in
                    let same : j ≡ father i = ground (arith, here) in
                    (j', a, b, e ∙ ground (arith, same))
                | inr apart ↦
                    let (j', a, b, e) =
                      up_keeps fuel (father i) k n j moved (omega (arith, two))
                        (omega (arith, high)) (omega (arith, enough)) low end
                        (ground (arith, apart)) in
                    (j', a, b, e ∙ ground (arith, other))
              ])
      ]

  up_puts :
      (fuel i k n : ℕ) (array : ℕ → ℕ)
      → 1 ≤ i
      → i ≤ n
      → i ≤ fuel
      → (j' : ℕ) × (1 ≤ j') × (j' ≤ n) × (up key fuel i k array j' ≡ k)
  unfolding up
  up_puts zero i k n array one high enough = absurd (omega arith)
  up_puts (suc fuel) i k n array one high enough =
      elim (Bool-cases (ltb 1 i && ltb (key k) (key (array (father i))))) [
        | inr stop ↦ rw (up, stop) (i, one, high, ground arith)
        | inl more ↦
            let two : 2 ≤ i = ground (arith, more) in
            rw (up, more)
              (up_puts fuel (father i) k n _ (omega (arith, two)) (omega (arith, high))
                (omega (arith, enough)))
      ]

  insert_room :
      (heap : Heap) (k : ℕ)
      → IsHeap key heap.nelem heap.array
      → ltb 33 (heap.nelem + 1) ≡ false
      → (heap.nelem + 1) == 33 ≡ false
      → IsInserted key k heap (heap_insert key heap k)
  unfolding heap_insert IsInserted
  insert_room heap k ordered fits room =
      let n = heap.nelem + 1 in
      let start : IsOpen key n n k heap.array = record {
        apart = λ j l h a b. ground (arith, ordered j l, a, h);
        above = λ j l h e. absurd (omega (arith, l, h, e));
        over = λ j l h e two. absurd (omega (arith, l, h, e));
      } in
      rw (heap_insert, fits, room)
        (
          ground (arith, fits, room),
          record {
            size = refl;
            ordered = up-IsHeap n n n k heap.array start (omega arith) (omega arith) (omega arith);
            new = up_puts n n k n heap.array (omega arith) (omega arith) (omega arith);
            kept = λ j low end.
                up_keeps n n k n j heap.array (omega arith) (omega arith) (omega arith) low
                  (omega (arith, end)) (omega (arith, end));
          },
        )

  -- With up to 31 timers in it, a heap takes another one: it stays a heap, with one timer more, and
  -- both the new timer and each old one are in it. With 32 timers HEAP_insert accepts one too, and
  -- writes past the end of the array; it refuses one exactly with 33 timers or more.
  pub heap_insert_lem :
      (heap : Heap) (k : ℕ)
      → IsHeap key heap.nelem heap.array
      → IsInserted key k heap (heap_insert key heap k)
  unfolding heap_insert IsInserted
  heap_insert_lem heap k ordered = elim (Bool-cases (ltb 33 (heap.nelem + 1))) [
    | inl full ↦ rw (heap_insert, full) (ground (arith, full))
    | inr fits ↦ elim (Bool-cases ((heap.nelem + 1) == 33)) [
      | inl last ↦ rw (heap_insert, fits, last) (ground (arith, last))
      | inr room ↦ insert_room heap k ordered fits room
    ]
  ]
