-- ===== src/Heap/Remove.antt =====
-- A removal of the first timer keeps the order of the heap and every other timer in it.
use xmertl.Base.{
  ℕ, zero, suc, ◌+◌, ◌-◌, ◌*◌, ◌≤◌, ◌<◌, ◌≡◌, ◌≢◌, ◌∙◌, refl, true, false, not, ◌&&◌, arith, inl,
  inr,
}
use xmertl.Base.{ltb, leb, ◌==◌, if◌then◌else◌, Bool-cases}
use xmertl.Heap.{Heap, father, write, least_child, heapify, heap_remove_min}
use xmertl.Heap.Insert.{IsHeap}

-- What holds while the timer at `top` may expire after its children.
record IsLoose (key : ℕ → ℕ) (n top : ℕ) (array : ℕ → ℕ) : Type 0 where
  apart : (j : ℕ) → 2 ≤ j → j ≤ n → father j ≢ top → key (array (father j)) ≤ key (array j)
  over :
      (j : ℕ) → 2 ≤ j → j ≤ n → father j ≡ top → 2 ≤ top → key (array (father top)) ≤ key (array j)

-- What a removal of the timer `first` does: one timer less, in order, and no other is lost.
pub record IsShrunk (key : ℕ → ℕ) (first : ℕ) (heap heap' : Heap) : Type 0 where
  pub size : heap'.nelem + 1 ≡ heap.nelem
  pub ordered : IsHeap key heap'.nelem heap'.array
  pub least : (i : ℕ) → 1 ≤ i → i ≤ heap.nelem → key first ≤ key (heap.array i)
  pub kept :
      (j : ℕ)
      → 2 ≤ j
      → j ≤ heap.nelem
      → (i : ℕ) × (1 ≤ i) × (i ≤ heap'.nelem) × (heap'.array i ≡ heap.array j)

module _ (key : ℕ → ℕ) where
  -- The least child, and that the others expire no earlier.
  record IsLeast (n top c : ℕ) (array : ℕ → ℕ) : Type 0 where
    child : father c ≡ top
    inside : (2 ≤ c) × (c ≤ n)
    least : (j : ℕ) → 2 ≤ j → j ≤ n → father j ≡ top → key (array c) ≤ key (array j)

  least_child-IsLeast :
      (n top : ℕ) (array : ℕ → ℕ)
      → 1 ≤ top
      → 2 * top ≤ n
      → IsLeast n top (least_child key n (2 * top) array) array
  least_child-IsLeast n top array one low =
      let child = 2 * top in
      elim (Bool-cases (leb (child + 1) n && ltb (key (array (child + 1))) (key (array child)))) [
        | inl second ↦
            rw (least_child, second)
              (record {
                child = omega arith;
                inside = (omega (arith, one), ground (arith, second));
                least = λ j l h e. ground (arith, second, e);
              })
        | inr first ↦
            rw (least_child, first)
              (record {
                child = omega arith;
                inside = (omega (arith, one), low);
                least = λ j l h e. ground (arith, first, e, h);
              })
      ]

  module _ (n top c : ℕ) (array : ℕ → ℕ) (o : IsLoose key n top array) (m : IsLeast n top c array)
      (one : 1 ≤ top) where
    stop-IsHeap : key (array top) < key (array c) → IsHeap key n array
    stop-IsHeap less = λ j l h. ground (arith, o.apart j l h, m.least j l h, less)

    step-IsLoose :
        key (array c) ≤ key (array top)
        → IsLoose key n c (write c (array top) (write top (array c) array))
    step-IsLoose le = record {
      apart = λ j l h a. ground (
        arith,
        o.apart j l h,
        o.over j l h,
        m.least j l h,
        o.over c m.inside.0 m.inside.1 m.child,
        m.child,
        m.inside,
        le,
        a,
        one,
      );
      over = λ j l h e two. ground (arith, o.apart j l h, m.child, m.inside, e, one);
    }

  heapify-IsHeap :
      (fuel n top : ℕ) (array : ℕ → ℕ)
      → IsLoose key n top array
      → 1 ≤ top
      → n < top + fuel
      → IsHeap key n (heapify key fuel n top array)
  unfolding heapify
  heapify-IsHeap zero n top array o one enough = λ j l h. o.apart j l h (omega (arith, enough, h))
  heapify-IsHeap (suc fuel) n top array o one enough =
      let c = least_child key n (2 * top) array in
      elim (Bool-cases (leb (2 * top) n)) [
        | inr leaf ↦ rw (heapify, leaf) (λ j l h. o.apart j l h (ground (arith, leaf, h)))
        | inl low ↦
            let m = least_child-IsLeast n top array one (ground (arith, low)) in
            elim (Bool-cases (ltb (key (array top)) (key (array c)))) [
              | inl less ↦
                  rw (heapify, low, less) (stop-IsHeap n top c array o m one (ground (arith, less)))
              | inr more ↦
                  rw (heapify, low, more)
                    (heapify-IsHeap fuel n c _
                      (step-IsLoose n top c array o m one (ground (arith, more)))
                      (omega (arith, m.inside)) (omega (arith, m.inside, m.child, enough, one)))
            ]
      ]

  -- Every timer is still there.
  heapify_keeps :
      (fuel n top j : ℕ) (array : ℕ → ℕ)
      → 1 ≤ top
      → 1 ≤ j
      → j ≤ n
      → (j' : ℕ) × (1 ≤ j') × (j' ≤ n) × (heapify key fuel n top array j' ≡ array j)
  unfolding heapify
  heapify_keeps zero n top j array one low end = (j, low, end, refl)
  heapify_keeps (suc fuel) n top j array one low end =
      let c = least_child key n (2 * top) array in
      elim (Bool-cases (leb (2 * top) n && not (ltb (key (array top)) (key (array c))))) [
        | inr stop ↦ (j, low, end, ground (arith, stop))
        | inl go ↦
            let leaf : leb (2 * top) n ≡ true = ground (arith, go) in
            let more : ltb (key (array top)) (key (array c)) ≡ false = ground (arith, go) in
            let m = least_child-IsLeast n top array one (ground (arith, leaf)) in
            let swapped = write c (array top) (write top (array c) array) in
            let place : ℕ = if j == c then top else if j == top then c else j in
            let (j', a, b, e) =
              heapify_keeps fuel n c place swapped (omega (arith, m.inside))
                (ground (arith, m.inside, one, low)) (ground (arith, m.inside, m.child, end)) in
            let held : swapped place ≡ array j = ground (arith, m.inside, m.child, one) in
            rw (heapify, leaf, more) (j', a, b, e ∙ held)
      ]

  -- The first timer expires no later than any other.
  root-le :
      (fuel n j : ℕ) (array : ℕ → ℕ)
      → IsHeap key n array
      → j ≤ fuel
      → 1 ≤ j
      → j ≤ n
      → key (array 1) ≤ key (array j)
  root-le zero n j array ordered enough low end = absurd (omega arith)
  root-le (suc fuel) n j array ordered enough low end = elim (Bool-cases (j == 1)) [
    | inl first ↦ let same : j ≡ 1 = ground (arith, first) in rw same (omega arith)
    | inr later ↦
        let two : 2 ≤ j = ground (arith, later, low) in
        omega (
          arith,
          ordered j two end,
          root-le fuel n (father j) array ordered (omega (arith, enough, two)) (omega (arith, two))
              (omega (arith, end)),
        )
  ]

  -- The last timer takes the place of the first, and sinks.
  sunk_keeps :
      (heap : Heap) (j : ℕ)
      → 2 ≤ j
      → j ≤ heap.nelem
      → let n = heap.nelem - 1 in
        (i : ℕ) × (1 ≤ i)
        × (i ≤ n)
        × (heapify key n n 1 (write 1 (heap.array heap.nelem) heap.array) i ≡ heap.array j)
  sunk_keeps heap j low end =
      let n = heap.nelem - 1 in
      let start = write 1 (heap.array heap.nelem) heap.array in
      let place : ℕ = if j == heap.nelem then 1 else j in
      let (i, a, b, e) =
        heapify_keeps n n 1 place start (omega arith) (ground (arith, low))
          (ground (arith, low, end)) in
      let held : start place ≡ heap.array j = ground (arith, low) in (i, a, b, e ∙ held)

  -- A heap with a timer in it gives one that expires no later than any of its timers; it stays a
  -- heap, with one timer less, and each timer at another place than the first is still in it.
  pub heap_remove_min_lem :
      (heap : Heap)
      → IsHeap key heap.nelem heap.array
      → 1 ≤ heap.nelem
      → (heap' : Heap) × (heap_remove_min key heap ≡ (heap.array 1, heap'))
        × IsShrunk key (heap.array 1) heap heap'
  unfolding heap_remove_min
  heap_remove_min_lem heap ordered some_timer =
      let n = heap.nelem - 1 in
      let test : ltb 0 heap.nelem ≡ true = ground (arith, some_timer) in
      let start = write 1 (heap.array heap.nelem) heap.array in
      let loose : IsLoose key n 1 start = record {
        apart = λ j l h a. ground (arith, ordered j l, l, h, a);
        over = λ j l h e two. absurd (omega (arith, two));
      } in
      (
        record { array = heapify key n n 1 start; nelem = n },
        rw (heap_remove_min, test) refl,
        record {
          size = omega (arith, some_timer);
          ordered = heapify-IsHeap n n 1 start loose (omega arith) (omega arith);
          least = λ i low end. root-le i heap.nelem i heap.array ordered (omega arith) low end;
          kept = λ j low end. sunk_keeps heap j low end;
        },
      )
