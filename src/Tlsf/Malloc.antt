-- ===== src/Tlsf/Malloc.antt =====
-- `malloc_ex`: a block with the bytes, a valid pool, and when there is none.
use xmertl.Base.{ℕ, ◌+◌, ◌-◌, ◌%◌, ◌^◌, ◌≤◌, ◌<◌, ◌≡◌, ◌∙◌, ap, refl, inl, inr, ◌⊎◌, arith}
use xmertl.Base.{Bool, true, false, none, some, List, [], ◌∷◌}
use xmertl.Base.{ltb, Bool-cases}
use xmertl.Pthread.{head, erase, is_empty}
use xmertl.Pthread.Lists.{mem}
use xmertl.Tlsf.{mapping_insert, mapping_search, Mapped, first_level}
use xmertl.Tlsf.Fit.{
  IsNotBelow, mapping_insert-IsInRange, small_search, large_search, class_lem, raised, raised-lt,
  lower_level,
}
use xmertl.Tlsf.Round.{search_r, roundup_size_lem}
use xmertl.Tlsf.Blocks.{
  Tlsf, extract_block_hdr, extract_block, use_block, malloc_ex, malloc_from, Found, rounded,
  find_suitable_block,
}
use xmertl.Tlsf.Pool.{IsPool, extract_block-IsUnlisted, extract_block_hdr_lem}
use xmertl.Tlsf.Find.{IsSuitable, find_suitable_block_lem}
use xmertl.Tlsf.Cut.{end-le_last}
use xmertl.Tlsf.Use.{IsAllocated, use_block_lem}

-- The search asks for a class of the tables.
mapping_search-IsInRange :
    (r : ℕ) → r < 2 ^ 29 → ((mapping_search r).fl < 31) × ((mapping_search r).sl < 32)
mapping_search-IsInRange r h = elim (Bool-cases (ltb r 128)) [
  | inl small ↦ ground (arith, small_search r small)
  | inr large ↦
      let r1 = raised r in
      let word : r1 % 2 ^ 32 ≡ r1 = omega (arith, raised-lt r (ground (arith, large)) h) in
      let c1 =
        class_lem r1 (ground (arith, large))
          (omega (arith, raised-lt r (ground (arith, large)) h)) in
      let f = lower_level (first_level r1) 29 r1 c1.low (raised-lt r (ground (arith, large)) h) in
      omega (arith, large_search r large word, c1.classes, c1.last, f)
]

pub rounded_lem :
    (size : ℕ)
    → size < 2 ^ 29 - 8
    → (size ≤ rounded size) × (8 ≤ rounded size) × (rounded size < 2 ^ 29) × (rounded size % 8 ≡ 0)
rounded_lem size h = elim (Bool-cases (ltb size 8)) [
  | inl e ↦ rw e (ground (arith, e), omega arith, omega arith, omega arith)
  | inr e ↦
      let r = roundup_size_lem size (omega (arith, h)) in
      rw e (r.0, ground (arith, e, r), omega (arith, h, r), r.2)
]

pub rounded-le : (size : ℕ) → size < 2 ^ 29 - 8 → rounded size ≤ size + 8
rounded-le size h = elim (Bool-cases (ltb size 8)) [
  | inl e ↦ rw e (omega arith)
  | inr e ↦ rw e (omega (arith, roundup_size_lem size (omega (arith, h))))
]

head-mem : (b : ℕ) → (list : List ℕ) → head list ≡ some b → mem b list ≡ true
unfolding mem
head-mem b [] e = absurd (ground (arith, e))
head-mem b (u ∷ list) e = ground (arith, e)

mem-is_empty : (b : ℕ) → (list : List ℕ) → mem b list ≡ true → is_empty list ≡ false
unfolding mem
mem-is_empty b [] e = absurd (ground (arith, e))
mem-is_empty b (u ∷ list) e = refl

malloc_from-some :
    (r b : ℕ)
    → (found : Found) → (t : Tlsf) → found.block ≡ some b
    → head (t.matrix found.fl found.sl) ≡ some b
    → malloc_from r found t ≡ use_block b r (extract_block b found.fl found.sl t)
unfolding malloc_from
malloc_from-some r b found t e h =
    ap
      (λ o. elim o [
        | none ↦ (0, t)
        | some c ↦ use_block c r (extract_block_hdr found.fl found.sl t)
      ])
      e
    ∙ ap (use_block b r) (extract_block_hdr_lem b found.fl found.sl t h)

malloc_from-none :
    (r : ℕ) → (found : Found) → (t : Tlsf) → found.block ≡ none → malloc_from r found t ≡ (0, t)
unfolding malloc_from
malloc_from-none r found t e =
    ap
      (λ o. elim o [
        | none ↦ (0, t)
        | some c ↦ use_block c r (extract_block_hdr found.fl found.sl t)
      ])
      e

use_block_ptr : (b r : ℕ) → (t : Tlsf) → (use_block b r t).0 ≡ b + 8
unfolding use_block
use_block_ptr b r t = refl

module _ (is_block : ℕ → Bool) (low last : ℕ) (t : Tlsf) (p : IsPool is_block low last t) where
  -- A block in a list is a free block of that class.
  listed_block :
      (b i j : ℕ)
      → mem b (t.matrix i j) ≡ true
      → (is_block b ≡ true)
        × (t.is_free b ≡ true)
        × ((mapping_insert (t.size b)).fl ≡ i)
        × ((mapping_insert (t.size b)).sl ≡ j)
  listed_block b i j e = ground (arith, p.links b i j, e)

  size-lt : (b : ℕ) → is_block b ≡ true → t.size b < 2 ^ 30
  size-lt b hb = omega (arith, end-le_last is_block low last t p b hb, p.bound b hb, p.room)

  suitable_class :
      (wanted : Mapped)
      → (found : Found) → (b : ℕ) → IsSuitable t wanted.fl wanted.sl found b
      → (is_block b ≡ true) × IsNotBelow (mapping_insert (t.size b)) wanted
  suitable_class wanted found b f =
      let (hb, fb, ei, ej) =
        listed_block b found.fl found.sl (head-mem b (t.matrix found.fl found.sl) f.first) in
      (hb, ground (arith, f.later, ei, ej))

  -- The block that a search for a class gives, used for a size that the class has.
  use_found :
      (wanted : Mapped)
      → 8 ≤ wanted.r
      → wanted.r % 8 ≡ 0
      → ((s : ℕ) → s < 2 ^ 30 → IsNotBelow (mapping_insert s) wanted → wanted.r ≤ s)
      → (found : Found) → (b : ℕ) → IsSuitable t wanted.fl wanted.sl found b
      → (more : ℕ → Bool) × IsAllocated is_block more low last wanted.r b t
          (malloc_from wanted.r found t).1
        × ((malloc_from wanted.r found t).0 ≡ b + 8)
  unfolding extract_block
  use_found wanted hr er fits found b f =
      let r = wanted.r in
      let (hb, fb, ei, ej) =
        listed_block b found.fl found.sl (head-mem b (t.matrix found.fl found.sl) f.first) in
      let later = (suitable_class wanted found b f).1 in
      let un =
        extract_block-IsUnlisted b found.fl found.sl t p.bitmaps f.range.0 f.range.1
          (λ c d h. ground (arith, listed_block b c d h, ei, ej)) in
      let e = malloc_from-some r b found t f.block f.first in
      let (more, q) =
        use_block_lem is_block low last t p b found.fl found.sl
          (erase b (t.matrix found.fl found.sl)) hb fb un r hr er
          (fits (t.size b) (size-lt b hb) later) in
      (more, rw e q, ap (λ x. x.0) e ∙ use_block_ptr b r (extract_block b found.fl found.sl t))

-- A null pointer: the pool is as it was, and no free block is of the class that the request is
-- searched in or of a later one.
pub record IsRefused (is_block : ℕ → Bool) (size : ℕ) (t : Tlsf) (result : ℕ × Tlsf) : Type 0 where
  pub null : result ≡ (0, t)
  pub lacking :
      (u : ℕ)
      → is_block u ≡ true
      → t.is_free u ≡ true
      → ¬ IsNotBelow (mapping_insert (t.size u)) (mapping_search (rounded size))

pub IsAllocated-le :
    {is_block more : ℕ → Bool}
    → {low last r b : ℕ} → {t t' : Tlsf} → (size : ℕ) → size ≤ r
    → IsAllocated is_block more low last r b t t'
    → IsAllocated is_block more low last size b t t'
IsAllocated-le size le a = record {
  pool = a.pool;
  taken = a.taken;
  room = omega (arith, le, a.room);
  kept = a.kept;
  fresh = a.fresh;
  apart = λ u hu n. ground (arith, a.apart u hu n, le);
  used = a.used;
}

-- For requests below 2 ^ 29 - 8 bytes `malloc_ex` keeps a pool valid: it gives the bytes of a block that
-- was free, as `IsAllocated` says, or it refuses the request as `IsRefused` says.
pub malloc_ex-IsPool :
    (is_block : ℕ → Bool)
    → (low last : ℕ) → (t : Tlsf) → IsPool is_block low last t
    → (size : ℕ) → size < 2 ^ 29 - 8
    → ((more : ℕ → Bool) × (b : ℕ) × IsAllocated is_block more low last size b t
          (malloc_ex size t).1
        × ((malloc_ex size t).0 ≡ b + 8))
      ⊎ IsRefused is_block size t (malloc_ex size t)
unfolding malloc_ex
malloc_ex-IsPool is_block low last t p size hs =
    let r = rounded size in
    let w = mapping_search r in
    let found = find_suitable_block t w.fl w.sl in
    let (le, least, most, eight) = rounded_lem size hs in
    let range = mapping_search-IsInRange r most in
    elim (find_suitable_block_lem t p.bitmaps w.fl w.sl range.0 range.1) [
      | inl (b, f) ↦
          let (hb, later) = suitable_class is_block low last t p w found b f in
          let (up, eight', down) =
            search_r r (t.size b) eight most (size-lt is_block low last t p b hb) later in
          let (more, q, e) =
            use_found is_block low last t p w (omega (arith, least, up)) eight'
              (λ s hs' l. (search_r r s eight most hs' l).2) found b f in
          inl (more, b, IsAllocated-le size (omega (arith, le, up)) q, e)
      | inr n ↦ inr (record {
        null = malloc_from-none w.r found t n.block;
        lacking = λ u hu fu later.
            let m = mapping_insert (t.size u) in
            let range' = mapping_insert-IsInRange (t.size u) (size-lt is_block low last t p u hu) in
            let full =
              mem-is_empty u (t.matrix m.fl m.sl) (ground (arith, p.links u m.fl m.sl, hu, fu)) in
            elim later [
              | inl higher ↦ ground (arith, n.above m.fl m.sl, range', full, higher)
              | inr (level, line) ↦ ground (
                arith,
                ap (λ i. is_empty (t.matrix i m.sl)) level,
                n.here m.sl,
                range',
                full,
                line,
              )
            ];
      })
    ]
