-- ===== src/Tlsf/Realloc.antt =====
-- What `realloc_ex` does to a block in use.
use xmertl.Base.{ℕ, ◌+◌, ◌-◌, ◌%◌, ◌^◌, ◌≤◌, ◌<◌, ◌≡◌, ◌∙◌, ap, sym, refl, inl, inr, ◌⊎◌, arith}
use xmertl.Base.{Bool, true, false, ◌&&◌}
use xmertl.Base.{ltb, leb, ◌==◌, Bool-cases}
use xmertl.Tlsf.Blocks.{Tlsf, next_block, sub_size, malloc_ex, free_ex, rounded}
use xmertl.Tlsf.Pool.{IsPool}
use xmertl.Tlsf.Cut.{end-le_last}
use xmertl.Tlsf.Use.{IsAllocated, charged}
use xmertl.Tlsf.Malloc.{IsRefused, malloc_ex-IsPool, rounded_lem, rounded-le, IsAllocated-le}
use xmertl.Tlsf.Free.{IsFreed, free_ex-IsPool}
use xmertl.Tlsf.Resize.{realloc_ex, recharged, trimmed, enlarged}
use xmertl.Tlsf.Sized.{IsSized}
use xmertl.Tlsf.Inplace.{trimmed_alone, trimmed_wide, grown_wide}

-- The block stays where it is, and `used_size` counts its new bytes.
pub record IsInPlace (is_block now : ℕ → Bool) (low last b size : ℕ) (t t' : Tlsf) : Type 0 where
  pub sized : IsSized is_block now low last b size t t'
  pub used : t'.used_size ≡ (sub_size t.used_size (t.size b + 8) + (t'.size b + 8)) % 2 ^ 32

-- The block `c` takes the place of `b`, and the other used blocks are those that were.
pub record IsMoved (is_block now : ℕ → Bool) (low last b c size : ℕ) (t t' : Tlsf) : Type 0 where
  pub pool : IsPool now low last t'
  pub block : (now c ≡ true) × (t'.is_free c ≡ false) × (c == b ≡ false)
  pub room : size ≤ t'.size c
  pub kept :
      (u : ℕ)
      → is_block u ≡ true
      → t.is_free u ≡ false
      → u == b ≡ false
      → (now u ≡ true) × (t'.is_free u ≡ false) × (t'.size u ≡ t.size u)
  pub old :
      (u : ℕ)
      → now u ≡ true
      → t'.is_free u ≡ false
      → u == c ≡ false
      → (is_block u ≡ true) × (t.is_free u ≡ false) × (u == b ≡ false)
  pub fresh : (is_block c ≡ true) × (t.is_free c ≡ true)
  pub used : t'.used_size ≡ sub_size ((t.used_size + (t'.size c + 8)) % 2 ^ 32) (t.size b + 8)

recharged-IsInPlace :
    {is_block now : ℕ → Bool}
    → {low last b size : ℕ} → {t s : Tlsf} → IsSized is_block now low last b size t s
    → IsInPlace is_block now low last b size t (recharged b t s)
unfolding recharged
recharged-IsInPlace {now = now} {low = low} {last = last} {b = b} {t = t} {s = s} z = record {
  sized = record {
    pool =
        charged now low last s z.pool
          ((sub_size t.used_size (t.size b + 8) + (s.size b + 8)) % 2 ^ 32);
    block = z.block;
    room = z.room;
    kept = z.kept;
    old = z.old;
  };
  used = refl;
}

moved :
    {is_block more less : ℕ → Bool}
    → {low last b c size : ℕ} → {t s t' : Tlsf} → is_block b ≡ true
    → t.is_free b ≡ false
    → IsAllocated is_block more low last size c t s
    → IsFreed more less low last b s t'
    → IsMoved is_block less low last b c size t t'
moved {is_block = is_block} {b = b} {c = c} {t = t} {s = s} {t' = t'} hb fb a f =
    let other : c == b ≡ false = ground (arith, a.taken, fb) in
    let still = f.kept c a.taken.3 a.taken.2 other in
    record {
      pool = f.pool;
      block = (still.0, still.1, other);
      room = omega (arith, still.2, a.room);
      kept = λ u hu fu n.
          let (x, y, z) = a.kept u hu (ground (arith, a.taken, fu)) in
          let (x', y', z') = f.kept u x (y ∙ fu) n in (x', y', z' ∙ z);
      old = λ u hu fu n.
          let (x, y, z) = f.old u hu fu in
          ground (arith, a.fresh u x, a.kept u, x, y, z, n, a.taken);
      fresh = (a.taken.0, a.taken.1);
      used =
          let same = (a.kept b hb (ground (arith, a.taken, fb))).2 in
          f.used
          ∙ ap (λ n. sub_size n (s.size b + 8))
              (a.used ∙ ap (λ n. (t.used_size + (n + 8)) % 2 ^ 32) (sym still.2))
          ∙ ap (λ n. sub_size ((t.used_size + (t'.size c + 8)) % 2 ^ 32) (n + 8)) same;
    }

-- What `realloc_ex` gives: the block with the bytes, in place or moved with its bytes, or a null pointer.
-- In the last case the block is freed all the same, and its bytes are copied to the address 0.
pub record IsReallocated {ℓ} {Memory : Type ℓ} (memcpy : ℕ → ℕ → ℕ → Memory → Memory)
    (is_block now : ℕ → Bool) (low last b size : ℕ) (t : Tlsf) (m : Memory)
    (result : ℕ × Tlsf × Memory) : Type ℓ where
  pub cases :
      ((result.0 ≡ b + 8) × (result.2 ≡ m) × IsInPlace is_block now low last b size t result.1)
      ⊎ (((c : ℕ) × (result.0 ≡ c + 8)
            × (result.2 ≡ memcpy (c + 8) (b + 8) (t.size b) m)
            × IsMoved is_block now low last b c size t result.1)
          ⊎ ((result.0 ≡ 0)
              × (result.2 ≡ memcpy 0 (b + 8) (t.size b) m)
              × IsFreed is_block now low last b t result.1
              × IsRefused is_block (rounded size) t (malloc_ex (rounded size) t)))

-- No bytes: the block is freed.
pub realloc_ex-free {ℓ} :
    {Memory : Type ℓ}
    → (memcpy : ℕ → ℕ → ℕ → Memory → Memory) → (b : ℕ) → (t : Tlsf) → (m : Memory)
    → realloc_ex memcpy (b + 8) 0 (t, m) ≡ (0, free_ex (b + 8) t, m)
unfolding realloc_ex
realloc_ex-free memcpy b t m =
    let some_ptr : b + 8 == 0 ≡ false = ground arith in rw (realloc_ex, some_ptr) refl

module _ {ℓ} {Memory : Type ℓ} (memcpy : ℕ → ℕ → ℕ → Memory → Memory) (is_block : ℕ → Bool)
    (low last : ℕ) (t : Tlsf) (p : IsPool is_block low last t) (b : ℕ) (hb : is_block b ≡ true)
    (fb : t.is_free b ≡ false) (size : ℕ) (some_size : 0 < size) (hs : size < 2 ^ 29 - 16)
    (m : Memory) where
  -- The three ways of a call with a block and a size
  in_place :
      leb (rounded size) (t.size b) ≡ true
      → realloc_ex memcpy (b + 8) size (t, m)
        ≡ (b + 8, recharged b t (trimmed b (rounded size) t), m)
  unfolding realloc_ex
  in_place e =
      let some_ptr : b + 8 == 0 ≡ false = ground arith in
      let wanted : size == 0 ≡ false = ground (arith, some_size) in
      let header : b + 8 - 8 ≡ b = omega arith in rw (realloc_ex, some_ptr, wanted, header, e) refl

  in_next :
      leb (rounded size) (t.size b) ≡ false
      → (t.is_free (next_block b t)
          && leb (rounded size) ((t.size b + t.size (next_block b t)) % 2 ^ 32))
        ≡ true
      → realloc_ex memcpy (b + 8) size (t, m)
        ≡ (b + 8, recharged b t (enlarged b (rounded size) t), m)
  unfolding realloc_ex
  in_next e f =
      let some_ptr : b + 8 == 0 ≡ false = ground arith in
      let wanted : size == 0 ≡ false = ground (arith, some_size) in
      let header : b + 8 - 8 ≡ b = omega arith in
      rw (realloc_ex, some_ptr, wanted, header, e, f) refl

  elsewhere :
      leb (rounded size) (t.size b) ≡ false
      → (t.is_free (next_block b t)
          && leb (rounded size) ((t.size b + t.size (next_block b t)) % 2 ^ 32))
        ≡ false
      → (malloc_ex (rounded size) t).1.size b ≡ t.size b
      → realloc_ex memcpy (b + 8) size (t, m) ≡ (
        (malloc_ex (rounded size) t).0,
        free_ex (b + 8) (malloc_ex (rounded size) t).1,
        memcpy (malloc_ex (rounded size) t).0 (b + 8) (t.size b) m,
      )
  unfolding realloc_ex
  elsewhere e f kept =
      let some_ptr : b + 8 == 0 ≡ false = ground arith in
      let wanted : size == 0 ≡ false = ground (arith, some_size) in
      let header : b + 8 - 8 ≡ b = omega arith in
      let less : ltb (rounded size) (t.size b) ≡ false = ground (arith, e) in
      rw (realloc_ex, some_ptr, wanted, header, e, f, kept, less) refl

  placed :
      (now : ℕ → Bool)
      → (s : Tlsf) → IsSized is_block now low last b (rounded size) t s
      → IsReallocated memcpy is_block now low last b size t m (b + 8, recharged b t s, m)
  placed now s z =
      let le = (rounded_lem size (omega (arith, hs))).0 in
      let z' : IsSized is_block now low last b size t s = record {
        pool = z.pool;
        block = z.block;
        room = omega (arith, z.room, le);
        kept = z.kept;
        old = z.old;
      } in
      record { cases = inl (refl, refl, recharged-IsInPlace z') }

  -- The block behind `b`, where it is free
  free_next : t.is_free (next_block b t) ≡ true → is_block (next_block b t) ≡ true
  free_next f = ground (arith, p.next b hb, p.ending, f)

  -- `realloc_ex` of the address of a used block of a valid pool, for 1 to 2 ^ 29 - 17 bytes, gives the bytes
  -- in place, or in another block with the old bytes copied, and leaves the pool valid with the other
  -- used blocks as they were; or a null pointer when `malloc_ex` gives none, and then the block is
  -- freed all the same and its bytes are copied to the address 0.
  pub realloc_ex-IsReallocated :
      (now : ℕ → Bool) × IsReallocated memcpy is_block now low last b size t m
        (realloc_ex memcpy (b + 8) size (t, m))
  realloc_ex-IsReallocated =
      let (le, least, most, eight) = rounded_lem size (omega (arith, hs)) in
      let r = rounded size in
      elim (Bool-cases (leb r (t.size b))) [
        | inl e ↦ rw (in_place e) (elim (Bool-cases (t.is_free (next_block b t))) [
          | inr f ↦
              let (now, z) =
                trimmed_alone is_block low last t p b hb fb r least eight (ground (arith, e)) f in
              (now, placed now (trimmed b r t) z)
          | inl f ↦
              let (now, z) =
                trimmed_wide is_block low last t p b hb fb r least eight (next_block b t) refl
                  (free_next f) f (ground (arith, e)) in
              (now, placed now (trimmed b r t) z)
        ])
        | inr e ↦
            elim (Bool-cases (
              t.is_free (next_block b t)
              && leb r ((t.size b + t.size (next_block b t)) % 2 ^ 32))) [
                | inl f ↦ rw (in_next e f) (
                    let c = next_block b t in
                    let fc : t.is_free c ≡ true = ground (arith, f) in
                    let hc = free_next fc in
                    let room = end-le_last is_block low last t p c hc in
                    let word : (t.size b + t.size c) % 2 ^ 32 ≡ t.size b + t.size c =
                      omega (arith, room, p.bound b hb, p.room) in
                    let fits : r ≤ t.size b + t.size c = ground (arith, f, word) in
                    let (now, z) =
                      grown_wide is_block low last t p b hb fb r least eight c refl hc fc fits in
                    (now, placed now (enlarged b r t) z))
                | inr f ↦
                    elim (malloc_ex-IsPool is_block low last t p r
                      (omega (arith, hs, rounded-le size (omega (arith, hs))))) [
                        | inl (more, c, a, ec) ↦
                            let other : b == c ≡ false = ground (arith, a.taken, fb) in
                            let still = a.kept b hb other in
                            let (less, g) =
                              free_ex-IsPool more low last b (malloc_ex r t).1 a.pool still.0
                                (still.1 ∙ fb) in
                            (
                              less,
                              rw (elsewhere e f still.2) (record {
                                cases = inr (
                                    inl (
                                      c,
                                      ec,
                                      ap (λ d. memcpy d (b + 8) (t.size b) m) ec,
                                      moved hb fb (IsAllocated-le size le a) g,
                                    ));
                              }),
                            )
                        | inr x ↦
                            let same : (malloc_ex r t).1.size b ≡ t.size b =
                              ap (λ y. y.1.size b) x.null in
                            let (less, g) = free_ex-IsPool is_block low last b t p hb fb in
                            (
                              less,
                              rw (elsewhere e f same) (record {
                                cases = inr (
                                    inr (
                                      ap (λ y. y.0) x.null,
                                      ap (λ y. memcpy y.0 (b + 8) (t.size b) m) x.null,
                                      rw (ap (λ y. y.1) x.null) g,
                                      x,
                                    ));
                              }),
                            )
                      ]
              ]
      ]
