-- ===== src/Tlsf/Join.antt =====
-- The block that is given back joins the free blocks beside it.
use xmertl.Base.{ℕ, ◌+◌, ◌%◌, ◌^◌, ◌≤◌, ◌<◌, ◌≡◌, ◌∙◌, ap, refl, inl, inr, arith}
use xmertl.Base.{Bool, true, false}
use xmertl.Base.{◌==◌, Bool-cases}
use xmertl.Pthread.{erase}
use xmertl.Tlsf.{mapping_insert}
use xmertl.Tlsf.Fit.{mapping_insert-IsInRange}
use xmertl.Tlsf.Blocks.{Tlsf, next_block, unlisted, extract_block, poke, take_block}
use xmertl.Tlsf.Pool.{IsPool, IsUnlisted, extract_block-IsUnlisted}
use xmertl.Tlsf.Cut.{end-le_last, take_block-IsPool}
use xmertl.Tlsf.Merge.{without, alike-IsPool, merged-IsPool}
use xmertl.Tlsf.Blocks.{join_next, join_prev, extract_mapped}

-- `x` out of the lists, and the block `a` with the bytes of `c` behind it
abbrev pub joined : ℕ → ℕ → ℕ → Tlsf → Tlsf
joined x a c t = record (extract_mapped x t) { size = poke a (t.size a + (t.size c + 8)) t.size }

-- A block is marked free, and is in no list yet: without the mark, and the one behind it, the pool is
-- valid.
pub record IsHeld (is_block : ℕ → Bool) (low last b : ℕ) (t : Tlsf) : Type 0 where
  pub pool : IsPool is_block low last (take_block b t)
  pub block : is_block b ≡ true
  pub free : t.is_free b ≡ true

-- What a join does: the used blocks are as they were, and the block covers what it did.
pub record IsJoined (is_block less : ℕ → Bool) (low last b b' : ℕ) (t t' : Tlsf) : Type 0 where
  pub held : IsHeld less low last b' t'
  pub kept :
      (u : ℕ)
      → is_block u ≡ true
      → t.is_free u ≡ false
      → (less u ≡ true) × (t'.is_free u ≡ false) × (t'.size u ≡ t.size u)
  pub old : (u : ℕ) → less u ≡ true → is_block u ≡ true
  pub marks : (u : ℕ) → t'.is_free u ≡ t.is_free u
  pub covers : (b' ≤ b) × (next_block b t ≤ next_block b' t')
  pub used : t'.used_size ≡ t.used_size

module _ (is_block : ℕ → Bool) (low last b : ℕ) (t : Tlsf) (h : IsHeld is_block low last b t) where
  -- A free block leaves its list.
  out-IsUnlisted :
      (c : ℕ)
      → is_block c ≡ true
      → c == b ≡ false
      → t.is_free c ≡ true
      → IsUnlisted c (take_block b t) (extract_mapped c (take_block b t))
  unfolding take_block
  out-IsUnlisted c hc n fc =
      let p = h.pool in
      let small : t.size c < 2 ^ 30 =
        omega
          (arith, end-le_last is_block low last (take_block b t) p c hc, p.bound c hc, p.room) in
      let range = mapping_insert-IsInRange (t.size c) small in
      extract_block-IsUnlisted c (mapping_insert (t.size c)).fl (mapping_insert (t.size c)).sl
        (take_block b t) p.bitmaps (omega (arith, range)) (omega (arith, range))
        (λ i j m. ground (arith, p.links c i j, m))

  -- The pool without the free block `c`, whose bytes the block `a` before it gets.
  module _ (a c : ℕ) (ha : is_block a ≡ true) (hc : is_block c ≡ true)
      (e : next_block a t ≡ c) where
    sum-lt : (t.size a + (t.size c + 8)) % 2 ^ 32 ≡ t.size a + (t.size c + 8)
    unfolding take_block
    sum-lt =
        let p = h.pool in
        omega
          (arith, e, end-le_last is_block low last (take_block b t) p c hc, p.bound a ha, p.room)

  next_joined-IsHeld :
      (c : ℕ)
      → next_block b t ≡ c
      → t.is_free c ≡ true
      → is_block c ≡ true
      → IsHeld (without is_block c) low last b (joined c b c t)
  unfolding take_block extract_block unlisted
  next_joined-IsHeld c e f hc =
      let s = take_block b t in
      let m = mapping_insert (t.size c) in
      let list = erase c (t.matrix m.fl m.sl) in
      let un = out-IsUnlisted c hc (ground (arith, e)) f in
      let s1 = unlisted m.fl m.sl list s in
      let p =
        take_block-IsPool is_block low last s h.pool c m.fl m.sl list hc (ground (arith, e, f))
          un in
      let q =
        merged-IsPool is_block low last (take_block c s1) p b c h.block (ground (arith, e)) e hc
          (ground arith) in
      record {
        pool =
            alike-IsPool (without is_block c) low last
              (record (take_block c s1) { size = poke b (t.size b + (t.size c + 8)) t.size })
              (take_block b (joined c b c t)) q
              (record {
                bitmaps = q.bitmaps;
                matrix = λ i j. refl;
                size = λ u hu. refl;
                is_free = λ u hu. ground (arith, hu, h.pool.ending, e);
                prev_free = λ u hu. ground (arith, hu, h.pool.ending, hc, e);
                prev_hdr = λ u f'. refl;
              });
        block = ground (arith, h.block, e);
        free = h.free;
      }

  pub join_next_lem :
      (less : ℕ → Bool) × IsJoined is_block less low last b b t (join_next b t)
      × ((join_next b t).is_free (next_block b (join_next b t)) ≡ false)
  unfolding join_next take_block extract_block unlisted
  join_next_lem = elim (Bool-cases (t.is_free (next_block b t))) [
    | inr e ↦ (
      is_block,
      rw e (record {
        held = h;
        kept = λ u hu fu. (hu, fu, refl);
        old = λ u hu. hu;
        marks = λ u. refl;
        covers = omega arith;
        used = refl;
      }),
      rw e e,
    )
    | inl e ↦
        let c = next_block b t in
        let hc : is_block c ≡ true = ground (arith, e, h.pool.next b h.block, h.pool.ending) in
        let word = sum-lt b c h.block hc refl in
        let same : join_next b t ≡ joined c b c t = rw (e, word) refl in
        (
          without is_block c,
          rw same (record {
            held = next_joined-IsHeld c refl e hc;
            kept = λ u hu fu. (ground (arith, hu, e, fu), fu, ground (arith, fu, h.free));
            old = λ u hu. ground (arith, hu);
            marks = λ u. refl;
            covers = ground arith;
            used = refl;
          }),
          rw same (
              let n : next_block b (joined c b c t) ≡ next_block c t = ground arith in
              ap t.is_free n ∙ ground (arith, h.pool.alone c hc, e)),
        )
  ]

  prev_joined-IsHeld :
      (a : ℕ)
      → next_block a t ≡ b
      → t.is_free a ≡ true
      → is_block a ≡ true
      → IsHeld (without is_block b) low last a (joined a a b t)
  unfolding take_block extract_block unlisted
  prev_joined-IsHeld a e f ha =
      let s = take_block b t in
      let m = mapping_insert (t.size a) in
      let list = erase a (t.matrix m.fl m.sl) in
      let un = out-IsUnlisted a ha (ground (arith, e)) f in
      let s1 = unlisted m.fl m.sl list s in
      let p =
        take_block-IsPool is_block low last s h.pool a m.fl m.sl list ha (ground (arith, e, f))
          un in
      let q =
        merged-IsPool is_block low last (take_block a s1) p a b ha (ground arith) e h.block
          (ground (arith, e)) in
      record {
        pool =
            alike-IsPool (without is_block b) low last
              (record (take_block a s1) { size = poke a (t.size a + (t.size b + 8)) t.size })
              (take_block a (joined a a b t)) q
              (record {
                bitmaps = q.bitmaps;
                matrix = λ i j. refl;
                size = λ u hu. refl;
                is_free = λ u hu. ground (arith, hu, h.pool.ending, e, h.block);
                prev_free = λ u hu. ground (arith, hu, h.pool.ending, h.block, e);
                prev_hdr = λ u f'. refl;
              });
        block = ground (arith, ha, e);
        free = f;
      }

  -- The block before a block that it is told of, which is free, and the one before that is not.
  before :
      t.prev_free b ≡ true
      → (is_block (t.prev_hdr b) ≡ true)
        × (t.is_free (t.prev_hdr b) ≡ true)
        × (next_block (t.prev_hdr b) t ≡ b)
        × (t.prev_free (t.prev_hdr b) ≡ false)
  unfolding take_block
  before e =
      let p = h.pool in
      let (ha, fa, n) = p.back b (ground (arith, h.block)) (ground (arith, e)) in
      let a = t.prev_hdr b in
      let first : t.prev_free a ≡ false = elim (Bool-cases (t.prev_free a)) [
        | inr x ↦ x
        | inl x ↦
            let (hd, fd, n') = p.back a (ground (arith, ha)) (ground (arith, x, n)) in
            absurd
              (ground (arith, p.alone (t.prev_hdr a) hd fd, ap (take_block b t).is_free n', fa))
      ] in
      (ha, ground (arith, fa), n, first)

  pub join_prev_lem :
      (less : ℕ → Bool) × IsJoined is_block less low last b (join_prev b t).0 t (join_prev b t).1
      × ((join_prev b t).1.prev_free (join_prev b t).0 ≡ false)
      × (next_block (join_prev b t).0 (join_prev b t).1 ≡ next_block b t)
  unfolding join_prev extract_block unlisted
  join_prev_lem = elim (Bool-cases (t.prev_free b)) [
    | inr e ↦ (
      is_block,
      rw e (record {
        held = h;
        kept = λ u hu fu. (hu, fu, refl);
        old = λ u hu. hu;
        marks = λ u. refl;
        covers = omega arith;
        used = refl;
      }),
      rw e e,
      rw e refl,
    )
    | inl e ↦
        let a = t.prev_hdr b in
        let (ha, f, n, first) = before e in
        let word = sum-lt a b ha h.block n in
        let same : join_prev b t ≡ (a, joined a a b t) = rw (e, word) refl in
        (
          without is_block b,
          rw same (record {
            held = prev_joined-IsHeld a n f ha;
            kept = λ u hu fu. (ground (arith, hu, h.free, fu), fu, ground (arith, fu, f));
            old = λ u hu. ground (arith, hu);
            marks = λ u. refl;
            covers = ground (arith, n);
            used = refl;
          }),
          rw same first,
          rw same (ground (arith, n)),
        )
  ]
