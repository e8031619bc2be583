-- ===== src/Tlsf/Sized.antt =====
-- A used block gets another size: by itself, with the free block behind it, or cut.
use xmertl.Base.{ℕ, ◌+◌, ◌%◌, ◌^◌, ◌≤◌, ◌<◌, ◌≡◌, refl, arith}
use xmertl.Base.{Bool, true, false}
use xmertl.Base.{◌==◌}
use xmertl.Pthread.{erase}
use xmertl.Tlsf.{mapping_insert}
use xmertl.Tlsf.Fit.{mapping_insert-IsInRange}
use xmertl.Tlsf.Blocks.{
  Tlsf, next_block, insert_block, extract_mapped, extract_block, unlisted, poke, take_block,
}
use xmertl.Tlsf.Pool.{IsPool, extract_block-IsUnlisted}
use xmertl.Tlsf.Cut.{with_block, end-le_last, take_block-IsPool}
use xmertl.Tlsf.Merge.{without, IsAlike, alike-IsPool, merged-IsPool}
use xmertl.Tlsf.Trim.{cut_off-IsPool}
use xmertl.Tlsf.Resize.{cut_off}

-- The block `b` is used and has the bytes, the other used blocks are those that were.
pub record IsSized (is_block now : ℕ → Bool) (low last b size : ℕ) (t t' : Tlsf) : Type 0 where
  pub pool : IsPool now low last t'
  pub block : (now b ≡ true) × (t'.is_free b ≡ false)
  pub room : size ≤ t'.size b
  pub kept :
      (u : ℕ)
      → is_block u ≡ true
      → t.is_free u ≡ false
      → u == b ≡ false
      → (now u ≡ true) × (t'.is_free u ≡ false) × (t'.size u ≡ t.size u)
  pub old :
      (u : ℕ) → now u ≡ true → t'.is_free u ≡ false → (is_block u ≡ true) × (t.is_free u ≡ false)

pub alike-IsSized :
    {is_block now : ℕ → Bool}
    → {low last b size : ℕ} → {t s : Tlsf} → (t' : Tlsf) → IsSized is_block now low last b size t s
    → IsAlike now last s t'
    → IsSized is_block now low last b size t t'
alike-IsSized {now = now} {low = low} {last = last} {b = b} {s = s} t' z a = record {
  pool = alike-IsPool now low last s t' z.pool a;
  block = ground (arith, z.block, a.is_free b);
  room = ground (arith, z.room, z.block, a.size b);
  kept = λ u hu fu n. ground (arith, z.kept u hu fu n, a.is_free u, a.size u);
  old = λ u hu fu. ground (arith, z.old u, a.is_free u, hu, fu);
}

-- A block that is cut, with no free block behind it.
pub cut_off-IsSized :
    {is_block now : ℕ → Bool}
    → {low last b had : ℕ} → {t s : Tlsf} → IsSized is_block now low last b had t s
    → (size rest : ℕ) → size + 8 + rest ≡ s.size b
    → 8 ≤ size
    → 8 ≤ rest
    → size % 8 ≡ 0
    → s.is_free (next_block b s) ≡ false
    → IsSized is_block
        (with_block now (b + 8 + size))
        low
        last
        b
        size
        t
        (cut_off b size rest (next_block b s) s)
unfolding cut_off insert_block
cut_off-IsSized {now = now} {low = low} {last = last} {b = b} {s = s} z size rest e hs hr es fn =
    let apart : now (b + 8 + size) ≡ false =
      ground (arith, z.pool.gap b (b + 8 + size), z.block, e) in
    record {
      pool = cut_off-IsPool now low last s z.pool b size rest z.block.0 z.block.1 fn e hs hr es;
      block = ground (arith, z.block);
      room = ground arith;
      kept = λ u hu fu n. ground (arith, z.kept u hu fu n, apart);
      old = λ u hu fu. ground (arith, z.old u, hu, fu, z.block);
    }

module _ (is_block : ℕ → Bool) (low last : ℕ) (t : Tlsf) (p : IsPool is_block low last t) (b : ℕ)
    (hb : is_block b ≡ true) (fb : t.is_free b ≡ false) where
  pub same-IsSized : IsSized is_block is_block low last b (t.size b) t t
  same-IsSized = record {
    pool = p;
    block = (hb, fb);
    room = omega arith;
    kept = λ u hu fu n. (hu, fu, refl);
    old = λ u hu fu. (hu, fu);
  }

  module _ (c : ℕ) (e : next_block b t ≡ c) (hc : is_block c ≡ true) (fc : t.is_free c ≡ true) where
    -- The block with the free one behind it
    abbrev pub wide : Tlsf
    wide =
        let out = take_block c (extract_mapped c t) in
        record out { size = poke b (t.size b + (t.size c + 8)) t.size }

    pub wide-IsSized :
        IsSized is_block (without is_block c) low last b (t.size b + (t.size c + 8)) t wide
    unfolding take_block extract_block unlisted
    wide-IsSized =
        let m = mapping_insert (t.size c) in
        let small : t.size c < 2 ^ 30 =
          omega (arith, end-le_last is_block low last t p c hc, p.bound c hc, p.room) in
        let range = mapping_insert-IsInRange (t.size c) small in
        let un =
          extract_block-IsUnlisted c m.fl m.sl t p.bitmaps (omega (arith, range))
            (omega (arith, range)) (λ i j h. ground (arith, p.links c i j, h)) in
        let list = erase c (t.matrix m.fl m.sl) in
        let q = take_block-IsPool is_block low last t p c m.fl m.sl list hc fc un in
        record {
          pool =
              merged-IsPool is_block low last (take_block c (extract_mapped c t)) q b c hb
                (ground (arith, fb)) e hc (ground arith);
          block = ground (arith, hb, fb, fc);
          room = ground arith;
          kept = λ u hu fu n. ground (arith, hu, fu, n, fc);
          old = λ u hu fu. ground (arith, hu, fu);
        }
