-- ===== src/Tlsf/Merge.antt =====
-- Two used blocks side by side that become one leave a valid pool.
use xmertl.Base.{ℕ, ◌+◌, ◌≡◌, ◌∙◌, ap, inl, inr, ◌⊎◌, arith}
use xmertl.Base.{Bool, true, false, not, ◌&&◌, ◌||◌}
use xmertl.Base.{◌==◌, Bool-cases}
use xmertl.Pthread.Lists.{mem}
use xmertl.Pthread.Bitmaps.{IsBitmapped}
use xmertl.Tlsf.Blocks.{Tlsf, next_block, poke}
use xmertl.Tlsf.Pool.{view, IsPool}
use xmertl.Tlsf.Cut.{ends}

-- The blocks of a pool without the one at `b`.
abbrev pub without : (ℕ → Bool) → ℕ → ℕ → Bool
without is_block b u = is_block u && not (u == b)

-- Two pools have the same lists, and the same headers where blocks are.
pub record IsAlike (is_block : ℕ → Bool) (last : ℕ) (s t : Tlsf) : Type 0 where
  pub bitmaps : IsBitmapped (view t)
  pub matrix : (i j : ℕ) → t.matrix i j ≡ s.matrix i j
  pub size : (u : ℕ) → is_block u ≡ true → t.size u ≡ s.size u
  pub is_free : (u : ℕ) → (is_block u || (u == last)) ≡ true → t.is_free u ≡ s.is_free u
  pub prev_free : (u : ℕ) → (is_block u || (u == last)) ≡ true → t.prev_free u ≡ s.prev_free u
  pub prev_hdr : (u : ℕ) → t.prev_free u ≡ true → t.prev_hdr u ≡ s.prev_hdr u

pub alike-IsPool :
    (is_block : ℕ → Bool)
    → (low last : ℕ) → (s t : Tlsf) → IsPool is_block low last s
    → IsAlike is_block last s t
    → IsPool is_block low last t
alike-IsPool is_block low last s t p a =
    let same : (b : ℕ) → is_block b ≡ true → next_block b t ≡ next_block b s =
      λ b hb. ap (λ n. b + 8 + n) (a.size b hb) in
    record {
      bitmaps = a.bitmaps;
      links =
          λ u i j. ap (mem u) (a.matrix i j) ∙ ground (arith, p.links u i j, a.size u, a.is_free u);
      shape = λ b hb. ground (arith, p.shape b hb, a.size b hb);
      bound = p.bound;
      room = p.room;
      next = λ b hb. ap (λ n. is_block n || (n == last)) (same b hb) ∙ p.next b hb;
      gap = λ b c hb hc l. ground (arith, p.gap b c hb hc l, same b hb);
      ending = ground (arith, p.ending, a.is_free last);
      told = λ b hb.
          ap t.prev_free (same b hb)
          ∙ ground (arith, a.prev_free (next_block b s), p.next b hb, p.told b hb, a.is_free b, hb);
      back = λ c hc e.
          let (x, y, z) = p.back c hc (ground (arith, a.prev_free c hc, e)) in
          let n = a.prev_hdr c e in
          (
            ap is_block n ∙ x,
            ap t.is_free n ∙ ground (arith, a.is_free (s.prev_hdr c), x, y),
            ap (λ m. next_block m t) n ∙ same (s.prev_hdr c) x ∙ z,
          );
      alone = λ b hb fb.
          ap t.is_free (same b hb)
          ∙ ground
              (arith, a.is_free (next_block b s), p.next b hb, p.alone b hb, a.is_free b, hb, fb);
    }

module _ (is_block : ℕ → Bool) (low last : ℕ) (t : Tlsf) (p : IsPool is_block low last t) (a c : ℕ)
    (ha : is_block a ≡ true) (fa : t.is_free a ≡ false) (e : next_block a t ≡ c)
    (hc : is_block c ≡ true) (fc : t.is_free c ≡ false) where
  -- The block `a` gets the bytes and the header of `c`.
  abbrev pub merged : Tlsf
  merged = record t { size = poke a (t.size a + (t.size c + 8)) t.size }

  ends_apart : (d : ℕ) → is_block d ≡ true → d == a ≡ false → next_block d t == c ≡ false
  ends_apart d hd n = ground (arith, ends is_block low last t p d a hd ha, n, e)

  -- The ends of the blocks after the merge.
  merged_parts :
      (b : ℕ)
      → without is_block c b ≡ true
      → ((b ≡ a) × (next_block b merged ≡ next_block c t) × (next_block c t == c ≡ false))
        ⊎ ((is_block b ≡ true)
            × (b == a ≡ false)
            × (next_block b merged ≡ next_block b t)
            × (next_block b t == c ≡ false))
  merged_parts b hb = elim (Bool-cases (b == a)) [
    | inl x ↦ inl (ground (arith, x), ground (arith, x, e), ground arith)
    | inr x ↦
        let old : is_block b ≡ true = ground (arith, hb) in
        inr (old, x, ground (arith, x), ends_apart b old x)
  ]

  pub merged-IsPool : IsPool (without is_block c) low last merged
  merged-IsPool = record {
    bitmaps = p.bitmaps;
    links = λ u i j. ground (arith, p.links u i j, fa, fc);
    shape = λ b hb. ground (arith, p.shape b, p.shape a ha, p.shape c hc, hb);
    bound = λ b hb. ground (arith, p.bound b, hb);
    room = p.room;
    next = λ b hb. elim (merged_parts b hb) [
      | inl (x, n, y) ↦
          ap (λ u. without is_block c u || (u == last)) n ∙ ground (arith, p.next c hc, y)
      | inr (old, x, n, y) ↦
          ap (λ u. without is_block c u || (u == last)) n ∙ ground (arith, p.next b old, y)
    ];
    gap = λ b d hb hd l. ground (arith, p.gap b d, p.gap c d hc, hb, hd, l, e);
    ending = ground (arith, p.ending);
    told = λ b hb. elim (merged_parts b hb) [
      | inl (x, n, y) ↦ ap t.prev_free n ∙ ground (arith, p.told c hc, x, fa, fc)
      | inr (old, x, n, y) ↦ ap t.prev_free n ∙ p.told b old
    ];
    back = λ d hd f. ground (arith, p.back d, hd, f, fa, fc);
    alone = λ b hb fb. ground (arith, p.alone b, hb, fb, fa);
  }
