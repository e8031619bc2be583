-- ===== src/Tlsf/Use.antt =====
-- A block that the search gave is used: what an allocation is.
use xmertl.Base.{ℕ, ◌+◌, ◌-◌, ◌%◌, ◌^◌, ◌≤◌, ◌≡◌, ◌∙◌, ap, refl, inl, inr, ◌⊎◌, arith}
use xmertl.Base.{Bool, true, false, List}
use xmertl.Base.{leb, ◌==◌, Bool-cases}
use xmertl.Tlsf.Blocks.{
  Tlsf, next_block, unlisted, insert_block, sub_size, cut_block, split_at, split_block, take_block,
  use_block,
}
use xmertl.Tlsf.Pool.{IsPool, IsUnlisted}
use xmertl.Tlsf.Cut.{with_block, end-le_last, take_block-IsPool, split_at-IsPool}

-- The count of used bytes is not part of the shape of the pool.
pub charged :
    (is_block : ℕ → Bool)
    → (low last : ℕ) → (t : Tlsf) → IsPool is_block low last t
    → (n : ℕ) → IsPool is_block low last (record t { used_size = n })
charged is_block low last t q n = record {
  bitmaps = q.bitmaps;
  links = q.links;
  shape = q.shape;
  bound = q.bound;
  room = q.room;
  next = q.next;
  gap = q.gap;
  ending = q.ending;
  told = q.told;
  back = q.back;
  alone = q.alone;
}

-- What an allocation of `size` bytes does: the block `b` was free and is used, and has the bytes. The
-- other blocks are as they were, up to the rest of a block that is cut, which is free; the bytes are
-- apart from every block that was used.
pub record IsAllocated (is_block more : ℕ → Bool) (low last size b : ℕ) (t t' : Tlsf) : Type 0 where
  pub pool : IsPool more low last t'
  pub taken : (is_block b ≡ true) × (t.is_free b ≡ true) × (t'.is_free b ≡ false) × (more b ≡ true)
  pub room : size ≤ t'.size b
  pub kept :
      (u : ℕ)
      → is_block u ≡ true
      → u == b ≡ false
      → (more u ≡ true) × (t'.is_free u ≡ t.is_free u) × (t'.size u ≡ t.size u)
  pub fresh : (u : ℕ) → more u ≡ true → is_block u ≡ false → t'.is_free u ≡ true
  pub apart :
      (u : ℕ) → is_block u ≡ true → t.is_free u ≡ false → (next_block u t ≤ b) ⊎ (b + 8 + size ≤ u)
  pub used : t'.used_size ≡ (t.used_size + (t'.size b + 8)) % 2 ^ 32

module _ (is_block : ℕ → Bool) (low last : ℕ) (t : Tlsf) (p : IsPool is_block low last t)
    (b i j : ℕ) (list : List ℕ) (hb : is_block b ≡ true) (fb : t.is_free b ≡ true)
    (un : IsUnlisted b t (unlisted i j list t)) (size : ℕ) (hs : 8 ≤ size) (es : size % 8 ≡ 0)
    (le : size ≤ t.size b) where
  leaving : sub_size (t.size b) size ≡ t.size b - size
  leaving = ground (arith, le, end-le_last is_block low last t p b hb, p.bound b hb, p.room)

  others :
      (u : ℕ) → is_block u ≡ true → t.is_free u ≡ false → (next_block u t ≤ b) ⊎ (b + 8 + size ≤ u)
  others u hu n = ground (arith, p.gap u b hu, p.gap b u hb, hu, hb, n, fb, le)

  use_taken :
      leb 16 (t.size b - size) ≡ false
      → (more : ℕ → Bool) × IsAllocated is_block more low last size b t
          (use_block b size (unlisted i j list t)).1
  unfolding use_block unlisted take_block
  use_taken e =
      let small : leb 16 (sub_size (t.size b) size) ≡ false = rw leaving e in
      let q = take_block-IsPool is_block low last t p b i j list hb fb un in
      (
        is_block,
        rw small (record {
          pool =
              charged is_block low last (take_block b (unlisted i j list t)) q
                ((t.used_size + (t.size b + 8)) % 2 ^ 32);
          taken = (hb, fb, ground arith, hb);
          room = le;
          kept = λ u hu n. (hu, ground (arith, n), refl);
          fresh = λ u h h'. absurd (ground (arith, h, h'));
          apart = others;
          used = refl;
        }),
      )

  use_split :
      leb 16 (t.size b - size) ≡ true
      → (more : ℕ → Bool) × IsAllocated is_block more low last size b t
          (use_block b size (unlisted i j list t)).1
  unfolding use_block unlisted split_block cut_block insert_block
  use_split e =
      let large : leb 16 (sub_size (t.size b) size) ≡ true = rw leaving e in
      let left = t.size b - size - 8 in
      let room = end-le_last is_block low last t p b hb in
      let word : sub_size (sub_size (t.size b) size) 8 ≡ left =
        ap (λ n. sub_size n 8) leaving ∙ ground (arith, e, room, p.room, p.bound b hb) in
      let q =
        split_at-IsPool is_block low last t p b i j list hb fb un size left (ground (arith, e)) hs
          (ground (arith, e)) es in
      (
        with_block is_block (b + 8 + size),
        rw (large, word)
            (record {
              pool =
                  charged (with_block is_block (b + 8 + size)) low last
                    (split_at b size left (unlisted i j list t)) q
                    ((t.used_size + ((split_at b size left (unlisted i j list t)).size b + 8))
                      % 2 ^ 32);
              taken = (hb, fb, ground arith, ground (arith, hb));
              room = ground arith;
              kept = λ u hu n. (
                ground (arith, hu),
                ground (arith, n, hu, hb, p.gap b (b + 8 + size), e),
                ground (arith, n, hu, p.gap b (b + 8 + size), e),
              );
              fresh = λ u h h'. ground (arith, h, h', hb);
              apart = others;
              used = refl;
            }),
      )

  pub use_block_lem :
      (more : ℕ → Bool) × IsAllocated is_block more low last size b t
        (use_block b size (unlisted i j list t)).1
  use_block_lem = elim (Bool-cases (leb 16 (t.size b - size))) [
    | inl e ↦ use_split e
    | inr e ↦ use_taken e
  ]
