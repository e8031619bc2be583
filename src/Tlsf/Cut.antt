-- ===== src/Tlsf/Cut.antt =====
-- A free block that is taken, whole or up to a size, leaves a valid pool.
use xmertl.Base.{ℕ, ◌+◌, ◌%◌, ◌^◌, ◌≤◌, ◌<◌, ◌≡◌, ◌∙◌, ap, refl, inl, inr, ◌⊎◌, arith}
use xmertl.Base.{Bool, true, false, ◌||◌, List}
use xmertl.Base.{◌==◌, if◌then◌else◌, Bool-cases}
use xmertl.Tlsf.{mapping_insert}
use xmertl.Tlsf.Fit.{mapping_insert-IsInRange}
use xmertl.Tlsf.Blocks.{
  Tlsf, next_block, unlisted, insert_block, cut_block, split_at, take_block, insert_mapped,
}
use xmertl.Tlsf.Pool.{IsPool, IsUnlisted, IsListed, insert_block-IsListed}

-- The blocks of a pool once one more begins at `b`.
abbrev pub with_block : (ℕ → Bool) → ℕ → ℕ → Bool
with_block is_block b u = is_block u || (u == b)

module _ (is_block : ℕ → Bool) (low last : ℕ) (t : Tlsf) (p : IsPool is_block low last t) where
  -- The ends of two blocks differ.
  pub ends :
      (b c : ℕ) → is_block b ≡ true → is_block c ≡ true → next_block b t ≡ next_block c t → b ≡ c
  ends b c hb hc e = ground (arith, p.gap b c hb, p.gap c b hc, hb, hc, e)

  pub end-le_last : (b : ℕ) → is_block b ≡ true → next_block b t ≤ last
  end-le_last b hb = ground (arith, p.gap b last hb, p.bound b hb)

module _ (is_block : ℕ → Bool) (low last : ℕ) (t : Tlsf) (p : IsPool is_block low last t)
    (b i j : ℕ) (list : List ℕ) (hb : is_block b ≡ true) (fb : t.is_free b ≡ true)
    (un : IsUnlisted b t (unlisted i j list t)) where
  pub take_block-IsPool : IsPool is_block low last (take_block b (unlisted i j list t))
  unfolding take_block unlisted
  take_block-IsPool = record {
    bitmaps = un.bitmaps;
    links = λ u k l. ground (arith, un.links u k l, p.links u k l);
    shape = p.shape;
    bound = p.bound;
    room = p.room;
    next = p.next;
    gap = p.gap;
    ending = ground (arith, p.ending);
    told = λ c hc. ground (arith, p.told c hc, ends is_block low last t p c b hc hb);
    back = λ c hc e. ground (arith, p.back c hc, p.told b hb, e);
    alone = λ c hc fc. ground (arith, p.alone c hc, fc);
  }

  module _ (size rest : ℕ) (e : size + 8 + rest ≡ t.size b) (hs : 8 ≤ size) (hr : 8 ≤ rest)
      (es : size % 8 ≡ 0) where
    rest_lem : (is_block (b + 8 + size) ≡ false) × (b + 8 + size < last) × (rest < 2 ^ 30)
    rest_lem = ground (
      arith,
      p.gap b (b + 8 + size) hb,
      p.bound b hb,
      end-le_last is_block low last t p b hb,
      p.room,
      e,
    )

    rest-IsListed :
        IsListed
          (b + 8 + size)
          rest
          (cut_block b size rest (unlisted i j list t))
          (insert_mapped (b + 8 + size) rest (cut_block b size rest (unlisted i j list t)))
    unfolding cut_block unlisted
    rest-IsListed =
        let range = mapping_insert-IsInRange rest rest_lem.2 in
        insert_block-IsListed (b + 8 + size) (mapping_insert rest).fl (mapping_insert rest).sl
          (cut_block b size rest (unlisted i j list t)) un.bitmaps (omega (arith, range))
          (omega (arith, range)) rest refl refl
          (λ c d. ground (arith, un.links (b + 8 + size) c d, p.links (b + 8 + size) c d, rest_lem))

    next_lem :
        (c : ℕ)
        → next_block c (split_at b size rest (unlisted i j list t)) ≡ (
            if c == b
            then b + 8 + size
            else if c == b + 8 + size
            then next_block b t
            else next_block c t)
    unfolding cut_block unlisted insert_block
    next_lem c = ground (arith, e)

    -- The blocks after the cut: the two parts, and the others, whose ends are where they were.
    parts :
        (c : ℕ)
        → with_block is_block (b + 8 + size) c ≡ true
        → ((c ≡ b) × (next_block c (split_at b size rest (unlisted i j list t)) ≡ b + 8 + size))
          ⊎ (((c ≡ b + 8 + size)
                × (next_block c (split_at b size rest (unlisted i j list t)) ≡ next_block b t))
              ⊎ ((is_block c ≡ true)
                  × (c == b ≡ false)
                  × (c == b + 8 + size ≡ false)
                  × (next_block c (split_at b size rest (unlisted i j list t)) ≡ next_block c t)
                  × (next_block c t == next_block b t ≡ false)
                  × (next_block c t == b + 8 + size ≡ false)))
    parts c hc = elim (Bool-cases (c == b)) [
      | inl x ↦ inl (ground (arith, x), ground (arith, next_lem c, x))
      | inr x ↦ elim (Bool-cases (c == b + 8 + size)) [
        | inl y ↦ inr (inl (ground (arith, y), ground (arith, next_lem c, x, y)))
        | inr y ↦
            let old : is_block c ≡ true = ground (arith, hc, y) in
            inr (
              inr (
                old,
                x,
                y,
                ground (arith, next_lem c, x, y),
                ground (arith, ends is_block low last t p c b old hb, x),
                ground (
                  arith,
                  p.gap c b,
                  p.gap b c hb,
                  x,
                  y,
                  old,
                  hb,
                  e,
                  rest_lem,
                  p.next c old,
                  p.gap b (next_block c t) hb,
                  p.bound b hb,
                ),
              ))
      ]
    ]

    pub split_at-IsPool :
        IsPool
          (with_block is_block (b + 8 + size))
          low
          last
          (split_at b size rest (unlisted i j list t))
    unfolding cut_block unlisted insert_block
    split_at-IsPool =
        let listed = rest-IsListed in
        let t' = split_at b size rest (unlisted i j list t) in
        record {
          bitmaps = listed.bitmaps;
          links =
              λ u k l. ground (arith, listed.links u k l, un.links u k l, p.links u k l, rest_lem);
          shape = λ c hc. ground (arith, p.shape c, e, hs, hr, es, p.shape b hb, hc);
          bound = λ c hc. ground (arith, p.bound c, p.bound b hb, rest_lem, hc);
          room = p.room;
          next = λ c hc. ground (arith, p.next c, p.next b hb, hc, e, rest_lem);
          gap = λ c d hc hd l. ground (
            arith,
            p.gap c d,
            p.gap b d hb,
            p.gap b c hb,
            p.gap c b,
            p.gap c last,
            end-le_last is_block low last t p b hb,
            p.bound c,
            hb,
            hc,
            hd,
            l,
            e,
            rest_lem,
          );
          ending = ground (arith, p.ending, rest_lem, p.bound b hb);
          told = λ c hc. elim (parts c hc) [
            | inl (x, n) ↦ ap t'.prev_free n ∙ ground (arith, x, e)
            | inr (inl (x, n)) ↦ ap t'.prev_free n ∙ ground (arith, x, p.told b hb, e)
            | inr (inr (old, x, y, n, z, w)) ↦
                ap t'.prev_free n ∙ ground (arith, p.told c old, x, y, z, w)
          ];
          back = λ c hc f. ground (arith, p.back c, p.told b hb, hc, f, e, rest_lem, hb, fb);
          alone = λ c hc fc. elim (parts c hc) [
            | inl (x, n) ↦ absurd (ground (arith, x, fc))
            | inr (inl (x, n)) ↦ ap t'.is_free n ∙ ground (arith, x, p.alone b hb fb, e)
            | inr (inr (old, x, y, n, z, w)) ↦
                ap t'.is_free n ∙ ground (arith, p.alone c old, x, y, z, w, fc)
          ];
        }
