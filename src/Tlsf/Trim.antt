-- ===== src/Tlsf/Trim.antt =====
-- A used block that gives its end back leaves a valid pool.
use xmertl.Base.{ℕ, ◌+◌, ◌%◌, ◌^◌, ◌≤◌, ◌<◌, ◌≡◌, ◌∙◌, ap, refl, inl, inr, ◌⊎◌, arith}
use xmertl.Base.{Bool, true, false}
use xmertl.Base.{◌==◌, Bool-cases}
use xmertl.Tlsf.{mapping_insert}
use xmertl.Tlsf.Fit.{mapping_insert-IsInRange}
use xmertl.Tlsf.Blocks.{Tlsf, next_block, insert_block, insert_mapped, poke}
use xmertl.Tlsf.Pool.{IsPool, IsListed, insert_block-IsListed}
use xmertl.Tlsf.Cut.{with_block, ends, end-le_last}
use xmertl.Tlsf.Resize.{cut_off}

module _ (is_block : ℕ → Bool) (low last : ℕ) (t : Tlsf) (p : IsPool is_block low last t)
    (b size rest : ℕ) (hb : is_block b ≡ true) (fb : t.is_free b ≡ false)
    (fn : t.is_free (next_block b t) ≡ false) (e : size + 8 + rest ≡ t.size b) (hs : 8 ≤ size)
    (hr : 8 ≤ rest) (es : size % 8 ≡ 0) where
  -- Where the rest begins
  there : (is_block (b + 8 + size) ≡ false) × (b + 8 + size < last) × (rest < 2 ^ 30)
  there = ground (
    arith,
    p.gap b (b + 8 + size) hb,
    p.bound b hb,
    end-le_last is_block low last t p b hb,
    p.room,
    e,
  )

  -- The headers before the rest is listed
  abbrev header : Tlsf
  header = record t {
    size = poke (b + 8 + size) rest t.size;
    is_free = poke (b + 8 + size) true t.is_free;
    prev_free = poke (next_block b t) true (poke (b + 8 + size) false t.prev_free);
    prev_hdr = poke (next_block b t) (b + 8 + size) t.prev_hdr;
  }

  rest-IsListed : IsListed (b + 8 + size) rest header (insert_mapped (b + 8 + size) rest header)
  rest-IsListed =
      let range = mapping_insert-IsInRange rest there.2 in
      insert_block-IsListed (b + 8 + size) (mapping_insert rest).fl (mapping_insert rest).sl header
        p.bitmaps (omega (arith, range)) (omega (arith, range)) rest refl refl
        (λ c d. ground (arith, p.links (b + 8 + size) c d, there))

  abbrev after : Tlsf
  after = cut_off b size rest (next_block b t) t

  -- The blocks afterwards: the two parts, and the others, whose ends are where they were.
  two_parts :
      (c : ℕ)
      → with_block is_block (b + 8 + size) c ≡ true
      → ((c ≡ b) × (next_block c after ≡ b + 8 + size))
        ⊎ (((c ≡ b + 8 + size) × (next_block c after ≡ next_block b t))
            ⊎ ((is_block c ≡ true)
                × (c == b ≡ false)
                × (c == b + 8 + size ≡ false)
                × (next_block c after ≡ next_block c t)
                × (next_block c t == next_block b t ≡ false)
                × (next_block c t == b + 8 + size ≡ false)))
  unfolding cut_off insert_block
  two_parts c hc = elim (Bool-cases (c == b)) [
    | inl x ↦ inl (ground (arith, x), ground (arith, x))
    | inr x ↦ elim (Bool-cases (c == b + 8 + size)) [
      | inl y ↦ inr (inl (ground (arith, y), ground (arith, x, y, e)))
      | inr y ↦
          let old : is_block c ≡ true = ground (arith, hc, y) in
          inr (
            inr (
              old,
              x,
              y,
              ground (arith, x, y),
              ground (arith, ends is_block low last t p c b old hb, x),
              ground (
                arith,
                p.gap b c hb,
                x,
                y,
                old,
                hb,
                e,
                there,
                p.next c old,
                p.gap b (next_block c t) hb,
                p.bound b hb,
              ),
            ))
    ]
  ]

  pub cut_off-IsPool : IsPool (with_block is_block (b + 8 + size)) low last after
  unfolding cut_off insert_block
  cut_off-IsPool =
      let listed = rest-IsListed in
      record {
        bitmaps = listed.bitmaps;
        links = λ u k l. ground (arith, listed.links u k l, p.links u k l, there, fb);
        shape = λ c hc. ground (arith, p.shape c, e, hs, hr, es, p.shape b hb, hc);
        bound = λ c hc. ground (arith, p.bound c, p.bound b hb, there, hc);
        room = p.room;
        next = λ c hc. ground (arith, p.next c, p.next b hb, hc, e, there);
        gap = λ c d hc hd l. ground (
          arith,
          p.gap c d,
          p.gap b d hb,
          p.gap b c hb,
          p.gap c b,
          p.gap c last,
          end-le_last is_block low last t p b hb,
          p.bound c,
          hb,
          hc,
          hd,
          l,
          e,
          there,
        );
        ending = ground (arith, p.ending, there, p.bound b hb);
        told = λ c hc. elim (two_parts c hc) [
          | inl (x, n) ↦ ap after.prev_free n ∙ ground (arith, x, e)
          | inr (inl (x, n)) ↦ ap after.prev_free n ∙ ground (arith, x, e)
          | inr (inr (old, x, y, n, z, w)) ↦
              ap after.prev_free n ∙ ground (arith, p.told c old, x, y, z, w)
        ];
        back = λ c hc f. ground (arith, p.back c, p.told b hb, hc, f, e, there, hb, fb);
        alone = λ c hc fc. elim (two_parts c hc) [
          | inl (x, n) ↦ absurd (ground (arith, x, fc))
          | inr (inl (x, n)) ↦ ap after.is_free n ∙ ground (arith, x, fn, e)
          | inr (inr (old, x, y, n, z, w)) ↦
              ap after.is_free n ∙ ground (arith, p.alone c old, x, y, z, w, fc)
        ];
      }
