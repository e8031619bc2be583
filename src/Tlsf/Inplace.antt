-- ===== src/Tlsf/Inplace.antt =====
-- `realloc_ex` where the block stays at its address.
use xmertl.Base.{ℕ, ◌+◌, ◌-◌, ◌%◌, ◌^◌, ◌≤◌, ◌<◌, ◌≡◌, ◌∙◌, ap, refl, inl, inr, arith}
use xmertl.Base.{Bool, true, false}
use xmertl.Base.{leb, ◌==◌, Bool-cases}
use xmertl.Tlsf.Blocks.{
  Tlsf, next_block, insert_block, extract_mapped, extract_block, unlisted, poke, sub_size,
  take_block,
}
use xmertl.Tlsf.Pool.{IsPool, view}
use xmertl.Pthread.Bitmaps.{IsBitmapped}
use mathlib.Core.Path.{subst}
use xmertl.Tlsf.Cut.{with_block, end-le_last}
use xmertl.Tlsf.Merge.{without, IsAlike}
use xmertl.Tlsf.Resize.{cut_off, cut_if, trimmed, widened, enlarged}
use xmertl.Tlsf.Sized.{IsSized, alike-IsSized, cut_off-IsSized, same-IsSized, wide, wide-IsSized}

module _ (is_block : ℕ → Bool) (low last : ℕ) (t : Tlsf) (p : IsPool is_block low last t) (b : ℕ)
    (hb : is_block b ≡ true) (fb : t.is_free b ≡ false) (size : ℕ) (hs : 8 ≤ size)
    (es : size % 8 ≡ 0) where
  -- The size stays with its class of blocks, or a block that is used follows.
  pub trimmed_alone :
      size ≤ t.size b
      → t.is_free (next_block b t) ≡ false
      → (now : ℕ → Bool) × IsSized is_block now low last b size t (trimmed b size t)
  unfolding trimmed cut_if
  trimmed_alone le f =
      let small = end-le_last is_block low last t p b hb in
      let left : sub_size (t.size b) size ≡ t.size b - size =
        omega (arith, le, small, p.bound b hb, p.room) in
      let z = same-IsSized is_block low last t p b hb fb in
      elim (Bool-cases (leb 16 (t.size b - size))) [
        | inr e ↦ (
          is_block,
          rw (f, left, e)
              (record { pool = z.pool; block = z.block; room = le; kept = z.kept; old = z.old }),
        )
        | inl e ↦
            let rest : sub_size (t.size b - size) 8 ≡ t.size b - size - 8 =
              ground (arith, e, small, p.bound b hb, p.room) in
            (
              with_block is_block (b + 8 + size),
              rw (f, left, e, rest)
                  (cut_off-IsSized z size (t.size b - size - 8) (ground (arith, e)) hs
                    (ground (arith, e)) es f),
            )
      ]

  module _ (c : ℕ) (en : next_block b t ≡ c) (hc : is_block c ≡ true)
      (fc : t.is_free c ≡ true) where
    sum_lem :
        ((t.size b + (t.size c + 8)) % 2 ^ 32 ≡ t.size b + (t.size c + 8))
        × (t.size b + (t.size c + 8) < 2 ^ 30)
    sum_lem =
        let small = end-le_last is_block low last t p c hc in
        (
          omega (arith, en, small, p.bound b hb, p.room),
          omega (arith, en, small, p.bound b hb, p.room),
        )

    -- The wide block, cut
    cut_wide :
        (rest : ℕ)
        → size + 8 + rest ≡ t.size b + (t.size c + 8)
        → 8 ≤ rest
        → IsSized is_block
            (with_block (without is_block c) (b + 8 + size))
            low
            last
            b
            size
            t
            (cut_off b size rest (next_block c t) (wide is_block low last t p b hb fb c en hc fc))
    unfolding take_block extract_block unlisted
    cut_wide rest e hr =
        let w = wide is_block low last t p b hb fb c en hc fc in
        let z = wide-IsSized is_block low last t p b hb fb c en hc fc in
        let n : next_block b w ≡ next_block c t = ground (arith, en) in
        let f : w.is_free (next_block b w) ≡ false =
          ap w.is_free n ∙ ground (arith, p.alone c hc fc) in
        subst
          (λ k.
            IsSized is_block (with_block (without is_block c) (b + 8 + size)) low last b size t
              (cut_off b size rest k w))
          n (cut_off-IsSized z size rest (ground (arith, e)) hs hr es f)

    -- The same on the headers as `realloc_ex` leaves them
    cut_wide-IsAlike :
        (rest : ℕ)
        → size + 8 + rest ≡ t.size b + (t.size c + 8)
        → (s : Tlsf) → IsBitmapped (view (cut_off b size rest (next_block c t) s))
        → ((i j : ℕ)
            → (cut_off b size rest (next_block c t) s).matrix i j
              ≡ (cut_off b size rest
                    (next_block c t)
                    (wide is_block low last t p b hb fb c en hc fc)).matrix
                  i j)
        → ((u : ℕ) → u == b ≡ false → s.size u ≡ t.size u)
        → ((u : ℕ) → s.is_free u ≡ t.is_free u)
        → ((u : ℕ)
            → u == next_block c t ≡ false
            → (s.prev_free u ≡ t.prev_free u) × (s.prev_hdr u ≡ t.prev_hdr u))
        → IsAlike
            (with_block (without is_block c) (b + 8 + size))
            last
            (cut_off b size rest (next_block c t) (wide is_block low last t p b hb fb c en hc fc))
            (cut_off b size rest (next_block c t) s)
    unfolding take_block extract_block unlisted cut_off insert_block
    cut_wide-IsAlike rest e s v m hz hf hp = record {
      bitmaps = v;
      matrix = m;
      size = λ u hu. ground (arith, hz u);
      is_free = λ u hu. ground (arith, hf u, hu, p.ending, hc);
      prev_free = λ u hu. ground (arith, hp u, hu, p.ending, hc);
      prev_hdr = λ u f. ground (arith, hp u);
    }

    -- The block takes part of the free one behind it.
    pub trimmed_wide :
        size ≤ t.size b
        → (now : ℕ → Bool) × IsSized is_block now low last b size t (trimmed b size t)
    unfolding trimmed cut_if extract_block unlisted take_block cut_off insert_block
    trimmed_wide le =
        let (word, most) = sum_lem in
        let all = t.size b + (t.size c + 8) in
        let f : t.is_free (next_block b t) ≡ true = ap t.is_free en ∙ fc in
        let left : sub_size all size ≡ all - size = omega (arith, le, most) in
        let big : leb 16 (all - size) ≡ true = ground (arith, le, p.shape c hc) in
        let rest : sub_size (all - size) 8 ≡ all - size - 8 = ground (arith, big, most) in
        let e : size + 8 + (all - size - 8) ≡ all = ground (arith, big) in
        let z = cut_wide (all - size - 8) e (ground (arith, le, p.shape c hc)) in
        let s = extract_mapped c t in
        let same : trimmed b size t ≡ cut_off b size (all - size - 8) (next_block c t) s =
          rw (trimmed, en, fc, word, left, big, rest) refl in
        (
          with_block (without is_block c) (b + 8 + size),
          rw same (
              alike-IsSized (cut_off b size (all - size - 8) (next_block c t) s) z (
                cut_wide-IsAlike (all - size - 8) e s z.pool.bitmaps (λ i j. refl) (λ u n. refl)
                  (λ u. refl) (λ u n. (refl, refl)))),
        )

    -- The state once the free block has given its bytes
    abbrev taken : Tlsf
    taken =
        let out = extract_mapped c t in
        record out {
          size = poke b (t.size b + (t.size c + 8)) t.size;
          prev_hdr = poke (next_block c t) b t.prev_hdr;
          prev_free = poke (next_block c t) false t.prev_free;
        }

    widened_eq : widened b t ≡ taken
    unfolding widened extract_block unlisted
    widened_eq =
        let (word, most) = sum_lem in
        let w = record (extract_mapped c t) { size = poke b (t.size b + (t.size c + 8)) t.size } in
        let n : next_block b w ≡ next_block c t = ground (arith, en) in
        rw (widened, en, word)
          (ap
            (λ k. record w { prev_hdr = poke k b t.prev_hdr; prev_free = poke k false t.prev_free })
            n)

    taken-IsSized :
        IsSized is_block (without is_block c) low last b (t.size b + (t.size c + 8)) t taken
    unfolding extract_block unlisted take_block
    taken-IsSized =
        let z = wide-IsSized is_block low last t p b hb fb c en hc fc in
        alike-IsSized taken z (record {
          bitmaps = z.pool.bitmaps;
          matrix = λ i j. refl;
          size = λ u hu. refl;
          is_free = λ u hu. ground (arith, hu, p.ending, hc);
          prev_free = λ u hu. ground (arith, hu, p.ending, hc);
          prev_hdr = λ u f. ground (arith, f);
        })

    pub grown_wide :
        size ≤ t.size b + t.size c
        → (now : ℕ → Bool) × IsSized is_block now low last b size t (enlarged b size t)
    unfolding enlarged cut_if extract_block unlisted take_block cut_off insert_block
    grown_wide le =
        let (word, most) = sum_lem in
        let all = t.size b + (t.size c + 8) in
        let left : sub_size (taken.size b) size ≡ all - size = ground (arith, le, most) in
        let n : next_block b taken ≡ next_block c t = ground (arith, en) in
        elim (Bool-cases (leb 16 (all - size))) [
          | inr big ↦
              let z = taken-IsSized in
              let same : enlarged b size t ≡ taken = rw (enlarged, widened_eq, left, big) refl in
              (
                without is_block c,
                rw same (record {
                  pool = z.pool;
                  block = z.block;
                  room = omega (arith, z.room, le);
                  kept = z.kept;
                  old = z.old;
                }),
              )
          | inl big ↦
              let rest : sub_size (all - size) 8 ≡ all - size - 8 = ground (arith, big, most) in
              let e : size + 8 + (all - size - 8) ≡ all = ground (arith, big) in
              let z = cut_wide (all - size - 8) e (ground (arith, big)) in
              let same : enlarged b size t
                  ≡ cut_off b size (all - size - 8) (next_block c t) taken =
                rw (enlarged, widened_eq, left, big, rest, n) refl in
              (
                with_block (without is_block c) (b + 8 + size),
                rw same (
                    alike-IsSized (cut_off b size (all - size - 8) (next_block c t) taken) z (
                      cut_wide-IsAlike (all - size - 8) e taken z.pool.bitmaps (λ i j. refl)
                        (λ u n. ground (arith, n)) (λ u. refl)
                        (λ u n. (ground (arith, n), ground (arith, n))))),
              )
        ]
