-- ===== src/Tlsf/Free.antt =====
-- `free_ex`: a used block becomes free and joins the free blocks beside it.
use xmertl.Base.{ℕ, ◌+◌, ◌-◌, ◌^◌, ◌≤◌, ◌<◌, ◌≡◌, ◌∙◌, ap, sym, refl, arith}
use xmertl.Base.{Bool, true, false}
use xmertl.Base.{◌==◌}
use xmertl.Tlsf.{mapping_insert}
use xmertl.Tlsf.Fit.{mapping_insert-IsInRange}
use xmertl.Tlsf.Blocks.{Tlsf, next_block, insert_block, poke, sub_size, take_block, insert_mapped}
use xmertl.Tlsf.Pool.{IsPool, IsListed, insert_block-IsListed}
use xmertl.Tlsf.Cut.{ends, end-le_last}
use xmertl.Tlsf.Merge.{alike-IsPool}
use xmertl.Tlsf.Join.{IsHeld, join_next_lem, join_prev_lem}
use xmertl.Tlsf.Blocks.{join_next, join_prev, give_back, free_ex}

module _ (is_block : ℕ → Bool) (low last b : ℕ) (t : Tlsf) (h : IsHeld is_block low last b t)
    (behind_used : t.is_free (next_block b t) ≡ false) (before_used : t.prev_free b ≡ false) where
  back-IsListed : IsListed b (t.size b) t (insert_mapped b (t.size b) t)
  unfolding take_block
  back-IsListed =
      let p = h.pool in
      let m = mapping_insert (t.size b) in
      let small : t.size b < 2 ^ 30 = omega (
        arith,
        end-le_last is_block low last (take_block b t) p b h.block,
        p.bound b h.block,
        p.room,
      ) in
      let range = mapping_insert-IsInRange (t.size b) small in
      insert_block-IsListed b m.fl m.sl t p.bitmaps (omega (arith, range)) (omega (arith, range))
        (t.size b) refl refl (λ c d. ground (arith, p.links b c d))

  give_back-IsPool : IsPool is_block low last (give_back b t)
  unfolding give_back take_block insert_block
  give_back-IsPool =
      let p = h.pool in
      let l = back-IsListed in
      record {
        bitmaps = l.bitmaps;
        links = λ u i j. ground (arith, l.links u i j, p.links u i j, h.block, h.free);
        shape = p.shape;
        bound = p.bound;
        room = p.room;
        next = p.next;
        gap = p.gap;
        ending = ground (arith, p.ending, h.block);
        told = λ c hc.
            ground (
              arith,
              p.told c hc,
              ends is_block low last (take_block b t) p c b hc h.block,
              h.free,
            );
        back = λ c hc e. ground (arith, p.back c hc, h.block, h.free, e);
        alone = λ c hc fc. ground (
          arith,
          p.alone c hc,
          p.told c hc,
          p.gap b c h.block,
          fc,
          h.block,
          behind_used,
          before_used,
        );
      }

-- What `free_ex` does to a used block `b`: the used blocks are those that were, without `b`, and the
-- bytes of `b` are bytes of a free block.
pub record IsFreed (is_block less : ℕ → Bool) (low last b : ℕ) (t t' : Tlsf) : Type 0 where
  pub pool : IsPool less low last t'
  pub kept :
      (u : ℕ)
      → is_block u ≡ true
      → t.is_free u ≡ false
      → u == b ≡ false
      → (less u ≡ true) × (t'.is_free u ≡ false) × (t'.size u ≡ t.size u)
  pub old :
      (u : ℕ)
      → less u ≡ true
      → t'.is_free u ≡ false
      → (is_block u ≡ true) × (t.is_free u ≡ false) × (u == b ≡ false)
  pub covered :
      (c : ℕ) × (less c ≡ true)
      × (t'.is_free c ≡ true)
      × (c ≤ b)
      × (next_block b t ≤ next_block c t')
  pub used : t'.used_size ≡ sub_size t.used_size (t.size b + 8)

give_back_same :
    (b : ℕ)
    → (t : Tlsf)
    → ((give_back b t).is_free ≡ t.is_free)
      × ((give_back b t).size ≡ t.size)
      × ((give_back b t).used_size ≡ t.used_size)
unfolding give_back insert_block
give_back_same b t = (refl, refl, refl)

-- The block is marked as free.
marked : ℕ → Tlsf → Tlsf
marked b t = record t {
  is_free = poke b true t.is_free;
  used_size = sub_size t.used_size (t.size b + 8);
}

module _ (is_block : ℕ → Bool) (low last b : ℕ) (t : Tlsf) (p : IsPool is_block low last t)
    (hb : is_block b ≡ true) (fb : t.is_free b ≡ false) where
  marked-IsHeld : IsHeld is_block low last b (marked b t)
  unfolding take_block marked
  marked-IsHeld = record {
    pool = alike-IsPool is_block low last t (take_block b (marked b t)) p (record {
      bitmaps = p.bitmaps;
      matrix = λ i j. refl;
      size = λ u hu. refl;
      is_free = λ u hu. ground (arith, fb);
      prev_free = λ u hu. ground (arith, p.told b hb, fb);
      prev_hdr = λ u f'. refl;
    });
    block = hb;
    free = ground arith;
  }

  free_ex_eq :
      free_ex (b + 8) t ≡ (let (c, t') = join_prev b (join_next b (marked b t)) in give_back c t')
  unfolding free_ex marked
  free_ex_eq =
      let some_ptr : b + 8 == 0 ≡ false = ground arith in
      let header : b + 8 - 8 ≡ b = omega arith in rw (free_ex, some_ptr, header) refl

  -- `free_ex` of the address of a used block of a valid pool keeps the pool valid: the used blocks are
  -- those that were, without that one, whose bytes are bytes of a free block then, and `used_size` loses
  -- its bytes.
  pub free_ex-IsPool : (less : ℕ → Bool) × IsFreed is_block less low last b t (free_ex (b + 8) t)
  unfolding marked give_back insert_block
  free_ex-IsPool =
      let t0 = marked b t in
      let t1 = join_next b t0 in
      let (one, n, after) = join_next_lem is_block low last b t0 marked-IsHeld in
      let (c, t2) = join_prev b t1 in
      let (two, q, first, same) = join_prev_lem one low last b t1 n.held in
      let after' : t2.is_free (next_block c t2) ≡ false =
        ap t2.is_free same ∙ q.marks (next_block b t1) ∙ after in
      (
        two,
        rw free_ex_eq (record {
          pool = give_back-IsPool two low last c t2 q.held after' first;
          kept = λ u hu fu d.
              let (x, y, z) = n.kept u hu (ground (arith, fu, d)) in
              let (x', y', z') = q.kept u x y in (x', y', z' ∙ z);
          old = λ u hu fu.
              let f : t0.is_free u ≡ false = sym (n.marks u) ∙ sym (q.marks u) ∙ fu in
              (n.old u (q.old u hu), ground (arith, f), ground (arith, f));
          covered = (
            c,
            q.held.block,
            q.held.free,
            omega (arith, q.covers, n.covers),
            omega (arith, q.covers, n.covers),
          );
          used = q.used ∙ n.used;
        }),
      )
