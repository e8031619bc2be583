-- ===== src/Tlsf/Pool.antt =====
-- A pool is valid when its blocks lie one behind the other, no two free ones side by side, and the
-- lists hold the free ones by class. The lists are two levels of bitmaps, as those of threads are.
use xmertl.Base.{ℕ, ◌+◌, ◌%◌, ◌^◌, ◌≤◌, ◌<◌, ◌≡◌, ap, refl, arith}
use xmertl.Base.{Bool, true, false, not, ◌&&◌, ◌||◌, some, List, [], ◌∷◌}
use xmertl.Base.{◌==◌}
use xmertl.Pthread.{ActiveThreads, setbit, clearbit, linked, unlinked, head, erase}
use xmertl.Pthread.Lists.{mem, distinct, mem-erase, distinct-erase}
use xmertl.Pthread.Bitmaps.{IsBitmapped, linked-IsBitmapped, unlinked-IsBitmapped}
use xmertl.Pthread.Valid.{erase_empty}
use xmertl.Tlsf.{mapping_insert}
use xmertl.Tlsf.Blocks.{
  Tlsf, next_block, unlisted, extract_block_hdr, extract_block, insert_block, tlsf_set_bit,
  tlsf_clear_bit, behind,
}

-- The lists of free blocks with their bitmaps.
abbrev pub view : Tlsf → ActiveThreads
view t = record { thread_matrix = t.matrix; flbitmap = t.fl_bitmap; slbitmap = t.sl_bitmap }

abbrev pub is_class : ℕ → ℕ → ℕ → Bool
is_class size i j = ((mapping_insert size).fl == i) && ((mapping_insert size).sl == j)

-- `is_block` says where the headers of the blocks lie, from `low` on; at `last` lies the header of
-- the block of size 0 that ends the pool.
pub record IsPool (is_block : ℕ → Bool) (low last : ℕ) (t : Tlsf) : Type 0 where
  pub bitmaps : IsBitmapped (view t)
  pub links :
      (u i j : ℕ) → mem u (t.matrix i j) ≡ (is_block u && (t.is_free u && is_class (t.size u) i j))
  pub shape : (b : ℕ) → is_block b ≡ true → (8 ≤ t.size b) × (t.size b % 8 ≡ 0)
  pub bound : (b : ℕ) → is_block b ≡ true → (low ≤ b) × (b < last)
  pub room : last < low + 2 ^ 30
  pub next :
      (b : ℕ) → is_block b ≡ true → (is_block (next_block b t) || (next_block b t == last)) ≡ true
  pub gap :
      (b c : ℕ)
      → is_block b ≡ true
      → (is_block c || (c == last)) ≡ true
      → b < c
      → next_block b t ≤ c
  pub ending : (is_block last ≡ false) × (t.is_free last ≡ false)
  pub told : (b : ℕ) → is_block b ≡ true → t.prev_free (next_block b t) ≡ t.is_free b
  pub back :
      (c : ℕ)
      → (is_block c || (c == last)) ≡ true
      → t.prev_free c ≡ true
      → (is_block (t.prev_hdr c) ≡ true)
        × (t.is_free (t.prev_hdr c) ≡ true)
        × (next_block (t.prev_hdr c) t ≡ c)
  pub alone : (b : ℕ) → is_block b ≡ true → t.is_free b ≡ true → t.is_free (next_block b t) ≡ false

-- What an extraction does to the lists: the block is in none any more.
pub record IsUnlisted (b : ℕ) (t t' : Tlsf) : Type 0 where
  pub bitmaps : IsBitmapped (view t')
  pub links : (u i j : ℕ) → mem u (t'.matrix i j) ≡ (not (u == b) && mem u (t.matrix i j))

-- What an insertion does to them: the block is in its class, too.
pub record IsListed (b size : ℕ) (t t' : Tlsf) : Type 0 where
  pub bitmaps : IsBitmapped (view t')
  pub links :
      (u i j : ℕ)
      → mem u (t'.matrix i j) ≡ (mem u (t.matrix i j) || ((u == b) && is_class size i j))

behind_lem : (b : ℕ) → (list : List ℕ) → head list ≡ some b → behind list ≡ erase b list
unfolding erase
behind_lem b [] e = absurd (ground (arith, e))
behind_lem b (u ∷ list) e = ground (arith, e)

-- The head is the block that the macro takes out.
pub extract_block_hdr_lem :
    (b i j : ℕ)
    → (t : Tlsf) → head (t.matrix i j) ≡ some b
    → extract_block_hdr i j t ≡ extract_block b i j t
unfolding extract_block_hdr extract_block
extract_block_hdr_lem b i j t e = ap (λ list. unlisted i j list t) (behind_lem b (t.matrix i j) e)

module _ (b i j : ℕ) (t : Tlsf) (v : IsBitmapped (view t)) (hi : i < 32) (hj : j < 32) where
  pub extract_block-IsUnlisted :
      ((c d : ℕ) → mem b (t.matrix c d) ≡ true → (c ≡ i) × (d ≡ j))
      → IsUnlisted b t (extract_block b i j t)
  unfolding extract_block unlisted unlinked tlsf_clear_bit clearbit
  extract_block-IsUnlisted only =
      let list = t.matrix i j in
      record {
        bitmaps =
            unlinked-IsBitmapped (view t) v i j hi hj (erase b list)
              (distinct-erase b list (v.unique i j)) (erase_empty b list);
        links = λ u c d. ground (arith, mem-erase b u list (v.unique i j), only c d);
      }

  pub insert_block-IsListed :
      (size : ℕ)
      → i ≡ (mapping_insert size).fl
      → j ≡ (mapping_insert size).sl
      → ((c d : ℕ) → mem b (t.matrix c d) ≡ false)
      → IsListed b size t (insert_block b i j t)
  unfolding insert_block linked tlsf_set_bit setbit
  insert_block-IsListed size ei ej absent =
      let list = t.matrix i j in
      record {
        bitmaps =
            linked-IsBitmapped (view t) v i j hi hj (b ∷ list)
              (unfold distinct in ground (arith, absent i j, v.unique i j)) refl;
        links = λ u c d. unfold mem in ground (arith, absent c d, ei, ej);
      }
