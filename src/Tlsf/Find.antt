-- ===== src/Tlsf/Find.antt =====
-- The search for a free block through the two levels of bitmaps.
use xmertl.Base.{ℕ, zero, suc, ◌+◌, ◌^◌, ◌≤◌, ◌<◌, ◌≡◌, ap, refl, inl, inr, ◌⊎◌, arith}
use xmertl.Base.{true, false, none, some, List, [], ◌∷◌, bit_and}
use xmertl.Base.{◌==◌, if◌then◌else◌, Bool-cases}
use xmertl.Base.Ints.{pos}
use xmertl.Base.Bits.{bit_at, bit_at-le_one, bit_and-le, bit_at-zero}
use xmertl.Bitmap.{is_bit_set_lem}
use xmertl.Pthread.{head, is_empty}
use xmertl.Pthread.Bitmaps.{IsBitmapped}
use xmertl.Tlsf.Blocks.{Tlsf, find_suitable_block, ls_bit, from_bit, Found}
use xmertl.Tlsf.Lowest.{ls_bit_lem, ls_bit-zero, bit_at-from_bit}
use xmertl.Tlsf.Pool.{view}

-- What the lowest bit of a word from a position on is.
word_search :
    (x s : ℕ)
    → x < 2 ^ 32
    → s ≤ 32
    → ((bit_and x (from_bit s) == 0 ≡ true) × ((j : ℕ) → j < 32 → s ≤ j → bit_at x j ≡ 0))
      ⊎ ((bit_and x (from_bit s) == 0 ≡ false)
          × ((p : ℕ) × (p < 32)
              × (ls_bit (bit_and x (from_bit s)) ≡ pos p)
              × (s ≤ p)
              × (bit_at x p ≡ 1)))
word_search x s h hs = elim (Bool-cases (bit_and x (from_bit s) == 0)) [
  | inl e ↦
      let none_left : bit_and x (from_bit s) ≡ 0 = ground (arith, e) in
      inl (
        e,
        λ j hj l.
            ground (
              arith,
              bit_at-from_bit x s j hs hj,
              ap (λ m. bit_at m j) none_left,
              bit_at-zero j,
              l,
            ),
      )
  | inr e ↦
      let (p, below, found, l) =
        ls_bit_lem (bit_and x (from_bit s)) (ground (arith, e))
          (omega (arith, h, bit_and-le x (from_bit s))) in
      let there = bit_at-from_bit x s p hs below in
      inr (e, (p, below, found, ground (arith, there, l.set), ground (arith, there, l.set)))
]

-- What the search gives: the head of a list of the wanted class or of a later one, or nothing, and
-- then those lists are empty.
pub record IsSuitable (t : Tlsf) (fl sl : ℕ) (found : Found) (b : ℕ) : Type 0 where
  pub block : found.block ≡ some b
  pub range : (found.fl < 32) × (found.sl < 32)
  pub later : (fl < found.fl) ⊎ ((fl ≡ found.fl) × (sl ≤ found.sl))
  pub first : head (t.matrix found.fl found.sl) ≡ some b

pub record IsNotFound (t : Tlsf) (fl sl : ℕ) (found : Found) : Type 0 where
  pub block : found.block ≡ none
  pub here : (j : ℕ) → j < 32 → sl ≤ j → is_empty (t.matrix fl j) ≡ true
  pub above : (i j : ℕ) → i < 32 → j < 32 → fl < i → is_empty (t.matrix i j) ≡ true

head-some : (list : List ℕ) → is_empty list ≡ false → (b : ℕ) × (head list ≡ some b)
head-some [] e = absurd (ground (arith, e))
head-some (b ∷ list) e = (b, refl)

module _ (t : Tlsf) (v : IsBitmapped (view t)) where
  -- A bit of a word is set if the list of its class has a block.
  bit_of_line :
      (i j : ℕ)
      → i < 32
      → j < 32
      → bit_at (t.sl_bitmap i) j ≡ (if is_empty (t.matrix i j) then 0 else 1)
  bit_of_line i j hi hj =
      ground (
        arith,
        v.second i j hi hj,
        is_bit_set_lem (t.sl_bitmap i) j,
        bit_at-le_one (t.sl_bitmap i) j,
      )

  bit_of_level : (i : ℕ) → i < 32 → bit_at t.fl_bitmap i ≡ (if t.sl_bitmap i == 0 then 0 else 1)
  bit_of_level i hi =
      ground (arith, v.first i hi, is_bit_set_lem t.fl_bitmap i, bit_at-le_one t.fl_bitmap i)

  module _ (fl sl : ℕ) (hfl : fl < 31) (hsl : sl < 32) where
    found_here :
        (p : ℕ)
        → bit_and (t.sl_bitmap fl) (from_bit sl) == 0 ≡ false
        → p < 32
        → ls_bit (bit_and (t.sl_bitmap fl) (from_bit sl)) ≡ pos p
        → sl ≤ p
        → bit_at (t.sl_bitmap fl) p ≡ 1
        → (b : ℕ) × IsSuitable t fl sl (find_suitable_block t fl sl) b
    unfolding find_suitable_block
    found_here p e hp found l set =
        let full : is_empty (t.matrix fl p) ≡ false =
          ground (arith, bit_of_line fl p (omega (arith, hfl)) hp, set) in
        let (b, first) = head-some (t.matrix fl p) full in
        (
          b,
          rw (e, found)
              (record {
                block = first;
                range = (omega (arith, hfl), hp);
                later = inr (refl, l);
                first = first;
              }),
        )

    found_above :
        (p : ℕ)
        → bit_and (t.sl_bitmap fl) (from_bit sl) == 0 ≡ true
        → p < 32
        → ls_bit (bit_and t.fl_bitmap (from_bit (fl + 1))) ≡ pos p
        → fl + 1 ≤ p
        → bit_at t.fl_bitmap p ≡ 1
        → (b : ℕ) × IsSuitable t fl sl (find_suitable_block t fl sl) b
    unfolding find_suitable_block
    found_above zero e hp found l set = absurd (omega (arith, l))
    found_above (suc p) e hp found l set =
        let some_line : 0 < t.sl_bitmap (suc p) = ground (arith, bit_of_level (suc p) hp, set) in
        let (q, hq, line, low) = ls_bit_lem (t.sl_bitmap (suc p)) some_line (v.words (suc p)) in
        let full : is_empty (t.matrix (suc p) q) ≡ false =
          ground (arith, bit_of_line (suc p) q hp hq, low.set) in
        let (b, first) = head-some (t.matrix (suc p) q) full in
        (
          b,
          rw (e, found, line)
              (record {
                block = first;
                range = (hp, hq);
                later = inl (omega (arith, l));
                first = first;
              }),
        )

    not_found :
        bit_and (t.sl_bitmap fl) (from_bit sl) == 0 ≡ true
        → bit_and t.fl_bitmap (from_bit (fl + 1)) == 0 ≡ true
        → ((j : ℕ) → j < 32 → sl ≤ j → bit_at (t.sl_bitmap fl) j ≡ 0)
        → ((i : ℕ) → i < 32 → fl + 1 ≤ i → bit_at t.fl_bitmap i ≡ 0)
        → IsNotFound t fl sl (find_suitable_block t fl sl)
    unfolding find_suitable_block
    not_found e e' line level =
        let none_left : bit_and t.fl_bitmap (from_bit (fl + 1)) ≡ 0 = ground (arith, e') in
        record {
          block = rw (e, none_left, ls_bit-zero) refl;
          here = λ j hj l. ground (arith, bit_of_line fl j (omega (arith, hfl)) hj, line j hj l);
          above = λ i j hi hj l.
              let word : t.sl_bitmap i ≡ 0 =
                ground (arith, bit_of_level i hi, level i hi (omega (arith, l))) in
              ground (arith, bit_of_line i j hi hj, ap (λ w. bit_at w j) word, bit_at-zero j);
        }

    -- The search finds a block of the wanted class or of a later one, unless their lists are empty.
    pub find_suitable_block_lem :
        ((b : ℕ) × IsSuitable t fl sl (find_suitable_block t fl sl) b)
        ⊎ IsNotFound t fl sl (find_suitable_block t fl sl)
    find_suitable_block_lem =
        elim (word_search (t.sl_bitmap fl) sl (v.words fl) (omega (arith, hsl))) [
          | inr (e, (p, hp, found, l, set)) ↦ inl (found_here p e hp found l set)
          | inl (e, line) ↦ elim (word_search t.fl_bitmap (fl + 1) v.word (omega (arith, hfl))) [
            | inr (e', (p, hp, found, l, set)) ↦ inl (found_above p e hp found l set)
            | inl (e', level) ↦ inr (not_found e e' line level)
          ]
        ]
