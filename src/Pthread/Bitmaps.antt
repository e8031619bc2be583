-- ===== src/Pthread/Bitmaps.antt =====
-- The two levels of bitmaps agree with the lists of threads.
use xmertl.Base.{ℕ, zero, suc, ◌^◌, ◌≤◌, ◌<◌, ◌≡◌, ◌&&◌, true, false, not, arith}
use xmertl.Base.{List, ◌==◌, if◌then◌else◌}
use xmertl.Base.Bits.{zero-bit_and, bit_and-le}
use xmertl.Bitmap.{
  set_bit, clear_bit, is_bit_set, is_bit_set-set_bit, is_bit_set-clear_bit, set_bit-lt,
  clear_bit-lt, complement,
}
use xmertl.Pthread.{ActiveThreads, setbit, clearbit, linked, unlinked, is_empty}
use xmertl.Pthread.Lists.{distinct}

pub record IsBitmapped (a : ActiveThreads) : Type 0 where
  pub unique : (i j : ℕ) → distinct (a.thread_matrix i j) ≡ true
  pub second :
      (i j : ℕ)
      → i < 32
      → j < 32
      → is_bit_set (a.slbitmap i) j ≡ not (is_empty (a.thread_matrix i j))
  pub first : (i : ℕ) → i < 32 → is_bit_set a.flbitmap i ≡ not (a.slbitmap i == 0)
  pub word : a.flbitmap < 2 ^ 32
  pub words : (i : ℕ) → a.slbitmap i < 2 ^ 32

is_bit_set-setbit :
    (x p i : ℕ) → is_bit_set (setbit x p) i ≡ (if p == i then true else is_bit_set x i)
unfolding setbit set_bit
is_bit_set-setbit x p i = is_bit_set-set_bit x p i

is_bit_set-clearbit :
    (x p i : ℕ)
    → p < 32
    → i < 32
    → is_bit_set (clearbit x p) i ≡ (if p == i then false else is_bit_set x i)
unfolding clearbit clear_bit
is_bit_set-clearbit x p i hp hi = is_bit_set-clear_bit x p i hp hi

setbit-lt : (x p : ℕ) → x < 2 ^ 32 → p < 32 → setbit x p < 2 ^ 32
unfolding setbit set_bit
setbit-lt x p hx hp = set_bit-lt x p hx hp

clearbit-lt : (x p : ℕ) → x < 2 ^ 32 → clearbit x p < 2 ^ 32
unfolding clearbit clear_bit
clearbit-lt x p hx = clear_bit-lt x p hx

clearbit-le : (x p : ℕ) → clearbit x p ≤ x
unfolding clearbit
clearbit-le x p = bit_and-le x (complement (2 ^ p))

pub some_bit : (x i : ℕ) → is_bit_set x i ≡ true → (x == 0) ≡ false
unfolding is_bit_set
some_bit zero i h = absurd (ground (arith, zero-bit_and (2 ^ i), h))
some_bit (suc x) i h = ground arith

module _ (a : ActiveThreads) (v : IsBitmapped a) (i j : ℕ) (hi : i < 32) (hj : j < 32) where
  pub linked-IsBitmapped :
      (list : List ℕ)
      → distinct list ≡ true
      → is_empty list ≡ false
      → IsBitmapped (linked i j list a)
  unfolding linked
  linked-IsBitmapped list d e =
      let set : is_bit_set (setbit (a.slbitmap i) j) j ≡ true =
        ground (arith, is_bit_set-setbit (a.slbitmap i) j j) in
      record {
        unique = λ b c. ground (arith, d, v.unique b c);
        second = λ b c hb hc. ground (
          arith,
          is_bit_set-setbit (a.slbitmap i) j c,
          v.second b c hb hc,
          v.second i c hi hc,
          e,
        );
        first = λ b hb. ground (
          arith,
          is_bit_set-setbit a.flbitmap i b,
          v.first b hb,
          some_bit (setbit (a.slbitmap i) j) j set,
        );
        word = setbit-lt a.flbitmap i v.word hi;
        words = λ b. ground (arith, v.words b, setbit-lt (a.slbitmap i) j (v.words i) hj);
      }

  pub unlinked-IsBitmapped :
      (list : List ℕ)
      → distinct list ≡ true
      → (is_empty (a.thread_matrix i j) && not (is_empty list)) ≡ false
      → IsBitmapped (unlinked i j list a)
  unfolding unlinked
  unlinked-IsBitmapped list d e = record {
    unique = λ b c. ground (arith, d, v.unique b c);
    second = λ b c hb hc. ground (
      arith,
      is_bit_set-clearbit (a.slbitmap i) j c hj hc,
      v.second b c hb hc,
      v.second i c hi hc,
      e,
    );
    first = λ b hb. ground (
      arith,
      is_bit_set-clearbit a.flbitmap i b hi hb,
      v.first b hb,
      v.first i hi,
      clearbit-le (a.slbitmap i) j,
    );
    word = ground (arith, v.word, clearbit-lt a.flbitmap i v.word);
    words = λ b. ground (arith, v.words b, v.words i, clearbit-lt (a.slbitmap i) j (v.words i));
  }
