-- ===== src/Rtfifo/Table.antt =====
-- The table of FIFOs: what `rt_fifo_user_read` and `rt_fifo_user_write` do with any arguments.
use xmertl.Base.{ℕ, ◌+◌, ◌^◌, ◌≤◌, ◌<◌, ◌≡◌, ◌≢◌, ◌↔◌, ◌||◌}
use xmertl.Base.{Bool, ◌⊎◌, [], Option, none, some, List, true, false, arith}
use xmertl.Base.{length, get_elem?, get_or}
use xmertl.Base.Ints.{ℤ, pos, negsuc, is_negative, to_ℕ}
use xmertl.Base.Memory.{get_elem?-eq-some}
use xmertl.Rtfifo.{Fifo, Status, einval, xm_fifo_count, index_unvalid}
use xmertl.Rtfifo.Valid.{IsValid}

abbrev blank : Fifo
blank = record { ff_flags = 0; ff_top = 0; ff_bom = 0; ff_size = 0; ff_addr = [] }

-- Sixteen valid FIFOs whose positions have room in a `long`.
pub record IsReady (fifos : List Fifo) : Type 0 where
  pub size : length fifos ≡ xm_fifo_count
  pub valid : (i : ℕ) (ff : Fifo) → get_elem? fifos i ≡ some ff → IsValid ff
  pub small : (i : ℕ) (ff : Fifo) → get_elem? fifos i ≡ some ff → ff.ff_top + ff.ff_size ≤ 2 ^ 31

-- The table after an entry was replaced by a valid one.
pub record IsKept (i : ℕ) (fifos fifos' : List Fifo) : Type 0 where
  pub size : length fifos' ≡ xm_fifo_count
  pub valid : (j : ℕ) (ff : Fifo) → get_elem? fifos' j ≡ some ff → IsValid ff
  pub others : (j : ℕ) → i ≢ j → get_elem? fifos' j ≡ get_elem? fifos j

abbrev pub is_refused : ℤ → ℤ → Bool
is_refused index size = index_unvalid index || is_negative size

below_lem : (index size : ℤ) → is_refused index size ≡ false → to_ℕ index < xm_fifo_count
unfolding index_unvalid
below_lem (pos i) size h = ground arith
below_lem (negsuc i) size h = omega arith

module _ (fifos : List Fifo) (r : IsReady fifos) (index size : ℤ) where
  -- An index that is accepted names an entry.
  entry :
      is_refused index size ≡ false
      → (ff : Fifo) × (to_ℕ index < xm_fifo_count) × (get_elem? fifos (to_ℕ index) ≡ some ff)
  unfolding index_unvalid
  entry h =
      let below : to_ℕ index < xm_fifo_count = below_lem index size h in
      (
        get_or fifos (to_ℕ index) blank,
        below,
        get_elem?-eq-some fifos (to_ℕ index) blank (omega (arith, r.size)),
      )

  -- What a write answers.
  pub record IsWriteAnswered (src : Option (List ℕ)) (a : Option (Status × List Fifo))
      : Type 0 where
    pub status : Status
    pub after : List Fifo
    pub returns : a ≡ some (status, after)
    pub kept : IsKept (to_ℕ index) fifos after
    pub refused : (status ≡ einval) ↔ ((src ≡ none) ⊎ (is_refused index size ≡ true))

  -- What a read answers.
  pub record IsReadAnswered (dest : Option (List ℕ))
      (a : Option (Status × List Fifo × Option (List ℕ))) : Type 0 where
    pub status : Status
    pub after : List Fifo
    pub out : Option (List ℕ)
    pub returns : a ≡ some (status, after, out)
    pub kept : IsKept (to_ℕ index) fifos after
    pub refused : (status ≡ einval) ↔ ((dest ≡ none) ⊎ (is_refused index size ≡ true))
