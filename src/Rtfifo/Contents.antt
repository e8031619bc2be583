-- ===== src/Rtfifo/Contents.antt =====
-- `rt_fifo_user_read` and `rt_fifo_user_write` against a bounded queue of bytes.
use xmertl.Base.{ℕ, ◌+◌, ◌-◌, ◌^◌, ◌≤◌, ◌<◌, min, ◌≡◌, refl, inl, inr, ◌∙◌, sym}
use xmertl.Base.{Option, some, List, [], ◌++◌, true, arith, ltb, ◌==◌, Bool-cases}
use xmertl.Base.{if◌then◌else◌, length, get_or, take, drop, take-min, drop-min}
use xmertl.Base.Memory.{
  slice, take-eq-slice, slice_ext, take-slice, drop-slice, slice-append, length-slice,
}
use xmertl.Rtfifo.{
  Fifo, Status, count, fifo_usable, set_read_flags, unset_read_flags, set_write_flags,
  unset_write_flags, read_loop, write_loop, restart, add_long, fifo_used_size, fifo_free_size,
  copy_in, copy_out, read_fifo, write_fifo, flush_fifo,
}
use xmertl.Bitmap.{complement, is_bit_set, is_bit_set_lem}
use xmertl.Base.Bits.{bit_at, bit_at-bit_and, bit_at-bit_or, bit_at-le_one}
use xmertl.Base.{bit_and, bit_or}
use xmertl.Rtfifo.{fifo_rd, fifo_wr}
use xmertl.Rtfifo.Valid.{
  IsValid, byte_of, contents, used_lem, free_lem, copy_out_lem, copy_in_lem, IsPut,
}

pub length-contents : (ff : Fifo) → length (contents ff) ≡ ff.ff_top - ff.ff_bom
length-contents ff = length-slice ff.ff_bom (ff.ff_top - ff.ff_bom) (byte_of ff)

-- Setting and clearing the reader's or the writer's flags leaves FIFO_US alone.
usable_flags :
    (flags mask : ℕ)
    → bit_at mask 3 ≡ 0
    → bit_at (complement mask) 3 ≡ 1
    → is_bit_set (bit_and (bit_or flags mask) (complement mask)) 3 ≡ is_bit_set flags 3
usable_flags flags mask off on =
    rw
      (
        is_bit_set_lem flags 3,
        is_bit_set_lem (bit_and (bit_or flags mask) (complement mask)) 3,
        bit_at-bit_and (bit_or flags mask) (complement mask) 3,
        bit_at-bit_or flags mask 3,
        off,
        on,
      )
      (ground (arith, bit_at-le_one flags 3))

fifo_usable-flags :
    (ff : Fifo) (flags : ℕ)
    → is_bit_set flags 3 ≡ is_bit_set ff.ff_flags 3
    → fifo_usable ff ≡ true
    → fifo_usable (record ff { ff_flags = flags }) ≡ true
unfolding fifo_usable is_bit_set
fifo_usable-flags ff flags e h = e ∙ h

restart-fields :
    (ff : Fifo)
    → (fifo_usable (restart ff) ≡ fifo_usable ff)
      × ((restart ff).ff_size ≡ ff.ff_size)
      × ((restart ff).ff_top ≤ ff.ff_top)
unfolding restart fifo_usable
restart-fields ff = elim (Bool-cases (ff.ff_top == ff.ff_bom)) [
  | inl h ↦ rw h (refl, refl, omega arith)
  | inr h ↦ rw h (refl, refl, omega arith)
]

flags-IsValid : (ff : Fifo) → IsValid ff → (flags : ℕ) → IsValid (record ff { ff_flags = flags })
flags-IsValid ff v flags = record {
  page = v.page;
  room = v.room;
  order = v.order;
  limit = v.limit;
  drained = v.drained;
}

-- A FIFO after `n` bytes were taken from it.
module _ (ff : Fifo) (v : IsValid ff) (n : ℕ) (h : n ≤ ff.ff_top - ff.ff_bom) (flags : ℕ) where
  abbrev taken : Fifo
  taken = record ff { ff_flags = flags; ff_bom = ff.ff_bom + n }

  restart-IsValid : IsValid (restart taken)
  unfolding restart
  restart-IsValid = ground arith

  restart-contents : contents (restart taken) ≡ drop n (contents ff)
  unfolding restart slice
  restart-contents =
      let rest = ff.ff_top - (ff.ff_bom + n) in
      let dropped =
        drop-slice n ff.ff_bom (ff.ff_top - ff.ff_bom) (ff.ff_bom + n) rest (byte_of ff) refl
          (omega arith) in
      rw dropped (elim (Bool-cases (ff.ff_top == (ff.ff_bom + n))) [
        | inl empty ↦ let nothing : rest ≡ 0 = ground arith in rw (empty, nothing)
        | inr more ↦ rw more
      ])

module _ (ff : Fifo) (v : IsValid ff) (small : ff.ff_top < 2 ^ 31) (size : ℕ) where
  abbrev read_count : ℕ
  read_count = min size (ff.ff_top - ff.ff_bom)

  read_round :
      (dest out : List ℕ)
      → copy_out ff read_count dest ≡ some out
      → read_loop 1 ff size dest
        ≡ some (read_count, record ff { ff_bom = ff.ff_bom + read_count }, out)
  unfolding read_loop add_long
  read_round dest out ran =
      let clamp : (if ltb (fifo_used_size ff) size then fifo_used_size ff else size) ≡ read_count =
        rw (used_lem ff v) (ground arith) in
      rw (clamp, ran) (ground arith)

module _ (ff : Fifo) (v : IsValid ff) (usable : fifo_usable ff ≡ true) (size : ℕ) where
  -- What a read hands out, and what is left.
  pub record IsRead (dest : List ℕ) (r : Option (Status × Fifo × List ℕ)) : Type 0 where
    pub amount : ℕ
    pub rest : Fifo
    pub out : List ℕ
    pub amount_is : amount ≡ min size (length (contents ff))
    pub returns : r ≡ some (count amount, rest, out)
    pub valid : IsValid rest
    pub oldest : take amount out ≡ take size (contents ff)
    pub still_usable : fifo_usable rest ≡ true
    pub same_size : rest.ff_size ≡ ff.ff_size
    pub grown : rest.ff_top ≤ ff.ff_top
    pub left : contents rest ≡ drop size (contents ff)
    pub kept : (k : ℕ) → size ≤ k → get_or out k 0 ≡ get_or dest k 0

  -- For a valid FIFO that is usable, with ff_top below 2 ^ 31 and a destination of at least the size
  -- asked for, a read hands out the oldest bytes that are held, as many as are asked for or as there
  -- are, keeps the rest in order, leaves the destination from the size on alone, and leaves the FIFO
  -- valid and usable.
  pub read_fifo-IsRead :
      (dest : List ℕ)
      → size ≤ length dest
      → ff.ff_top < 2 ^ 31
      → IsRead dest (read_fifo ff dest size)
  unfolding read_fifo set_read_flags unset_read_flags bit_at fifo_usable
  read_fifo-IsRead dest fits small =
      let n = read_count ff v small size in
      let g = set_read_flags ff in
      let w : IsValid g = flags-IsValid ff v (bit_or ff.ff_flags fifo_rd) in
      let held = length-contents ff in
      let within : n ≤ ff.ff_top - ff.ff_bom = omega arith in
      let (out, ran, t) = copy_out_lem g w n dest within (omega arith) in
      let fewer : drop n (contents ff) ≡ drop size (contents ff) =
        drop-min size n (contents ff) (omega (arith, held)) in
      let few : take n (contents ff) ≡ take size (contents ff) =
        take-min size n (contents ff) (omega (arith, held)) in
      let flags = bit_and (bit_or ff.ff_flags fifo_rd) (complement fifo_rd) in
      let restarted = restart-fields (taken ff v n within flags) in
      record {
        rest = restart (taken ff v n within flags);
        out = out;
        amount = n;
        amount_is = omega (arith, held);
        returns = rw (usable, read_round g w small size dest out ran);
        valid = restart-IsValid ff v n within flags;
        oldest =
            take-eq-slice n ff.ff_bom out (byte_of ff) 0 (omega (arith, t.same_length))
              (λ k p. t.front k p)
            ∙ sym (take-slice n ff.ff_bom (ff.ff_top - ff.ff_bom) (byte_of ff) within)
            ∙ few;
        still_usable =
            restarted.0
            ∙ fifo_usable-flags ff flags (usable_flags ff.ff_flags fifo_rd refl refl) usable;
        same_size = restarted.1;
        grown = restarted.2;
        left = restart-contents ff v n within flags ∙ fewer;
        kept = λ k p. t.behind k (omega arith);
      }

-- A FIFO after `n` bytes of `src` were put behind the newest one.
module _ (ff : Fifo) (v : IsValid ff) (n : ℕ) (src page : List ℕ) (flags : ℕ)
    (h : n + (ff.ff_top - ff.ff_bom) < ff.ff_size) (fits : n ≤ length src)
    (put : IsPut ff v n src page) where
  abbrev filled : Fifo
  filled = record ff { ff_flags = flags; ff_top = ff.ff_top + n; ff_addr = page }

  filled-IsValid : IsValid filled
  filled-IsValid = record {
    page = put.same_length ∙ v.page;
    room = v.room;
    order = omega (arith, v.order);
    limit = omega (arith, v.order);
    drained = λ e. v.drained (omega (arith, v.order));
  }

  filled-contents : contents filled ≡ contents ff ++ take n src
  filled-contents =
      let used = ff.ff_top - ff.ff_bom in
      let old : slice ff.ff_bom used (byte_of filled) ≡ contents ff =
        slice_ext ff.ff_bom used (byte_of filled) (byte_of ff) λ k p q.
          let same : ff.ff_bom + (k - ff.ff_bom) ≡ k = omega arith in
          rw same at (put.held (k - ff.ff_bom) (omega arith)) in
      let new : take n src ≡ slice ff.ff_top n (byte_of filled) =
        take-eq-slice n ff.ff_top src (byte_of filled) 0 fits (λ k p. sym (put.newest k p)) in
      sym (
        slice-append ff.ff_bom used n ff.ff_top (ff.ff_top + n - ff.ff_bom) (byte_of filled)
          (omega (arith, v.order)) (omega (arith, v.order)))
      ∙ cc

module _ (ff : Fifo) (v : IsValid ff) (small : ff.ff_top + ff.ff_size ≤ 2 ^ 31) (size : ℕ) where
  abbrev write_count : ℕ
  write_count = min size (ff.ff_size - 1 - (ff.ff_top - ff.ff_bom))

  write_round :
      (src page : List ℕ)
      → copy_in ff write_count src ≡ some page
      → write_loop 1 ff size src
        ≡ some (write_count, record ff { ff_top = ff.ff_top + write_count; ff_addr = page })
  unfolding write_loop add_long
  write_round src page ran =
      let clamp : (if ltb (fifo_free_size ff) size then fifo_free_size ff else size) ≡ write_count =
        rw (free_lem ff v) (ground arith) in
      let fits : write_count < ff.ff_size = omega (arith, v.order) in
      rw (clamp, ran) (ground (arith, v.order))

module _ (ff : Fifo) (v : IsValid ff) (usable : fifo_usable ff ≡ true) (size : ℕ) where
  -- What a write takes, and what is held then.
  pub record IsWritten (src : List ℕ) (r : Option (Status × Fifo)) : Type 0 where
    pub amount : ℕ
    pub rest : Fifo
    pub amount_is : amount ≡ min size (ff.ff_size - 1 - length (contents ff))
    pub returns : r ≡ some (count amount, rest)
    pub valid : IsValid rest
    pub still_usable : fifo_usable rest ≡ true
    pub same_size : rest.ff_size ≡ ff.ff_size
    pub grown : rest.ff_top ≤ ff.ff_top + amount
    pub held : contents rest ≡ contents ff ++ take amount src

  -- For a valid FIFO that is usable, with ff_top + ff_size at most 2 ^ 31 and a source of at least
  -- the size asked for, a write takes as many bytes of the source as are asked for or as there is
  -- room for (one byte of the page is never used), appends them in order to the bytes held, and
  -- leaves the FIFO valid and usable.
  pub write_fifo-IsWritten :
      (src : List ℕ)
      → size ≤ length src
      → ff.ff_top + ff.ff_size ≤ 2 ^ 31
      → IsWritten src (write_fifo ff src size)
  unfolding write_fifo set_write_flags unset_write_flags bit_at fifo_usable
  write_fifo-IsWritten src fits small =
      let n = write_count ff v small size in
      let g = set_write_flags ff in
      let w : IsValid g = flags-IsValid ff v (bit_or ff.ff_flags fifo_wr) in
      let used = length-contents ff in
      let within : n + (ff.ff_top - ff.ff_bom) < ff.ff_size = omega (arith, v.order) in
      let (page, ran, put) = copy_in_lem g w n src within (omega arith) in
      let flags = bit_and (bit_or ff.ff_flags fifo_wr) (complement fifo_wr) in
      record {
        amount = n;
        rest = filled g w n src page flags within (omega arith) put;
        amount_is = omega (arith, used);
        returns = rw (usable, write_round g w small size src page ran);
        valid = filled-IsValid g w n src page flags within (omega arith) put;
        still_usable =
            fifo_usable-flags ff flags (usable_flags ff.ff_flags fifo_wr refl refl) usable;
        same_size = refl;
        grown = omega arith;
        held = filled-contents g w n src page flags within (omega arith) put;
      }

-- A flush leaves a valid FIFO with nothing in it.
pub flush_fifo_lem :
    (ff : Fifo) → IsValid ff → IsValid (flush_fifo ff) × (contents (flush_fifo ff) ≡ [])
unfolding flush_fifo slice
flush_fifo_lem ff v = (
  record {
    page = v.page;
    room = v.room;
    order = omega arith;
    limit = omega (arith, v.room);
    drained = λ e. refl;
  },
  refl,
)
