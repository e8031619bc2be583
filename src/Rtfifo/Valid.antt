-- ===== src/Rtfifo/Valid.antt =====
-- The representation of a FIFO: how its two positions and its page stand for a queue of bytes.
use xmertl.Base.{ℕ, ◌+◌, ◌-◌, ◌%◌, ◌≤◌, ◌<◌, ◌≡◌, ◌⊎◌, inl, inr, ap, ◌∙◌}
use xmertl.Base.{some, List, arith, ltb, leb, Bool-cases}
use xmertl.Base.{length, get_or}
use xmertl.Base.Modulus.{round}
use xmertl.Base.Memory.{memcpy, slice, memcpy-IsCopied, ◌>>=◌}
use native.Mathlib.Nat.{mod-lt, mod-eq_of_lt, add-mod_right}
use xmertl.Rtfifo.{Fifo, fifo_used_size, fifo_free_size, copy_out, copy_in}

-- The positions are a queue of at most `ff_size - 1` bytes, and an empty FIFO stands at 0.
pub record IsValid (ff : Fifo) : Type 0 where
  pub page : length ff.ff_addr ≡ ff.ff_size
  pub room : 0 < ff.ff_size
  pub order : ff.ff_bom ≤ ff.ff_top
  pub limit : ff.ff_top < ff.ff_bom + ff.ff_size
  pub drained : ff.ff_top ≡ ff.ff_bom → ff.ff_bom ≡ 0

abbrev pub byte_of : Fifo → ℕ → ℕ
byte_of ff p = get_or ff.ff_addr (p % ff.ff_size) 0

-- The bytes held, oldest first.
abbrev pub contents : Fifo → List ℕ
contents ff = slice ff.ff_bom (ff.ff_top - ff.ff_bom) (byte_of ff)

module _ (ff : Fifo) (v : IsValid ff) where
  pub used_lem : fifo_used_size ff ≡ ff.ff_top - ff.ff_bom
  unfolding fifo_used_size
  used_lem = omega (
    arith,
    add-mod_right (ff.ff_top - ff.ff_bom) ff.ff_size,
    mod-eq_of_lt {n = ff.ff_top - ff.ff_bom} {m = ff.ff_size} (omega arith),
    same,
  )
    where
      same :
          (ff.ff_top + ff.ff_size - ff.ff_bom) % ff.ff_size
          ≡ (ff.ff_top - ff.ff_bom + ff.ff_size) % ff.ff_size
      same = cc (sums)
        where
          sums : ff.ff_top + ff.ff_size - ff.ff_bom ≡ ff.ff_top - ff.ff_bom + ff.ff_size
          sums = omega arith

  pub free_lem : fifo_free_size ff ≡ ff.ff_size - 1 - (ff.ff_top - ff.ff_bom)
  unfolding fifo_free_size
  free_lem =
      mod-eq_of_lt {n = ff.ff_bom + ff.ff_size - ff.ff_top - 1} {m = ff.ff_size} (omega arith)
      ∙ omega arith

  -- Where the `k`th byte held stands on the page.
  place :
      (k : ℕ)
      → k < ff.ff_size
      → ((ff.ff_bom % ff.ff_size + k < ff.ff_size)
          × ((ff.ff_bom + k) % ff.ff_size ≡ ff.ff_bom % ff.ff_size + k))
        ⊎ ((ff.ff_size ≤ ff.ff_bom % ff.ff_size + k)
            × ((ff.ff_bom + k) % ff.ff_size + ff.ff_size ≡ ff.ff_bom % ff.ff_size + k))
  place k h = round ff.ff_size ff.ff_bom k v.room h

  top_place :
      ((ff.ff_bom % ff.ff_size + (ff.ff_top - ff.ff_bom) < ff.ff_size)
        × (ff.ff_top % ff.ff_size ≡ ff.ff_bom % ff.ff_size + (ff.ff_top - ff.ff_bom)))
      ⊎ ((ff.ff_size ≤ ff.ff_bom % ff.ff_size + (ff.ff_top - ff.ff_bom))
          × (ff.ff_top % ff.ff_size + ff.ff_size
              ≡ ff.ff_bom % ff.ff_size + (ff.ff_top - ff.ff_bom)))
  top_place =
      let same : ff.ff_bom + (ff.ff_top - ff.ff_bom) ≡ ff.ff_top = omega arith in
      rw same at (place (ff.ff_top - ff.ff_bom) (omega arith))

  at_start : ff.ff_top ≡ ff.ff_bom → ff.ff_bom % ff.ff_size ≡ 0
  at_start e = omega (
    arith,
    v.drained e,
    ap (λ (t : ℕ). t % ff.ff_size) (v.drained e),
    mod-eq_of_lt {n = 0} {m = ff.ff_size} v.room,
  )

  -- `out` is `dest` with the oldest `n` bytes held at its front.
  pub record IsTaken (n : ℕ) (dest : List ℕ) (out : List ℕ) : Type 0 where
    pub same_length : length out ≡ length dest
    pub front : (k : ℕ) → k < n → get_or out k 0 ≡ byte_of ff (ff.ff_bom + k)
    pub behind : (k : ℕ) → n ≤ k → get_or out k 0 ≡ get_or dest k 0

  module _ (n : ℕ) (dest : List ℕ) (fits : n ≤ length dest) (h : n < ff.ff_size) where
    abbrev bom : ℕ
    bom = ff.ff_bom % ff.ff_size

    straight_out :
        bom + n ≤ ff.ff_size
        → (out : List ℕ) × (memcpy n dest 0 ff.ff_addr bom ≡ some out) × IsTaken n dest out
    straight_out inside =
        let (out, ran, c) =
          memcpy-IsCopied n dest 0 ff.ff_addr bom (omega arith) (omega (arith, v.page)) in
        (
          out,
          ran,
          record {
            same_length = c.same_length;
            front = λ k p. ground (arith, c.inside k p, place k (omega arith));
            behind = λ k p. c.above k (omega arith);
          },
        )

    wrapped_out :
        ff.ff_size < bom + n
        → (out : List ℕ) × ((memcpy (ff.ff_size - bom) dest 0 ff.ff_addr bom >>= λ first.
              memcpy (n - (ff.ff_size - bom)) first (ff.ff_size - bom) ff.ff_addr 0)
            ≡ some out)
          × IsTaken n dest out
    wrapped_out over =
        let below : bom < ff.ff_size = mod-lt ff.ff_bom v.room in
        let m = ff.ff_size - bom in
        let (first, ran, c) =
          memcpy-IsCopied m dest 0 ff.ff_addr bom (omega arith) (omega (arith, v.page)) in
        let (out, ran', c') =
          memcpy-IsCopied (n - m) first m ff.ff_addr 0 (omega (arith, c.same_length))
            (omega (arith, v.page)) in
        (
          out,
          rw ran ran',
          record {
            same_length = c'.same_length ∙ c.same_length;
            front = λ k p.
                ground (arith, c'.below k, c.inside k, c'.inside (k - m), place k (omega arith));
            behind = λ k p. c'.above k (omega arith) ∙ c.above k (omega arith);
          },
        )

  -- A round of the read takes the oldest `n` bytes to the front of `dest`, and no other byte.
  pub copy_out_lem :
      (n : ℕ) (dest : List ℕ)
      → n ≤ ff.ff_top - ff.ff_bom
      → n ≤ length dest
      → (out : List ℕ) × (copy_out ff n dest ≡ some out) × IsTaken n dest out
  unfolding copy_out
  copy_out_lem n dest h fits = elim (Bool-cases (leb bom' top')) [
    | inl low ↦ rw low (straight_out n dest fits small (ground (arith, top_place)))
    | inr high ↦ rw high (elim (Bool-cases (ltb (ff.ff_size - bom') n)) [
      | inl over ↦ rw over (wrapped_out n dest fits small (ground arith))
      | inr under ↦
          rw under (straight_out n dest fits small (ground (arith, mod-lt ff.ff_bom v.room)))
    ])
  ]
    where
      bom' : ℕ
      bom' = ff.ff_bom % ff.ff_size

      top' : ℕ
      top' = ff.ff_top % ff.ff_size

      small : n < ff.ff_size
      small = omega arith

  -- `out` is the page of `ff` with `n` bytes of `src` behind the newest one.
  pub record IsPut (n : ℕ) (src : List ℕ) (out : List ℕ) : Type 0 where
    pub same_length : length out ≡ length ff.ff_addr
    pub newest : (k : ℕ) → k < n → get_or out ((ff.ff_top + k) % ff.ff_size) 0 ≡ get_or src k 0
    pub held :
        (k : ℕ)
        → k < ff.ff_top - ff.ff_bom
        → get_or out ((ff.ff_bom + k) % ff.ff_size) 0 ≡ byte_of ff (ff.ff_bom + k)

  module _ (n : ℕ) (src : List ℕ) (fits : n ≤ length src)
      (h : n + (ff.ff_top - ff.ff_bom) < ff.ff_size) where
    abbrev top : ℕ
    top = ff.ff_top % ff.ff_size

    top_round :
        (k : ℕ)
        → k < n
        → ((top + k < ff.ff_size) × ((ff.ff_top + k) % ff.ff_size ≡ top + k))
          ⊎ ((ff.ff_size ≤ top + k) × ((ff.ff_top + k) % ff.ff_size + ff.ff_size ≡ top + k))
    top_round k p = round ff.ff_size ff.ff_top k v.room (omega arith)

    straight_in :
        top + n ≤ ff.ff_size
        → (out : List ℕ) × (memcpy n ff.ff_addr top src 0 ≡ some out) × IsPut n src out
    straight_in inside =
        let (out, ran, c) =
          memcpy-IsCopied n ff.ff_addr top src 0 (omega (arith, v.page)) (omega arith) in
        (
          out,
          ran,
          record {
            same_length = c.same_length;
            newest = λ k p. ground (arith, c.inside k p, top_round k p);
            held = λ k p. ground (
              arith,
              c.below ((ff.ff_bom + k) % ff.ff_size),
              c.above ((ff.ff_bom + k) % ff.ff_size),
              place k (omega arith),
              top_place,
            );
          },
        )

    wrapped_in :
        ff.ff_size < top + n
        → (out : List ℕ) × ((memcpy (ff.ff_size - top) ff.ff_addr top src 0 >>= λ first.
              memcpy (n - (ff.ff_size - top)) first 0 src (ff.ff_size - top))
            ≡ some out)
          × IsPut n src out
    wrapped_in over =
        let below : top < ff.ff_size = mod-lt ff.ff_top v.room in
        let m = ff.ff_size - top in
        let (first, ran, c) =
          memcpy-IsCopied m ff.ff_addr top src 0 (omega (arith, v.page)) (omega arith) in
        let (out, ran', c') =
          memcpy-IsCopied (n - m) first 0 src m (omega (arith, c.same_length, v.page))
            (omega arith) in
        (
          out,
          rw ran ran',
          record {
            same_length = c'.same_length ∙ c.same_length;
            newest = λ k p.
                ground (arith, top_round k p, c'.above (top + k), c.inside k, c'.inside (k - m));
            held = λ k p. ground (
              arith,
              c.below ((ff.ff_bom + k) % ff.ff_size),
              c'.above ((ff.ff_bom + k) % ff.ff_size),
              place k (omega arith),
              top_place,
            );
          },
        )

  -- A round of the write puts the first `n` bytes of `src` behind the newest one.
  pub copy_in_lem :
      (n : ℕ) (src : List ℕ)
      → n + (ff.ff_top - ff.ff_bom) < ff.ff_size
      → n ≤ length src
      → (out : List ℕ) × (copy_in ff n src ≡ some out) × IsPut n src out
  unfolding copy_in
  copy_in_lem n src h fits = elim (Bool-cases (leb top' bom')) [
    | inl low ↦
        rw low
          (straight_in n src fits h (ground (arith, top_place, mod-lt ff.ff_bom v.room, at_start)))
    | inr high ↦ rw high (elim (Bool-cases (leb n (ff.ff_size - top'))) [
      | inl under ↦ rw under (straight_in n src fits h (ground (arith, mod-lt ff.ff_top v.room)))
      | inr over ↦ rw over (wrapped_in n src fits h (ground (arith, mod-lt ff.ff_top v.room)))
    ])
  ]
    where
      bom' : ℕ
      bom' = ff.ff_bom % ff.ff_size

      top' : ℕ
      top' = ff.ff_top % ff.ff_size
