-- ===== src/Libc/Find.antt =====
-- `strlen` counts the bytes before the terminator, and `strstr` finds the first occurrence.
use xmertl.Base.{
  ℕ, zero, suc, ◌+◌, ◌-◌, ◌≤◌, ◌<◌, ◌≡◌, ◌≢◌, refl, ap, sym, Bool, true, not, ◌&&◌, inl, inr, ◌⊎◌,
  arith, none, some,
}
use xmertl.Base.{ltb, ◌==◌, Bool-cases}
use xmertl.Libc.Str.{Ram, memcmp, is_zero, strlen, strlen_loop, strstr, strstr_loop}

-- `n` bytes that are not 0 stand at `s`, and a 0 behind them.
unfoldable pub is_string : ℕ → ℕ → Ram → Bool
is_string zero s m = m s == 0
is_string (suc n) s m = not (m s == 0) && is_string n (s + 1) m

-- The same `n` bytes stand at `p` and at `q`.
unfoldable pub equal : ℕ → ℕ → ℕ → Ram → Bool
equal zero p q m = true
equal (suc n) p q m = (m p == m q) && equal n (p + 1) (q + 1) m

-- The needle stands at none of the first `i` places.
unfoldable pub no_match : ℕ → ℕ → ℕ → ℕ → Ram → Bool
unfolding equal
no_match zero haystack needle nl m = true
no_match (suc i) haystack needle nl m =
    not (equal nl haystack needle m) && no_match i (haystack + 1) needle nl m

strlen_loop_lem :
    (n fuel s i : ℕ) (m : Ram)
    → is_string n s m ≡ true
    → n < fuel
    → strlen_loop fuel s i m ≡ some (i + n)
unfolding is_string strlen_loop
strlen_loop_lem n zero s i m h lt = absurd (omega arith)
strlen_loop_lem zero (suc fuel) s i m h lt = ground arith
strlen_loop_lem (suc n) (suc fuel) s i m h lt =
    ground (arith, strlen_loop_lem n fuel (s + 1) (i + 1) m)

pub strlen_lem :
    (n fuel s : ℕ) (m : Ram) → is_string n s m ≡ true → n < fuel → s ≢ 0 → strlen fuel s m ≡ some n
unfolding strlen
strlen_lem n fuel s m h lt some_s = ground (arith, strlen_loop_lem n fuel s 0 m h lt)

pub memcmp-equal :
    (n p q : ℕ) (m : Ram) → ((a : ℕ) → m a < 256) → is_zero (memcmp p q n m) ≡ equal n p q m
unfolding memcmp equal
memcmp-equal zero p q m byte = refl
memcmp-equal (suc n) p q m byte =
    ground (arith, memcmp-equal n (p + 1) (q + 1) m byte, byte p, byte q)

-- The first byte is compared twice.
test-equal :
    (haystack needle nl : ℕ) (m : Ram)
    → ((a : ℕ) → m a < 256)
    → nl ≢ 0
    → ((m haystack == m needle) && is_zero (memcmp haystack needle nl m))
      ≡ equal nl haystack needle m
unfolding equal
test-equal haystack needle zero m byte some_nl = absurd (some_nl refl)
test-equal haystack needle (suc nl) m byte some_nl =
    ground (arith, memcmp-equal (suc nl) haystack needle m byte)

strstr_loop_lem :
    (i haystack needle nl : ℕ) (m : Ram)
    → ((a : ℕ) → m a < 256)
    → nl ≢ 0
    → ((j : ℕ) × (strstr_loop i haystack needle nl m ≡ some (haystack + j))
        × (j < i)
        × (equal nl (haystack + j) needle m ≡ true)
        × (no_match j haystack needle nl m ≡ true))
      ⊎ ((strstr_loop i haystack needle nl m ≡ none) × (no_match i haystack needle nl m ≡ true))
unfolding strstr_loop no_match
strstr_loop_lem zero haystack needle nl m byte some_nl = inr (refl, refl)
strstr_loop_lem (suc i) haystack needle nl m byte some_nl =
    elim (Bool-cases (equal nl haystack needle m)) [
      | inl here ↦
          let same : equal nl (haystack + 0) needle m ≡ true = ground (arith, here) in
          inl (
            0,
            rw (strstr_loop, test-equal haystack needle nl m byte some_nl, here) (ground arith),
            omega arith,
            same,
            refl,
          )
      | inr more ↦
          rw (strstr_loop, test-equal haystack needle nl m byte some_nl, more, no_match)
            (elim (strstr_loop_lem i (haystack + 1) needle nl m byte some_nl) [
              | inr (e, none_here) ↦ inr (e, none_here)
              | inl (j, e, lt, at_j, before) ↦
                  let place : haystack + 1 + j ≡ haystack + suc j = omega arith in
                  inl (
                    suc j,
                    rw (sym place) e,
                    omega arith,
                    rw (sym place) at_j,
                    rw (no_match, more) before,
                  )
            ])
    ]

equal_empty : (nl p q : ℕ) (m : Ram) → (nl == 0) ≡ true → equal nl p q m ≡ true
unfolding equal
equal_empty zero p q m e = refl
equal_empty (suc nl) p q m e = absurd (ground arith)

-- For two strings that are not at the address 0, in a memory of bytes and with fuel beyond their
-- lengths, `strstr` gives the first place at which the needle stands, or a null pointer if it
-- stands at none.
pub strstr_lem :
    (hl nl fuel haystack needle : ℕ) (m : Ram)
    → ((a : ℕ) → m a < 256)
    → is_string hl haystack m ≡ true
    → is_string nl needle m ≡ true
    → hl < fuel
    → nl < fuel
    → haystack ≢ 0
    → needle ≢ 0
    → ((j : ℕ) × (strstr fuel haystack needle m ≡ some (some (haystack + j)))
        × (j + nl ≤ hl)
        × (equal nl (haystack + j) needle m ≡ true)
        × (no_match j haystack needle nl m ≡ true))
      ⊎ ((strstr fuel haystack needle m ≡ some none)
          × (no_match (hl + 1 - nl) haystack needle nl m ≡ true))
unfolding strstr
strstr_lem hl nl fuel haystack needle m byte h n lt_h lt_n some_h some_n =
    rw
      (
        strstr,
        strlen_lem nl fuel needle m n lt_n some_n,
        strlen_lem hl fuel haystack m h lt_h some_h,
      )
      (elim (Bool-cases (nl == 0)) [
        | inl empty ↦
            let no_length : nl ≡ 0 = ground (arith, empty) in
            rw empty (
              inl (
                0,
                ground arith,
                omega (arith, no_length),
                equal_empty nl (haystack + 0) needle m empty,
                unfold no_match in refl,
              ))
        | inr more ↦ rw more (elim (Bool-cases (ltb hl nl)) [
          | inl long ↦
              let no_room : hl + 1 - nl ≡ 0 = ground (arith, long) in
              rw (long, no_room) (inr (refl, unfold no_match in refl))
          | inr fits ↦
              let room : hl - nl + 1 ≡ hl + 1 - nl = ground (arith, fits) in
              rw (fits, room)
                (elim (strstr_loop_lem (hl + 1 - nl) haystack needle nl m byte
                  (ground (arith, more))) [
                    | inl (j, e, lt, at_j, before) ↦
                        inl (j, ap some e, omega (arith, lt), at_j, before)
                    | inr (e, nowhere) ↦ inr (ap some e, nowhere)
                  ])
        ])
      ])
