-- ===== src/Tlsf/Client.antt =====
-- A client of the allocator, which frees what it holds.
use xmertl.Base.{ℕ, ◌+◌, ◌-◌, ◌%◌, ◌^◌, ◌≡◌, ap, refl, inl, inr, arith}
use xmertl.Base.{Bool, true, not, ◌&&◌, List, [], ◌∷◌}
use xmertl.Base.{leb, ◌==◌, if◌then◌else◌, Bool-cases}
use xmertl.Pthread.{erase}
use xmertl.Pthread.Lists.{mem, distinct}
use xmertl.Tlsf.Blocks.{Tlsf, malloc_ex, free_ex}
use xmertl.Tlsf.Resize.{realloc_ex}
use xmertl.Tlsf.Pool.{IsPool}

pub data Request : Type 0 where
  malloc : ℕ → Request
  free : ℕ → Request
  realloc : ℕ → ℕ → Request

-- A client holds addresses that it was given.
pub record Client : Type 0 where
  pub held : List ℕ
  pub pool : Tlsf

-- A null pointer is not kept.
unfoldable pub keep : ℕ × Tlsf → List ℕ → Client
keep (p, t) held =
    if p == 0 then record { held = held; pool = t } else record { held = p ∷ held; pool = t }

-- `realloc_ex` without a memory
unfoldable pub resized : ℕ → ℕ → Tlsf → ℕ × Tlsf
resized p size t = let (r, t', m) = realloc_ex (λ (d s n m : ℕ). m) p size (t, 0) in (r, t')

-- One request; a client that does not hold an address does not free it or change its size.
unfoldable pub request : Request → Client → Client
request (malloc size) c = keep (malloc_ex size c.pool) c.held
request (free p) c =
    if mem p c.held then record { held = erase p c.held; pool = free_ex p c.pool } else c
request (realloc p size) c =
    if mem p c.held then keep (resized p size c.pool) (erase p c.held) else c

unfoldable pub requests : List Request → Client → Client
requests [] c = c
requests (r ∷ rs) c = requests rs (request r c)

-- The bytes of the blocks that are held, with their headers.
unfoldable pub held_bytes : List ℕ → Tlsf → ℕ
held_bytes [] t = 0
held_bytes (p ∷ held) t = t.size (p - 8) + 8 + held_bytes held t

-- The used blocks of a valid pool are those that are held, and `used_size` counts them.
pub record IsServed (is_block : ℕ → Bool) (low last base : ℕ) (c : Client) : Type 0 where
  pub valid : IsPool is_block low last c.pool
  pub unique : distinct c.held ≡ true
  pub held :
      (p : ℕ) → mem p c.held ≡ (leb 8 p && (is_block (p - 8) && not (c.pool.is_free (p - 8))))
  pub counted : c.pool.used_size ≡ (base + held_bytes c.held c.pool) % 2 ^ 32

-- The sizes of the blocks that are held have not changed.
pub held_bytes-same :
    (held : List ℕ)
    → (s t : Tlsf) → ((p : ℕ) → mem p held ≡ true → t.size (p - 8) ≡ s.size (p - 8))
    → held_bytes held t ≡ held_bytes held s
unfolding held_bytes mem
held_bytes-same [] s t same = refl
held_bytes-same (p ∷ held) s t same =
    let rest = held_bytes-same held s t (λ q m. same q (ground (arith, m))) in
    omega (arith, rest, same p (ground arith))

pub held_bytes-erase :
    (p : ℕ)
    → (held : List ℕ) → (t : Tlsf) → mem p held ≡ true
    → held_bytes held t ≡ t.size (p - 8) + 8 + held_bytes (erase p held) t
unfolding held_bytes mem erase
held_bytes-erase p [] t m = absurd (ground (arith, m))
held_bytes-erase p (q ∷ held) t m = elim (Bool-cases (q == p)) [
  | inl e ↦
      let same : q ≡ p = ground (arith, e) in
      rw e (ap (λ u. t.size (u - 8) + 8 + held_bytes held t) same)
  | inr e ↦ rw e (omega (arith, held_bytes-erase p held t (ground (arith, m, e))))
]
