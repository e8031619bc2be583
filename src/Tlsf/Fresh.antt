-- ===== src/Tlsf/Fresh.antt =====
-- A client of a pool that `init_memory_pool` has set up.
use xmertl.Base.{ℕ, ◌+◌, ◌-◌, ◌%◌, ◌^◌, ◌≤◌, ◌<◌, ◌≡◌, refl, ◌⊎◌, arith}
use xmertl.Base.{Bool, true, false, List, [], ◌==◌}
use xmertl.Pthread.Lists.{mem, distinct}
use xmertl.Tlsf.Blocks.{Tlsf}
use xmertl.Tlsf.Start.{init_memory_pool, init_memory_pool-IsSetUp, tlsf_signature}
use xmertl.Tlsf.Cut.{end-le_last}
use xmertl.Tlsf.Client.{Request, Client, requests, IsServed, held_bytes}
use xmertl.Tlsf.Runs.{all_small, requests-IsServed}

-- A client that holds nothing yet.
abbrev pub fresh : ℕ → ℕ → Tlsf → Client
fresh n pool t = record { held = []; pool = (init_memory_pool n pool t).1 }

-- An address that is held, and the bytes behind it, in a pool from `first` to `last`, and apart from the
-- bytes and the header of `q`.
pub record IsApart (first last p q : ℕ) (t : Tlsf) : Type 0 where
  pub inside : (first ≤ p) × (p + t.size (p - 8) ≤ last)
  pub apart : (p + t.size (p - 8) + 8 ≤ q) ⊎ (q + t.size (q - 8) + 8 ≤ p)

module _ (n pool : ℕ) (t : Tlsf) (least : 3308 ≤ n) (most : n < 2 ^ 30) (eight : n % 8 ≡ 0)
    (some_pool : 0 < pool) (aligned : pool % 4 ≡ 0)
    (new : t.signature == tlsf_signature ≡ false) where
  fresh-IsServed :
      IsServed (λ u. u == pool + 3184) (pool + 3184) (pool + n - 8) 3200 (fresh n pool t)
  unfolding mem distinct held_bytes
  fresh-IsServed =
      let q =
        (init_memory_pool-IsSetUp n pool n t least most eight some_pool aligned new least).0 in
      record {
        valid = q.valid;
        unique = refl;
        held = λ p. ground (arith, q.free);
        counted = omega (arith, q.used);
      }

  -- After init_memory_pool of a pool that is not set up, at an address that is a multiple of 4 and not 0,
  -- of 3308 bytes or more and below 2 ^ 30, a multiple of 8, and any requests to malloc_ex of less than
  -- 2 ^ 29 - 8 bytes, and to free_ex and to realloc_ex, of less than 2 ^ 29 - 16 bytes, for addresses that
  -- the client holds, the pool is valid, the used blocks are those that the client holds, and used_size
  -- is 3200 and their bytes, modulo 2 ^ 32.
  pub requests-fresh :
      (rs : List Request)
      → all_small rs ≡ true
      → (is_block : ℕ → Bool) × IsServed is_block
          (pool + 3184)
          (pool + n - 8)
          3200
          (requests rs (fresh n pool t))
  requests-fresh rs h =
      requests-IsServed rs h (λ u. u == pool + 3184) (pool + 3184) (pool + n - 8) 3200
        (fresh n pool t) fresh-IsServed

  -- After init_memory_pool of a pool that is not set up, at an address that is a multiple of 4 and
  -- not 0, of 3308 bytes or more and below 2 ^ 30, a multiple of 8, and any requests to malloc_ex of
  -- less than 2 ^ 29 - 8 bytes, and to free_ex and to realloc_ex, of less than 2 ^ 29 - 16 bytes,
  -- for addresses that the client holds, two different addresses that the client holds share no
  -- byte, header included, and the bytes of the first one lie in the pool.
  pub requests-IsApart :
      (rs : List Request)
      → all_small rs ≡ true
      → (p q : ℕ) → mem p (requests rs (fresh n pool t)).held ≡ true
      → mem q (requests rs (fresh n pool t)).held ≡ true
      → p == q ≡ false
      → IsApart (pool + 3192) (pool + n - 8) p q (requests rs (fresh n pool t)).pool
  requests-IsApart rs h p q hp hq d =
      let (is_block, s) = requests-fresh rs h in
      let c = requests rs (fresh n pool t) in
      let v = s.valid in
      let a : (8 ≤ p) × (is_block (p - 8) ≡ true) = ground (arith, s.held p, hp) in
      let b : (8 ≤ q) × (is_block (q - 8) ≡ true) = ground (arith, s.held q, hq) in
      record {
        inside = omega (
          arith,
          v.bound (p - 8) a.1,
          end-le_last is_block (pool + 3184) (pool + n - 8) c.pool v (p - 8) a.1,
          a.0,
        );
        apart = ground (arith, v.gap (p - 8) (q - 8) a.1, v.gap (q - 8) (p - 8) b.1, a, b, d);
      }
