-- ===== src/Tlsf/Runs.antt =====
-- Runs of the requests of a client.
use xmertl.Base.{ℕ, ◌+◌, ◌-◌, ◌^◌, ◌<◌, ◌≡◌, ◌∙◌, ap, sym, refl, inl, inr, arith}
use xmertl.Base.{Bool, true, false, ◌&&◌, List, [], ◌∷◌}
use xmertl.Base.{ltb, ◌==◌, Bool-cases}
use mathlib.Core.Path.{subst}
use xmertl.Pthread.{erase}
use xmertl.Pthread.Lists.{mem}
use xmertl.Tlsf.Blocks.{malloc_ex, free_ex}
use xmertl.Tlsf.Malloc.{malloc_ex-IsPool}
use xmertl.Tlsf.Free.{free_ex-IsPool}
use xmertl.Tlsf.Realloc.{realloc_ex-IsReallocated, realloc_ex-free}
use xmertl.Tlsf.Client.{
  Request, malloc, free, realloc, Client, keep, resized, request, requests, IsServed,
}
use xmertl.Tlsf.Served.{
  keep_some, allocated-IsServed, freed-IsServed, in_place-IsServed, moved-IsServed,
}

-- The requests that the search is made for are below 2 ^ 29 - 8 bytes.
unfoldable pub is_small : Request → Bool
is_small (malloc size) = ltb size (2 ^ 29 - 8)
is_small (free p) = true
is_small (realloc p size) = ltb size (2 ^ 29 - 16)

unfoldable pub all_small : List Request → Bool
unfolding is_small
all_small [] = true
all_small (r ∷ rs) = is_small r && all_small rs

module _ (is_block : ℕ → Bool) (low last base : ℕ) (c : Client)
    (s : IsServed is_block low last base c) (b size : ℕ) (hs : size < 2 ^ 29 - 16)
    (hb : is_block b ≡ true) (fb : c.pool.is_free b ≡ false)
    (there : mem (b + 8) c.held ≡ true) where
  -- What the client keeps, when the call gives `d + 8`, or a null pointer
  kept_some :
      (d : ℕ)
      → (resized (b + 8) size c.pool).0 ≡ d + 8
      → keep (resized (b + 8) size c.pool) (erase (b + 8) c.held)
        ≡ record { held = (d + 8) ∷ erase (b + 8) c.held; pool = (resized (b + 8) size c.pool).1 }
  kept_some d e = keep_some d (resized (b + 8) size c.pool) (erase (b + 8) c.held) e

  kept_none :
      (resized (b + 8) size c.pool).0 ≡ 0
      → keep (resized (b + 8) size c.pool) (erase (b + 8) c.held)
        ≡ record { held = erase (b + 8) c.held; pool = (resized (b + 8) size c.pool).1 }
  unfolding keep
  kept_none e = rw (keep, e) refl

  resized-IsServed :
      (now : ℕ → Bool) × IsServed now low last base
        (keep (resized (b + 8) size c.pool) (erase (b + 8) c.held))
  unfolding resized
  resized-IsServed = elim (Bool-cases (size == 0)) [
    | inl none_left ↦
        let zero_size : size ≡ 0 = ground (arith, none_left) in
        let same : resized (b + 8) size c.pool ≡ (0, free_ex (b + 8) c.pool) =
          ap (λ n. resized (b + 8) n c.pool) zero_size
          ∙ ap (λ r. (r.0, r.1)) (realloc_ex-free (λ (d s n m : ℕ). m) b c.pool 0) in
        let (less, f) = free_ex-IsPool is_block low last b c.pool s.valid hb fb in
        (
          less,
          rw (kept_none (ap (λ r. r.0) same)) (
              freed-IsServed is_block low last base c s less b (resized (b + 8) size c.pool).1 there
                (rw (ap (λ r. r.1) same) f)),
        )
    | inr some_size ↦
        let (now, q) =
          realloc_ex-IsReallocated (λ (d s n m : ℕ). m) is_block low last c.pool s.valid b hb fb
            size (ground (arith, some_size)) hs 0 in
        let t' = (resized (b + 8) size c.pool).1 in
        (
          now,
          elim q.cases [
            | inl (e, m, r) ↦
                rw (kept_some b e)
                  (in_place-IsServed is_block low last base c s now b size t' there r)
            | inr (inl (d, e, m, r)) ↦
                rw (kept_some d e)
                  (moved-IsServed is_block low last base c s now b d size t' there r)
            | inr (inr (e, m, f, x)) ↦
                rw (kept_none e) (freed-IsServed is_block low last base c s now b t' there f)
          ],
        )
  ]

request-IsServed :
    (r : Request)
    → is_small r ≡ true
    → (is_block : ℕ → Bool) → (low last base : ℕ) → (c : Client) → IsServed is_block low last base c
    → (after : ℕ → Bool) × IsServed after low last base (request r c)
unfolding request is_small
request-IsServed (malloc size) h is_block low last base c s =
    elim (malloc_ex-IsPool is_block low last c.pool s.valid size (ground (arith, h))) [
      | inl (more, b, a, e) ↦ (
        more,
        rw (keep_some b (malloc_ex size c.pool) c.held e)
            (allocated-IsServed is_block low last base c s more size b (malloc_ex size c.pool).1 a),
      )
      | inr r ↦ (is_block, rw r.null (unfold keep in s))
    ]
request-IsServed (free p) h is_block low last base c s = elim (Bool-cases (mem p c.held)) [
  | inr e ↦ (is_block, rw e s)
  | inl e ↦
      let b = p - 8 in
      let same : p ≡ b + 8 = ground (arith, s.held p, e) in
      let (less, f) =
        free_ex-IsPool is_block low last b c.pool s.valid (ground (arith, s.held p, e))
          (ground (arith, s.held p, e)) in
      (
        less,
        rw e (
            rw same (
              freed-IsServed is_block low last base c s less b (free_ex (b + 8) c.pool)
                (ap (λ q. mem q c.held) (sym same) ∙ e) f)),
      )
]
request-IsServed (realloc p size) h is_block low last base c s = elim (Bool-cases (mem p c.held)) [
  | inr e ↦ (is_block, rw e s)
  | inl e ↦
      let b = p - 8 in
      let same : p ≡ b + 8 = ground (arith, s.held p, e) in
      let hb : is_block b ≡ true = ground (arith, s.held p, e) in
      let fb : c.pool.is_free b ≡ false = ground (arith, s.held p, e) in
      let there : mem (b + 8) c.held ≡ true = ap (λ q. mem q c.held) (sym same) ∙ e in
      let (now, q) =
        resized-IsServed is_block low last base c s b size (ground (arith, h)) hb fb there in
      (
        now,
        rw e (
            subst (λ q. IsServed now low last base (keep (resized q size c.pool) (erase q c.held)))
              (sym same) q),
      )
]

-- After any requests, of less than 2 ^ 29 - 8 bytes for `malloc_ex` and 2 ^ 29 - 16 for `realloc_ex`, of a
-- client that frees only what it holds, the pool is valid, the used blocks are those that the client
-- holds, and `used_size` counts them.
pub requests-IsServed :
    (rs : List Request)
    → all_small rs ≡ true
    → (is_block : ℕ → Bool) → (low last base : ℕ) → (c : Client) → IsServed is_block low last base c
    → (after : ℕ → Bool) × IsServed after low last base (requests rs c)
unfolding requests all_small
requests-IsServed [] h is_block low last base c s = (is_block, s)
requests-IsServed (r ∷ rs) h is_block low last base c s =
    let (after, s') = request-IsServed r (ground (arith, h)) is_block low last base c s in
    requests-IsServed rs (ground (arith, h)) after low last base (request r c) s'
