-- ===== src/Tlsf/Served.antt =====
-- What each request leaves a client with.
use xmertl.Base.{ℕ, ◌+◌, ◌-◌, ◌^◌, ◌<◌, ◌≡◌, ap, refl, arith}
use xmertl.Base.{Bool, true, false, List, ◌∷◌}
use xmertl.Base.{◌==◌}
use xmertl.Pthread.{erase}
use xmertl.Pthread.Lists.{mem, distinct, mem-erase, distinct-erase}
use xmertl.Tlsf.Blocks.{Tlsf}
use xmertl.Tlsf.Cut.{end-le_last}
use xmertl.Tlsf.Use.{IsAllocated}
use xmertl.Tlsf.Free.{IsFreed}
use xmertl.Tlsf.Realloc.{IsInPlace, IsMoved}
use xmertl.Tlsf.Client.{Client, keep, held_bytes, IsServed, held_bytes-same, held_bytes-erase}

pub keep_some :
    (b : ℕ)
    → (r : ℕ × Tlsf) → (held : List ℕ) → r.0 ≡ b + 8
    → keep r held ≡ record { held = (b + 8) ∷ held; pool = r.1 }
unfolding keep
keep_some b r held e =
    let some_ptr : b + 8 == 0 ≡ false = ground arith in rw (keep, e, some_ptr) refl

module _ (is_block : ℕ → Bool) (low last base : ℕ) (c : Client)
    (s : IsServed is_block low last base c) where
  pub allocated-IsServed :
      (more : ℕ → Bool)
      → (size b : ℕ) → (t' : Tlsf) → IsAllocated is_block more low last size b c.pool t'
      → IsServed more low last base (record { held = (b + 8) ∷ c.held; pool = t' })
  unfolding mem distinct held_bytes
  allocated-IsServed more size b t' a =
      let header : b + 8 - 8 ≡ b = omega arith in
      let kept : (p : ℕ) → mem p c.held ≡ true → t'.size (p - 8) ≡ c.pool.size (p - 8) =
        λ p m. ground (arith, s.held p, a.kept (p - 8), a.taken, m) in
      let bytes : held_bytes c.held t' ≡ held_bytes c.held c.pool =
        held_bytes-same c.held c.pool t' kept in
      record {
        valid = a.pool;
        unique = ground (
          arith,
          s.unique,
          s.held (b + 8),
          ap is_block header,
          ap c.pool.is_free header,
          a.taken,
        );
        held = λ p. ground (
          arith,
          s.held p,
          a.kept (p - 8),
          a.fresh (p - 8),
          a.taken,
          ap more header,
          ap t'.is_free header,
        );
        counted = omega (arith, a.used, s.counted, bytes, ap t'.size header);
      }

  pub freed-IsServed :
      (less : ℕ → Bool)
      → (b : ℕ) → (t' : Tlsf) → mem (b + 8) c.held ≡ true
      → IsFreed is_block less low last b c.pool t'
      → IsServed less low last base (record { held = erase (b + 8) c.held; pool = t' })
  freed-IsServed less b t' m f =
      let header : b + 8 - 8 ≡ b = omega arith in
      let there : is_block b ≡ true = ground (arith, s.held (b + 8), m, ap is_block header) in
      let small : c.pool.size b < 2 ^ 30 = omega (
        arith,
        end-le_last is_block low last c.pool s.valid b there,
        s.valid.bound b there,
        s.valid.room,
      ) in
      let left = erase (b + 8) c.held in
      let kept : (p : ℕ) → mem p left ≡ true → t'.size (p - 8) ≡ c.pool.size (p - 8) =
        λ p h. ground (arith, h, mem-erase (b + 8) p c.held s.unique, s.held p, f.kept (p - 8)) in
      let bytes : held_bytes left t' ≡ held_bytes left c.pool =
        held_bytes-same left c.pool t' kept in
      let all = held_bytes-erase (b + 8) c.held c.pool m in
      record {
        valid = f.pool;
        unique = distinct-erase (b + 8) c.held s.unique;
        held = λ p.
            ground
              (arith, mem-erase (b + 8) p c.held s.unique, s.held p, f.kept (p - 8), f.old (p - 8));
        counted = omega (arith, f.used, s.counted, bytes, all, ap c.pool.size header, small);
      }

  pub in_place-IsServed :
      (now : ℕ → Bool)
      → (b size : ℕ) → (t' : Tlsf) → mem (b + 8) c.held ≡ true
      → IsInPlace is_block now low last b size c.pool t'
      → IsServed now low last base (record { held = (b + 8) ∷ erase (b + 8) c.held; pool = t' })
  unfolding mem distinct held_bytes
  in_place-IsServed now b size t' m r =
      let z = r.sized in
      let header : b + 8 - 8 ≡ b = omega arith in
      let there : is_block b ≡ true = ground (arith, s.held (b + 8), m, ap is_block header) in
      let small : c.pool.size b < 2 ^ 30 = omega (
        arith,
        end-le_last is_block low last c.pool s.valid b there,
        s.valid.bound b there,
        s.valid.room,
      ) in
      let left = erase (b + 8) c.held in
      let kept : (p : ℕ) → mem p left ≡ true → t'.size (p - 8) ≡ c.pool.size (p - 8) =
        λ p h. ground (arith, h, mem-erase (b + 8) p c.held s.unique, s.held p, z.kept (p - 8)) in
      let bytes : held_bytes left t' ≡ held_bytes left c.pool =
        held_bytes-same left c.pool t' kept in
      let all = held_bytes-erase (b + 8) c.held c.pool m in
      record {
        valid = z.pool;
        unique = ground (
          arith,
          distinct-erase (b + 8) c.held s.unique,
          mem-erase (b + 8) (b + 8) c.held s.unique,
        );
        held = λ p. ground (
          arith,
          mem-erase (b + 8) p c.held s.unique,
          s.held p,
          z.kept (p - 8),
          z.old (p - 8),
          z.block,
          ap now header,
          ap t'.is_free header,
        );
        counted =
            omega (
              arith,
              r.used,
              s.counted,
              bytes,
              all,
              ap c.pool.size header,
              ap t'.size header,
              small,
            );
      }

  pub moved-IsServed :
      (now : ℕ → Bool)
      → (b d size : ℕ) → (t' : Tlsf) → mem (b + 8) c.held ≡ true
      → IsMoved is_block now low last b d size c.pool t'
      → IsServed now low last base (record { held = (d + 8) ∷ erase (b + 8) c.held; pool = t' })
  unfolding mem distinct held_bytes
  moved-IsServed now b d size t' m z =
      let header : b + 8 - 8 ≡ b = omega arith in
      let header' : d + 8 - 8 ≡ d = omega arith in
      let there : is_block b ≡ true = ground (arith, s.held (b + 8), m, ap is_block header) in
      let small : c.pool.size b < 2 ^ 30 = omega (
        arith,
        end-le_last is_block low last c.pool s.valid b there,
        s.valid.bound b there,
        s.valid.room,
      ) in
      let left = erase (b + 8) c.held in
      let kept : (p : ℕ) → mem p left ≡ true → t'.size (p - 8) ≡ c.pool.size (p - 8) =
        λ p h. ground (arith, h, mem-erase (b + 8) p c.held s.unique, s.held p, z.kept (p - 8)) in
      let bytes : held_bytes left t' ≡ held_bytes left c.pool =
        held_bytes-same left c.pool t' kept in
      let all = held_bytes-erase (b + 8) c.held c.pool m in
      record {
        valid = z.pool;
        unique = ground (
          arith,
          distinct-erase (b + 8) c.held s.unique,
          mem-erase (b + 8) (d + 8) c.held s.unique,
          s.held (d + 8),
          ap is_block header',
          ap c.pool.is_free header',
          z.fresh,
        );
        held = λ p. ground (
          arith,
          mem-erase (b + 8) p c.held s.unique,
          s.held p,
          z.kept (p - 8),
          z.old (p - 8),
          z.block,
          ap now header',
          ap t'.is_free header',
        );
        counted = omega (
          arith,
          z.used,
          s.counted,
          bytes,
          all,
          ap c.pool.size header,
          ap t'.size header',
          small,
        );
      }
