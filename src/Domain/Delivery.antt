-- ===== src/Domain/Delivery.antt =====
-- The delivery loop of xtratum/kernel/irqs.c: that it ends, and what it delivers.
use xmertl.Base.{ℕ, zero, suc, ◌+◌, ◌^◌, ◌≤◌, ◌<◌, bit_and, ◌≡◌, ◌≢◌, refl, inl, inr}
use xmertl.Base.{
  Option, none, some, List, [], ◌∷◌, Bool, true, false, ◌&&◌, arith, ◌==◌, if◌then◌else◌,
}
use xmertl.Base.{Bool-cases, Option-cases, ltb}
use xmertl.Base.Bits.{bit_at, bit_at-le_one, zero-bit_and}
use xmertl.Bitmap.{
  is_some_bit_set, set_bit, clear_bit, is_bit_set, is_bit_set_lem, next_cases,
  bit_at-get_domain_pending_events_le, get_domain_pending_events, bit_at-get_domain_pending_events,
  bit_at-clear_bit, bit_at-set_bit, set_bit-lt,
}
use xmertl.Domain.{
  Events, Domain, call_handler, deliver, rounds, sync_root_events, enable_events_flag,
  disable_events_flag, sync_events, sync_domain_events, is_events_flag_enabled, get_domain_state,
  domain_finished,
}

-- The bits among the first `k`.
pub count_bits : ℕ → ℕ → ℕ
count_bits zero x = 0
count_bits (suc k) x = bit_at x k + count_bits k x

count_bits-le : (k x : ℕ) → count_bits k x ≤ k
unfolding count_bits
count_bits-le zero x = omega arith
count_bits-le (suc k) x = omega (arith, bit_at-le_one x k, count_bits-le k x)

count_bits-clear_bit :
    (k x p : ℕ)
    → k ≤ 32
    → p < 32
    → bit_at x p ≡ 1
    → count_bits k (clear_bit x p) + (if ltb p k then 1 else 0) ≡ count_bits k x
unfolding count_bits
count_bits-clear_bit zero x p hk hp e = ground arith
count_bits-clear_bit (suc k) x p hk hp e =
    ground (
      arith,
      bit_at-clear_bit x p k hp (omega arith),
      count_bits-clear_bit k x p (omega arith) hp e,
    )

module _ (handle : ℕ → ℕ → Events → Events) where
  pub deliver_ends :
      (fuel pending : ℕ) (e : Events)
      → count_bits 32 pending < fuel
      → (r : Events × List ℕ) × (deliver handle fuel pending e ≡ some r)
  unfolding deliver
  deliver_ends zero pending e h = absurd (omega arith)
  deliver_ends (suc fuel) pending e h = elim (next_cases pending e.masked_events) [
    | inl (found, _) ↦ ((e, []), rw (found, deliver))
    | inr (p, found, below, set, _) ↦
        let one : bit_at pending p ≡ 1 = omega (
          arith,
          bit_at-get_domain_pending_events_le pending e.masked_events p,
          bit_at-le_one pending p,
        ) in
        let fewer : count_bits 32 (clear_bit pending p) < fuel =
          ground (arith, count_bits-clear_bit 32 pending p (omega arith) below one) in
        elim (Option-cases (e.event_handler p)) [
          | inl unhandled ↦
              let (r, ran) = deliver_ends fuel (clear_bit pending p) e fewer in
              (r, rw (found, unhandled, deliver) ran)
          | inr (h', handled) ↦
              let ((e', log), ran) =
                deliver_ends fuel (clear_bit pending p) (call_handler handle h' p e) fewer in
              ((e', p ∷ log), rw (found, handled, ran, deliver))
        ]
  ]

-- `event` before the others, when there is a handler for it
pub ahead : Option ℕ → ℕ → List ℕ → List ℕ
ahead none event rest = rest
ahead (some h) event rest = event ∷ rest

-- The handlers to call for the bits of `x` from the position `i` on, in order.
pub due : (ℕ → Option ℕ) → ℕ → ℕ → ℕ → List ℕ
due table zero x i = []
due table (suc left) x i =
    let rest = due table left x (i + 1) in if is_bit_set x i then ahead (table i) i rest else rest

due-same :
    (table : ℕ → Option ℕ) (left x y i : ℕ)
    → ((j : ℕ) → i ≤ j → j < i + left → bit_at x j ≡ bit_at y j)
    → due table left x i ≡ due table left y i
unfolding due
due-same table zero x y i same = refl
due-same table (suc left) x y i same =
    let rest = due-same table left x y (i + 1) (λ j a b. same j (omega arith) (omega arith)) in
    let here : is_bit_set x i ≡ is_bit_set y i =
      ground (arith, is_bit_set_lem x i, is_bit_set_lem y i, same i (omega arith) (omega arith)) in
    rw (rest, here) refl

-- The lowest bit `p` of `x` is due first; `y` is `x` with that bit cleared.
due-first :
    (table : ℕ → Option ℕ) (left x y i p : ℕ)
    → i ≤ p
    → p < i + left
    → bit_at x p ≡ 1
    → ((j : ℕ) → j < p → bit_at x j ≡ 0)
    → ((j : ℕ) → j < i + left → bit_at y j ≡ (if p == j then 0 else bit_at x j))
    → due table left x i ≡ ahead (table p) p (due table left y i)
unfolding due
due-first table zero x y i p a b one first same = absurd (omega arith)
due-first table (suc left) x y i p a b one first same = elim (Bool-cases (p == i)) [
  | inl e ↦
      let at_p : p ≡ i = ground arith in
      let set : is_bit_set x i ≡ true = ground (arith, is_bit_set_lem x i, one) in
      let gone : is_bit_set y i ≡ false =
        ground (arith, is_bit_set_lem y i, same i (omega arith)) in
      let rest : due table left x (i + 1) ≡ due table left y (i + 1) =
        due-same table left x y (i + 1) (λ j c d. ground (arith, same j (omega arith))) in
      rw (set, gone, rest, at_p) refl
  | inr e ↦
      let later : i < p = ground arith in
      let clear : is_bit_set x i ≡ false = ground (arith, is_bit_set_lem x i, first i later) in
      let clear' : is_bit_set y i ≡ false =
        ground (arith, is_bit_set_lem y i, first i later, same i (omega arith)) in
      rw (clear, clear')
        (due-first table left x y (i + 1) p (omega arith) (omega arith) one first
          (λ j c. same j (omega arith)))
]

due-zero : (table : ℕ → Option ℕ) (left i : ℕ) → due table left 0 i ≡ []
unfolding due is_bit_set
due-zero table zero i = refl
due-zero table (suc left) i = rw (zero-bit_and (2 ^ i)) (due-zero table left (i + 1))

-- A handler that leaves the table and the masks of the other events as they are, whatever else it
-- does to the domain's events.
unfoldable pub IsQuiet : (ℕ → ℕ → Events → Events) → Type 0
IsQuiet handle =
    (h event : ℕ) (e : Events)
    → event < 32
    → e.masked_events < 2 ^ 32
    → ((handle h event e).event_handler ≡ e.event_handler)
      × ((handle h event e).masked_events < 2 ^ 32)
      × ((j : ℕ)
          → j < 32
          → j ≢ event
          → bit_at (handle h event e).masked_events j ≡ bit_at e.masked_events j)

module _ (handle : ℕ → ℕ → Events → Events) (quiet : IsQuiet handle) where
  -- After the event `p`, what is left to deliver is what was, without `p`.
  left_to_deliver :
      (pending p mask mask' : ℕ)
      → p < 32
      → mask < 2 ^ 32
      → mask' < 2 ^ 32
      → ((j : ℕ) → j < 32 → j ≢ p → bit_at mask' j ≡ bit_at mask j)
      → (j : ℕ) → j < 0 + 32
      → bit_at (get_domain_pending_events (clear_bit pending p) mask') j
        ≡ (if p == j then 0 else bit_at (get_domain_pending_events pending mask) j)
  left_to_deliver pending p mask mask' hp hm hm' same j hj = ground (
    arith,
    bit_at-get_domain_pending_events (clear_bit pending p) mask' j hm' (omega arith),
    bit_at-get_domain_pending_events pending mask j hm (omega arith),
    bit_at-clear_bit pending p j hp (omega arith),
    same j (omega arith),
  )

  masks_of_call :
      (h p : ℕ) (e : Events)
      → p < 32
      → e.masked_events < 2 ^ 32
      → ((call_handler handle h p e).event_handler ≡ e.event_handler)
        × ((call_handler handle h p e).masked_events < 2 ^ 32)
        × ((j : ℕ)
            → j < 32
            → j ≢ p
            → bit_at (call_handler handle h p e).masked_events j ≡ bit_at e.masked_events j)
  unfolding call_handler disable_events_flag enable_events_flag IsQuiet
  masks_of_call h p e hp hm =
      let inner : Events =
        disable_events_flag (record e { masked_events = set_bit e.masked_events p }) in
      let (table, bound, others) = quiet h p inner hp (set_bit-lt e.masked_events p hm hp) in
      (table, bound, λ j b n. ground (arith, others j b n, bit_at-set_bit e.masked_events p j))

  pub deliver-due :
      (fuel pending : ℕ) (e : Events)
      → count_bits 32 pending < fuel
      → e.masked_events < 2 ^ 32
      → (e' : Events) × (deliver handle fuel pending e
          ≡ some (e', due e.event_handler 32 (get_domain_pending_events pending e.masked_events) 0))
  unfolding deliver ahead
  deliver-due zero pending e h hm = absurd (omega arith)
  deliver-due (suc fuel) pending e h hm = elim (next_cases pending e.masked_events) [
    | inl (found, empty) ↦ (e, rw (found, empty, deliver, due-zero e.event_handler 32 0) refl)
    | inr (p, found, below, set, first) ↦
        let one : bit_at pending p ≡ 1 = omega (
          arith,
          bit_at-get_domain_pending_events_le pending e.masked_events p,
          bit_at-le_one pending p,
        ) in
        let fewer : count_bits 32 (clear_bit pending p) < fuel =
          ground (arith, count_bits-clear_bit 32 pending p (omega arith) below one) in
        elim (Option-cases (e.event_handler p)) [
          | inl unhandled ↦
              let (e', ran) = deliver-due fuel (clear_bit pending p) e fewer hm in
              let order =
                due-first e.event_handler 32 (get_domain_pending_events pending e.masked_events)
                  (get_domain_pending_events (clear_bit pending p) e.masked_events) 0 p
                  (omega arith) below set first
                  (left_to_deliver pending p e.masked_events e.masked_events below hm hm
                    (λ j b n. refl)) in
              (e', rw (found, order, unhandled, deliver) ran)
          | inr (h', handled) ↦
              let (table, bound, others) = masks_of_call h' p e below hm in
              let (e', ran) =
                deliver-due fuel (clear_bit pending p) (call_handler handle h' p e) fewer bound in
              let order =
                due-first e.event_handler 32 (get_domain_pending_events pending e.masked_events)
                  (get_domain_pending_events (clear_bit pending p)
                    (call_handler handle h' p e).masked_events)
                  0 p (omega arith) below set first
                  (left_to_deliver pending p e.masked_events
                    (call_handler handle h' p e).masked_events below hm bound others) in
              (e', rw (found, order, handled, deliver, ran, table) refl)
        ]
  ]

-- A root domain whose handlers are quiet, and whose masks are 32 bits, has its handlers called once
-- for each pending event that was not masked and has a handler, from the lowest event up.
pub sync_root_events-due :
    (handle : ℕ → ℕ → Events → Events)
    → IsQuiet handle
    → (e : Events) → e.masked_events < 2 ^ 32
    → (e' : Events) × (sync_root_events handle e
        ≡ some (
          e',
          due e.event_handler 32 (get_domain_pending_events e.pending_events e.masked_events) 0,
        ))
unfolding sync_root_events
sync_root_events-due handle quiet e hm =
    deliver-due handle quiet rounds e.pending_events
      (record e { pending_events = bit_and e.pending_events e.masked_events })
      (omega (arith, count_bits-le 32 e.pending_events)) hm

pub any_run_ends :
    (handle : ℕ → ℕ → Events → Events) (pending : ℕ) (e : Events)
    → (r : Events × List ℕ) × (deliver handle rounds pending e ≡ some r)
any_run_ends handle pending e =
    deliver_ends handle rounds pending e (omega (arith, count_bits-le 32 pending))

-- Whatever the handlers do to the events of the domain, `sync_events` returns.
pub sync_events-ends :
    (handle : ℕ → ℕ → Events → Events) (is_root : Bool) (d : Domain)
    → (r : Events × List ℕ) × (sync_events handle is_root d ≡ some r)
unfolding sync_events sync_root_events sync_domain_events
sync_events-ends handle is_root d =
    let root = any_run_ends handle d.events.pending_events (record d.events {
      pending_events = bit_and d.events.pending_events d.events.masked_events;
    }) in
    elim (Bool-cases (is_events_flag_enabled d.events && is_some_bit_set d.events.pending_events)) [
      | inr e ↦ ((d.events, []), rw (sync_events, e) refl)
      | inl e ↦ elim (Bool-cases is_root) [
        | inl r ↦ (root.0, rw (sync_events, e, r) root.1)
        | inr r ↦ elim (Bool-cases (get_domain_state d == domain_finished)) [
          | inl f ↦ ((d.events, []), rw (sync_events, e, r, sync_domain_events, f) refl)
          | inr f ↦ (root.0, rw (sync_events, e, r, sync_domain_events, f) root.1)
        ]
      ]
    ]
