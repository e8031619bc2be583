-- ===== src/Sched/Switch.antt =====
-- What `xm_sched` does after its loop: the switch, and the events of the chosen domain.
use xmertl.Base.{ℕ, ◌≡◌, refl, true, false, ◌==◌, Bool-cases, inl, inr, ◌⊎◌}
use xmertl.Base.{List, [], ◌∷◌, arith, some, Option-cases}
use xmertl.Domain.{
  Domain, Events, get_domain_state, set_domain_state, domain_active, is_events_flag_enabled,
}
use xmertl.Domain.State.{get_domain_state-set_domain_state}
use xmertl.Domain.Delivery.{sync_events-ends}
use xmertl.Sched.{
  bypassed, kept, receive, with_pending, walk, select, is_runnable, search_domain_id_list, update,
  chosen, Sched, xm_sched,
}

search-update :
    (id : ℕ) (f : Domain → Domain)
    → ((d : Domain) → (f d).id ≡ d.id)
    → (ds : List Domain) (d : Domain) → search_domain_id_list id ds ≡ some d
    → search_domain_id_list id (update id f ds) ≡ some (f d)
unfolding search_domain_id_list update
search-update id f keeps [] d e = absurd (ground arith)
search-update id f keeps (x ∷ ds) d e = elim (Bool-cases (x.id == id)) [
  | inl same ↦
      let first : x ≡ d = ground arith in
      let still : ((f x).id == id) ≡ true = rw (keeps x) same in
      rw (update, same, search_domain_id_list, still, first) refl
  | inr other ↦
      rw (update, other, search_domain_id_list, other)
        (search-update id f keeps ds d (ground arith))
]

-- The loop keeps the ids.
search-walk :
    (id : ℕ) (d : Domain) (ds : List Domain) (x : Domain)
    → search_domain_id_list id (d ∷ ds) ≡ some x
    → (x' : Domain) × (search_domain_id_list id (walk d ds).0 ≡ some x')
unfolding search_domain_id_list walk
search-walk id d [] x e = (x, e)
search-walk id d (next ∷ ds) x e =
    let d' = with_pending d (kept d) in
    let next' = receive next (bypassed d) in
    elim (Bool-cases (d.id == id)) [
      | inl same ↦ elim (Bool-cases (is_runnable d')) [
        | inl r ↦ (d', rw (walk, r, search_domain_id_list, same) refl)
        | inr r ↦ (d', rw (walk, r, search_domain_id_list, same) refl)
      ]
      | inr other ↦ elim (Bool-cases (is_runnable d')) [
        | inl r ↦ elim (Bool-cases (next.id == id)) [
          | inl n ↦ (next', rw (walk, r, search_domain_id_list, other, n) refl)
          | inr n ↦ (x, rw (walk, r, search_domain_id_list, other, n) (ground arith))
        ]
        | inr r ↦ elim (Bool-cases (next.id == id)) [
          | inl n ↦
              let (x', found) =
                search-walk id next' ds next' (rw (search_domain_id_list, n) refl) in
              (x', rw (walk, r, search_domain_id_list, other) found)
          | inr n ↦
              let (x', found) =
                search-walk id next' ds x (rw (search_domain_id_list, n) (ground arith)) in
              (x', rw (walk, r, search_domain_id_list, other) found)
        ]
      ]
    ]

search-selected :
    (id : ℕ) (d : Domain) (ds : List Domain)
    → (walk d ds).1 ≡ some id
    → (x : Domain) × (search_domain_id_list id (walk d ds).0 ≡ some x)
unfolding search_domain_id_list walk
search-selected id d [] e = elim (Bool-cases (is_runnable d)) [
  | inl r ↦ (d, ground arith)
  | inr r ↦ absurd (ground arith)
]
search-selected id d (next ∷ ds) e =
    let d' = with_pending d (kept d) in
    elim (Bool-cases (is_runnable d')) [
      | inl r ↦ (d', rw (walk, r) (ground arith))
      | inr r ↦
          let (x, found) = search-selected id (receive next (bypassed d)) ds (ground arith) in
          elim (Bool-cases (d.id == id)) [
            | inl same ↦ (d', rw (walk, r, search_domain_id_list, same) refl)
            | inr other ↦ (x, rw (walk, r, search_domain_id_list, other) found)
          ]
    ]

search-chosen :
    (s : Sched) (ds : List Domain) (r : Domain)
    → search_domain_id_list s.root ds ≡ some r
    → (x : Domain) × (search_domain_id_list (chosen (record s { domains = ds })) (select ds).0
        ≡ some x)
unfolding select search_domain_id_list chosen
search-chosen s [] r e = absurd (ground arith)
search-chosen s (d ∷ ds) r e = elim (Option-cases ((walk d ds).1)) [
  | inl idle ↦ rw (chosen, idle) (search-walk s.root d ds r e)
  | inr (id, picked) ↦ rw (chosen, picked) (search-selected id d ds picked)
]

-- When the root domain is in the list, `xm_sched` returns with the domain that the loop chose as
-- the current one, active, whatever the handlers do; it returns 1 when the domain has its events
-- enabled, and else 0 with no event delivered.
pub xm_sched_lem :
    (handle : ℕ → ℕ → Events → Events) (s : Sched) (r : Domain)
    → search_domain_id_list s.root s.domains ≡ some r
    → (s' : Sched) × (code : ℕ) × (log : List ℕ) × (d : Domain) × (d' : Domain) × (xm_sched handle s
        ≡ some (s', code, log))
      × (s'.current ≡ chosen s)
      × (search_domain_id_list (chosen s) (select s.domains).0 ≡ some d)
      × (search_domain_id_list (chosen s) s'.domains ≡ some d')
      × (get_domain_state d' ≡ domain_active)
      × (((is_events_flag_enabled d.events ≡ true) × (code ≡ 1))
          ⊎ ((is_events_flag_enabled d.events ≡ false) × (code ≡ 0) × (log ≡ [])))
unfolding xm_sched set_domain_state is_events_flag_enabled get_domain_state
xm_sched_lem handle s r e =
    let id = chosen s in
    let (d, found) = search-chosen s s.domains r e in
    let activate : Domain → Domain = λ x. set_domain_state x domain_active in
    let active = update id activate (select s.domains).0 in
    let there : search_domain_id_list id active ≡ some (activate d) =
      search-update id activate (λ x. refl) (select s.domains).0 d found in
    let is_active = get_domain_state-set_domain_state d domain_active (omega arith) in
    elim (Bool-cases (is_events_flag_enabled d.events)) [
      | inr off ↦ (
        record s { domains = active; current = id },
        0,
        [],
        d,
        activate d,
        rw (xm_sched, there, off) refl,
        refl,
        found,
        there,
        is_active,
        inr (off, refl, refl),
      )
      | inl on ↦
          let ((events, log), ran) = sync_events-ends handle (id == s.root) (activate d) in
          let receive_back : Domain → Domain = λ x. record x { events = events } in
          (
            record s { domains = update id receive_back active; current = id },
            1,
            log,
            d,
            receive_back (activate d),
            rw (xm_sched, there, on, ran) refl,
            refl,
            found,
            search-update id receive_back (λ x. refl) active (activate d) there,
            is_active,
            inl (on, refl),
          )
    ]
