-- ===== src/Sched/Order.antt =====
-- The order of the domain list of xtratum/include/domain.h.
use xmertl.Base.{ℕ, ◌≤◌, ◌<◌, ltb, ◌≡◌, ◌≢◌, ◌==◌, if◌then◌else◌, Bool-cases, inl, inr}
use xmertl.Base.{List, [], ◌∷◌, All, All-map, arith, some}
use xmertl.Domain.{Domain}
use xmertl.Sched.{insert_domain_list, remove_domain_list, search_domain_id_list}

-- The most urgent domains first
unfoldable pub IsSorted : List Domain → Type 0
IsSorted [] = Unit
IsSorted (d ∷ ds) = All (λ x. d.priority ≤ x.priority) ds × IsSorted ds

All-insert_domain_list :
    (P : Domain → Type 0) (node : Domain) (ds : List Domain)
    → P node
    → All P ds
    → All P (insert_domain_list node ds)
unfolding insert_domain_list
All-insert_domain_list P node [] p h = (p, tt)
All-insert_domain_list P node (d ∷ ds) p h = elim (Bool-cases (ltb node.priority d.priority)) [
  | inl e ↦ rw (e, insert_domain_list) (p, h)
  | inr e ↦ rw (e, insert_domain_list) (h.0, All-insert_domain_list P node ds p h.1)
]

-- Inserting a domain in a list in order of priority keeps the order.
pub insert_domain_list-IsSorted :
    (node : Domain) (ds : List Domain) → IsSorted ds → IsSorted (insert_domain_list node ds)
unfolding insert_domain_list IsSorted
insert_domain_list-IsSorted node [] h = (tt, tt)
insert_domain_list-IsSorted node (d ∷ ds) h = elim (Bool-cases (ltb node.priority d.priority)) [
  | inl e ↦
      let before : node.priority < d.priority = ground arith in
      rw (e, insert_domain_list) ((omega arith, All-map (λ x p. omega arith) ds h.0), h)
  | inr e ↦
      let after : d.priority ≤ node.priority = ground arith in
      rw (e, insert_domain_list)
        (
          All-insert_domain_list (λ x. d.priority ≤ x.priority) node ds after h.0,
          insert_domain_list-IsSorted node ds h.1,
        )
]

All-remove_domain_list :
    (P : Domain → Type 0) (id : ℕ) (ds : List Domain) → All P ds → All P (remove_domain_list id ds)
unfolding remove_domain_list
All-remove_domain_list P id [] h = tt
All-remove_domain_list P id (d ∷ ds) h = elim (Bool-cases (d.id == id)) [
  | inl e ↦ rw (e, remove_domain_list) h.1
  | inr e ↦ rw (e, remove_domain_list) (h.0, All-remove_domain_list P id ds h.1)
]

pub remove_domain_list-IsSorted :
    (id : ℕ) (ds : List Domain) → IsSorted ds → IsSorted (remove_domain_list id ds)
unfolding remove_domain_list IsSorted
remove_domain_list-IsSorted id [] h = tt
remove_domain_list-IsSorted id (d ∷ ds) h = elim (Bool-cases (d.id == id)) [
  | inl e ↦ rw (e, remove_domain_list) h.1
  | inr e ↦
      rw (e, remove_domain_list)
        (
          All-remove_domain_list (λ x. d.priority ≤ x.priority) id ds h.0,
          remove_domain_list-IsSorted id ds h.1,
        )
]

-- No other domain has the id of the node.
unfoldable pub IsNew : ℕ → List Domain → Type 0
IsNew id ds = All (λ d. d.id ≢ id) ds

search-insert :
    (node : Domain) (ds : List Domain) (id : ℕ)
    → IsNew node.id ds
    → search_domain_id_list id (insert_domain_list node ds)
      ≡ (if node.id == id then some node else search_domain_id_list id ds)
unfolding search_domain_id_list insert_domain_list IsNew
search-insert node [] id new = ground arith
search-insert node (d ∷ ds) id new = ground (arith, new.0, search-insert node ds id new.1)

remove-insert :
    (node : Domain) (ds : List Domain)
    → IsNew node.id ds
    → remove_domain_list node.id (insert_domain_list node ds) ≡ ds
unfolding remove_domain_list insert_domain_list IsNew
remove-insert node [] new = ground arith
remove-insert node (d ∷ ds) new = ground (arith, new.0, remove-insert node ds new.1)

-- A domain that is inserted with a new id is found by its id, every other search is as before, and
-- its removal gives the list back.
pub insert_domain_list_lem :
    (node : Domain) (ds : List Domain) (id : ℕ)
    → IsNew node.id ds
    → (search_domain_id_list id (insert_domain_list node ds)
        ≡ (if node.id == id then some node else search_domain_id_list id ds))
      × (remove_domain_list node.id (insert_domain_list node ds) ≡ ds)
insert_domain_list_lem node ds id new = (search-insert node ds id new, remove-insert node ds new)
