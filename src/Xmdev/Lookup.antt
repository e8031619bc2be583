-- ===== src/Xmdev/Lookup.antt =====
-- The registry as a map from identifiers to drivers.
use xmertl.Base.{ap, sym, zero, suc, ltb, ℕ, ◌/◌, ◌%◌, ◌^◌, ◌<◌, ◌≡◌, ◌⊎◌, inl, inr, refl, ◌∙◌}
use xmertl.Base.{
  Bool, ◌&&◌, not, true, false, Option, none, some, arith, ◌==◌, if◌then◌else◌, Bool-cases,
  Option-cases,
}
use xmertl.Base.{length, set, length-set, get_elem?-set_self, get_elem?-set_ne}
use xmertl.Base.Ints.{ℤ, pos, negsuc, to_ℕ}
use xmertl.Base.Memory.{get_elem?_past}
use xmertl.Bitmap.{set_bit, clear_bit, is_bit_set, is_bit_set-set_bit, is_bit_set-clear_bit}
use native.Mathlib.Decide.{ℕ_discrete}
use xmertl.Xmdev.{
  is_positive, Device, Registry, xm_devs_num, out_of_range, entry, is_in_use, xm_dev_register,
  xm_dev_unregister, xm_get_dev, Dispatch, enodev, enotty, fault, handle, through, xm_dev_ioctl,
}

abbrev pub is_some : Option Device → Bool
is_some none = false
is_some (some dev) = true

-- The mask has the bits of the entries that are not null.
pub record IsValid (r : Registry) : Type 0 where
  pub size : length r.devs ≡ xm_devs_num
  pub mask : (i : ℕ) → i < xm_devs_num → is_bit_set r.devmask i ≡ is_some (entry r i)

entry-set :
    (r : Registry) (i j mask : ℕ) (d : Option Device)
    → i < length r.devs
    → entry (record { devs = set r.devs i d; devmask = mask }) j ≡ (if i == j then d else entry r j)
unfolding entry
entry-set r i j mask d h = elim (ℕ_discrete i j) [
  | yes e ↦ ground (arith, get_elem?-set_self r.devs i d h)
  | no e ↦ ground (arith, get_elem?-set_ne r.devs d e)
]

range_cases :
    (devid : ℤ) → (out_of_range devid ≡ true) ⊎ (out_of_range devid ≡ false) × (to_ℕ devid < 32)
unfolding out_of_range
range_cases (pos i) = ground arith
range_cases (negsuc i) = inl refl

-- Registering a driver that is not null keeps the mask of a valid registry in step with the table.
pub xm_dev_register-IsValid :
    (devid : ℤ) (dev : Device) (r : Registry)
    → IsValid r
    → IsValid (xm_dev_register devid (some dev) r).1
unfolding xm_dev_register
xm_dev_register-IsValid devid dev r v = elim (range_cases devid) [
  | inl out ↦ rw out v
  | inr (inside, below) ↦ elim (Bool-cases (is_bit_set r.devmask (to_ℕ devid))) [
    | inl taken ↦ rw (inside, taken) v
    | inr free ↦
        rw (inside, free)
          (record {
            size = length-set r.devs (to_ℕ devid) (some dev) ∙ v.size;
            mask = λ i h.
                rw
                  (
                    is_bit_set-set_bit r.devmask (to_ℕ devid) i,
                    entry-set r (to_ℕ devid) i (set_bit r.devmask (to_ℕ devid)) (some dev)
                        (omega (arith, v.size)),
                  )
                  (ground (arith, v.mask i));
          })
  ]
]

-- The identifiers of the table
abbrev pub is_index : ℤ → Bool
is_index (pos i) = ltb i 32
is_index (negsuc i) = false

is_index_lem : (devid : ℤ) → is_index devid ≡ not (out_of_range devid)
unfolding out_of_range
is_index_lem (pos i) = ground arith
is_index_lem (negsuc i) = refl

-- For an identifier in range the lookup is the table's entry: a null entry has no bit.
get_dev_entry :
    (devid : ℤ) (r : Registry)
    → IsValid r
    → out_of_range devid ≡ false
    → to_ℕ devid < 32
    → xm_get_dev devid r ≡ entry r (to_ℕ devid)
unfolding xm_get_dev
get_dev_entry devid r v inside below = elim (Option-cases (entry r (to_ℕ devid))) [
  | inl e ↦ ground (arith, v.mask (to_ℕ devid) below, e)
  | inr (d, e) ↦ ground (arith, v.mask (to_ℕ devid) below, e)
]

get_dev_outside : (devid : ℤ) (r : Registry) → out_of_range devid ≡ true → xm_get_dev devid r ≡ none
unfolding xm_get_dev
get_dev_outside devid r out = rw out

-- An identifier in range has a bit exactly if the lookup finds a driver.
is_taken :
    (devid : ℤ) (r : Registry)
    → IsValid r
    → out_of_range devid ≡ false
    → to_ℕ devid < 32
    → is_bit_set r.devmask (to_ℕ devid) ≡ is_some (xm_get_dev devid r)
is_taken devid r v inside below =
    v.mask (to_ℕ devid) below ∙ ap is_some (sym (get_dev_entry devid r v inside below))

registered :
    (devid : ℤ) (dev : Option Device) (r : Registry)
    → IsValid r
    → (xm_dev_register devid dev r).0 ≡ (is_index devid && not (is_some (xm_get_dev devid r)))
unfolding xm_dev_register
registered devid dev r v = elim (range_cases devid) [
  | inl out ↦ rw (is_index_lem devid, out) refl
  | inr (inside, below) ↦ elim (Bool-cases (is_bit_set r.devmask (to_ℕ devid))) [
    | inl taken ↦
        rw (is_index_lem devid, inside, taken, ← is_taken devid r v inside below)
          (ground (arith, taken))
    | inr free ↦
        rw (is_index_lem devid, inside, free, ← is_taken devid r v inside below)
          (ground (arith, free))
  ]
]

looked_up :
    (devid j : ℤ) (dev : Option Device) (r : Registry)
    → IsValid r
    → xm_get_dev j (xm_dev_register devid dev r).1 ≡ (
        if (xm_dev_register devid dev r).0 && (to_ℕ j == to_ℕ devid) && not (out_of_range j)
        then dev
        else xm_get_dev j r)
unfolding xm_get_dev xm_dev_register
looked_up devid j dev r v = elim (range_cases devid) [
  | inl out ↦ rw out
  | inr (inside, below) ↦ elim (Bool-cases (is_bit_set r.devmask (to_ℕ devid))) [
    | inl taken ↦ rw (inside, taken)
    | inr free ↦ ground (
      arith,
      inside,
      free,
      range_cases j,
      is_bit_set-set_bit r.devmask (to_ℕ devid) (to_ℕ j),
      entry-set r (to_ℕ devid) (to_ℕ j) (set_bit r.devmask (to_ℕ devid)) dev
          (omega (arith, v.size)),
    )
  ]
]

-- In a valid registry a call of xm_dev_register succeeds exactly for an identifier from 0 to 31
-- under which the lookup finds no driver. Then the lookup of that identifier gives what was
-- registered, and every other lookup is as before; a call that fails changes no lookup.
pub xm_get_dev-xm_dev_register :
    (devid j : ℤ) (dev : Option Device) (r : Registry)
    → IsValid r
    → ((xm_dev_register devid dev r).0 ≡ (is_index devid && not (is_some (xm_get_dev devid r))))
      × (xm_get_dev j (xm_dev_register devid dev r).1 ≡ (
          if (xm_dev_register devid dev r).0 && (to_ℕ j == to_ℕ devid) && is_index j
          then dev
          else xm_get_dev j r))
xm_get_dev-xm_dev_register devid j dev r v =
    (registered devid dev r v, rw (is_index_lem j) (looked_up devid j dev r v))

-- Unregistering keeps the mask of a valid registry in step with the table.
pub xm_dev_unregister-IsValid :
    (devid : ℤ) (r : Registry) → IsValid r → IsValid (xm_dev_unregister devid r).1
unfolding xm_dev_unregister
xm_dev_unregister-IsValid devid r v = elim (range_cases devid) [
  | inl out ↦ rw out v
  | inr (inside, below) ↦ elim (Bool-cases (is_in_use (entry r (to_ℕ devid)))) [
    | inl used ↦ rw (inside, used) v
    | inr idle ↦
        rw (inside, idle)
          (record {
            size = length-set r.devs (to_ℕ devid) none ∙ v.size;
            mask = λ i h.
                rw
                  (
                    is_bit_set-clear_bit r.devmask (to_ℕ devid) i below h,
                    entry-set r (to_ℕ devid) i (clear_bit r.devmask (to_ℕ devid)) none
                        (omega (arith, v.size)),
                  )
                  (ground (arith, v.mask i));
          })
  ]
]

xm_get_dev-xm_dev_unregister :
    (devid j : ℤ) (r : Registry)
    → IsValid r
    → xm_get_dev j (xm_dev_unregister devid r).1
      ≡ (if (xm_dev_unregister devid r).0 && (to_ℕ j == to_ℕ devid) then none else xm_get_dev j r)
unfolding xm_get_dev xm_dev_unregister
xm_get_dev-xm_dev_unregister devid j r v = elim (range_cases devid) [
  | inl out ↦ rw out
  | inr (inside, below) ↦ elim (Bool-cases (is_in_use (entry r (to_ℕ devid)))) [
    | inl used ↦ rw (inside, used)
    | inr idle ↦ ground (
      arith,
      inside,
      idle,
      range_cases j,
      is_bit_set-clear_bit r.devmask (to_ℕ devid) (to_ℕ j) below,
      entry-set r (to_ℕ devid) (to_ℕ j) (clear_bit r.devmask (to_ℕ devid)) none
          (omega (arith, v.size)),
    )
  ]
]

-- The count of clients is not above 0.
abbrev pub has_no_client : ℤ → Bool
has_no_client (pos n) = n == 0
has_no_client (negsuc n) = true

idle_count : (n : ℤ) → has_no_client n ≡ not (is_positive n)
idle_count (pos zero) = refl
idle_count (pos (suc n)) = ground arith
idle_count (negsuc n) = refl

-- A driver that nobody uses can go.
abbrev pub is_idle : Option Device → Bool
is_idle none = false
is_idle (some dev) = has_no_client dev.client

is_idle_lem : (d : Option Device) → is_idle d ≡ not (is_in_use d)
unfolding is_in_use
is_idle_lem none = refl
is_idle_lem (some dev) = idle_count dev.client

removed :
    (devid : ℤ) (r : Registry)
    → IsValid r
    → (xm_dev_unregister devid r).0 ≡ is_idle (xm_get_dev devid r)
unfolding xm_dev_unregister
removed devid r v = elim (range_cases devid) [
  | inl out ↦ rw (get_dev_outside devid r out, out) refl
  | inr (inside, below) ↦ elim (Bool-cases (is_in_use (entry r (to_ℕ devid)))) [
    | inl used ↦
        rw (is_idle_lem (xm_get_dev devid r), get_dev_entry devid r v inside below, inside, used)
          refl
    | inr idle ↦
        rw (is_idle_lem (xm_get_dev devid r), get_dev_entry devid r v inside below, inside, idle)
          refl
  ]
]

-- In a valid registry a call of xm_dev_unregister succeeds exactly if the lookup of the identifier
-- finds a driver whose count of clients is 0 or negative. Then that lookup finds nothing any more,
-- and every other one is as before; a call that fails changes no lookup.
pub xm_dev_unregister_lem :
    (devid j : ℤ) (r : Registry)
    → IsValid r
    → ((xm_dev_unregister devid r).0 ≡ is_idle (xm_get_dev devid r))
      × (xm_get_dev j (xm_dev_unregister devid r).1 ≡ (
          if (xm_dev_unregister devid r).0 && (to_ℕ j == to_ℕ devid) then none else xm_get_dev j r))
xm_dev_unregister_lem devid j r v = (removed devid r v, xm_get_dev-xm_dev_unregister devid j r v)

-- What a call to a looked-up driver answers.
abbrev pub answer : Option Device → ℕ → Dispatch
answer none minor = enotty
answer (some found) minor = handle found minor

ioctl_inside :
    (devid minor : ℕ) (r : Registry)
    → IsValid r
    → devid < 32
    → (if is_bit_set r.devmask devid then through (entry r devid) minor else enotty)
      ≡ answer (xm_get_dev (pos devid) r) minor
unfolding through
ioctl_inside devid minor r v h =
    let looked = get_dev_entry (pos devid) r v (unfold out_of_range in ground arith) h in
    elim (Option-cases (entry r devid)) [
      | inl e ↦ rw (looked, v.mask devid h, e)
      | inr (d, e) ↦ rw (looked, v.mask devid h, e)
    ]

-- For an identifier in the table `xm_dev_ioctl` calls the registered driver, and answers -ENOTTY
-- if there is none. Past 32 it answers -ENODEV. At 32, which the test lets through, it answers by
-- the bit of the driver 0, and goes past the end of the table if that is set.
pub xm_dev_ioctl_lem :
    (dev : ℕ) (r : Registry)
    → IsValid r
    → xm_dev_ioctl dev r ≡ (
        if ltb (dev / 2 ^ 16 % 2 ^ 16) 32
        then answer (xm_get_dev (pos (dev / 2 ^ 16 % 2 ^ 16)) r) (dev % 2 ^ 16)
        else if dev / 2 ^ 16 % 2 ^ 16 == 32
        then (if is_bit_set r.devmask 0 then fault else enotty)
        else enodev)
unfolding xm_dev_ioctl
xm_dev_ioctl_lem dev r v =
    let devid = dev / 2 ^ 16 % 2 ^ 16 in
    elim (Bool-cases (ltb devid 32)) [
      | inl h ↦
          let same : devid % 32 ≡ devid = ground arith in
          ground (arith, same, h, ioctl_inside devid (dev % 2 ^ 16) r v (ground arith))
      | inr h ↦ elim (Bool-cases (devid == 32)) [
        | inl e ↦
            let first : devid % 32 ≡ 0 = ground arith in
            ground (arith, first, h, get_elem?_past r.devs devid (ground (arith, v.size)))
        | inr e ↦ ground arith
      ]
    ]
