-- ===== src/Xmdev.antt =====
-- xtratum/kernel/xmdev.c: the registry of device drivers, a table of pointers and a mask of the
-- identifiers in use.
pub mod Lookup
use xmertl.Base.{ℕ, zero, suc, ◌-◌, ◌/◌, ◌%◌, ◌^◌, bit_or, bit_and, ◌||◌, Bool, true, false}
use xmertl.Base.{Option, none, some, List, ltb, leb, ◌==◌, if◌then◌else◌, get_elem?, set}
use xmertl.Base.Ints.{ℤ, pos, negsuc, is_negative, to_ℕ}
use xmertl.Bitmap.{set_bit, clear_bit, is_bit_set}

abbrev pub xm_devs_num : ℕ
xm_devs_num = 32

abbrev pub is_positive : ℤ → Bool
is_positive (pos (suc n)) = true
is_positive n = false

-- `xm_dev_t`, where `handler` names the three functions of the driver.
pub record Device : Type 0 where
  pub devid : ℕ
  pub handler : ℕ
  pub client : ℤ

-- `devs` and `devmask`
pub record Registry : Type 0 where
  pub devs : List (Option Device)
  pub devmask : ℕ

unfoldable pub out_of_range : ℤ → Bool
out_of_range devid = leb xm_devs_num (to_ℕ devid) || is_negative devid

-- An entry of `devs`. A place outside the table is not read: see `out_of_range`.
unfoldable pub entry : Registry → ℕ → Option Device
entry r i = elim (get_elem? r.devs i) [ none ↦ none | some found ↦ found ]

-- True is the result 0, false the result -1. The driver may be a null pointer.
unfoldable pub xm_dev_register : ℤ → Option Device → Registry → Bool × Registry
unfolding out_of_range
xm_dev_register devid dev r =
    if out_of_range devid
    then (false, r)
    else if is_bit_set r.devmask (to_ℕ devid)
    then (false, r)
    else (
      true,
      record { devs = set r.devs (to_ℕ devid) dev; devmask = set_bit r.devmask (to_ℕ devid) },
    )

-- A null pointer, or a device with clients, is not taken out.
unfoldable pub is_in_use : Option Device → Bool
is_in_use none = true
is_in_use (some dev) = is_positive dev.client

unfoldable pub xm_dev_unregister : ℤ → Registry → Bool × Registry
unfolding out_of_range entry is_in_use
xm_dev_unregister devid r =
    if out_of_range devid
    then (false, r)
    else if is_in_use (entry r (to_ℕ devid))
    then (false, r)
    else (
      true,
      record { devs = set r.devs (to_ℕ devid) none; devmask = clear_bit r.devmask (to_ℕ devid) },
    )

unfoldable pub xm_get_dev : ℤ → Registry → Option Device
unfolding out_of_range entry
xm_get_dev devid r =
    if out_of_range devid
    then none
    else if is_bit_set r.devmask (to_ℕ devid)
    then entry r (to_ℕ devid)
    else none

-- What `xm_dev_ioctl` does: an error, or the call of a driver's handler for a minor number.
-- `fault` is a null pointer that is followed, or an access to `devs [32]`.
pub data Dispatch : Type 0 where
  enodev enotty fault : Dispatch
  handle : Device → ℕ → Dispatch

unfoldable pub through : Option Device → ℕ → Dispatch
through none minor = fault
through (some dev) minor = handle dev minor

-- The shift `1 << 32` of the identifier 32 goes by the low five bits of its count on the i386.
unfoldable pub xm_dev_ioctl : ℕ → Registry → Dispatch
unfolding entry through
xm_dev_ioctl dev r =
    let devid = dev / 2 ^ 16 % 2 ^ 16 in
    let minor = dev % 2 ^ 16 in
    if ltb xm_devs_num devid
    then enodev
    else if is_bit_set r.devmask (devid % 32)
    then through (entry r devid) minor
    else enotty
