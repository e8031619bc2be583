-- ===== src/Tests/Xmdev.antt =====
-- The device registry of xtratum/kernel/xmdev.c with one driver, number 3.
use xmertl.Base.{
  ℕ, zero, suc, ◌*◌, ◌/◌, ◌%◌, ◌^◌, ◌≡◌, refl, false, not, ◌&&◌, none, some, arith, replicate,
  if◌then◌else◌, ◌==◌, ltb,
}
use xmertl.Base.Ints.{pos}
use xmertl.Base.Bits.{bit_at-zero}
use xmertl.Bitmap.{set_bit, is_bit_set, is_bit_set_lem}
use xmertl.Xmdev.{
  Device, Registry, entry, out_of_range, xm_dev_register, xm_dev_unregister, xm_get_dev,
  xm_dev_ioctl, enodev, enotty, fault,
}
use xmertl.Xmdev.Lookup.{
  is_index, is_some, is_idle, IsValid, answer, xm_dev_register-IsValid, xm_get_dev-xm_dev_register,
  xm_dev_unregister_lem, xm_dev_ioctl_lem,
}

abbrev fifo : Device
fifo = record { devid = 3; handler = 7; client = pos 0 }

abbrev other : Device
other = record { devid = 5; handler = 8; client = pos 0 }

abbrev empty : Registry
empty = record { devs = replicate 32 none; devmask = 0 }

no_entry : (n i : ℕ) → entry (record { devs = replicate n none; devmask = 0 }) i ≡ none
unfolding entry
no_entry zero i = refl
no_entry (suc n) zero = refl
no_entry (suc n) (suc i) = no_entry n i

empty-IsValid : IsValid empty
empty-IsValid = record {
  size = refl;
  mask = λ i h. ground (arith, is_bit_set_lem 0 i, bit_at-zero i, no_entry 32 i);
}

abbrev one_driver : Registry
one_driver = (xm_dev_register (pos 3) (some fifo) empty).1

one_driver-IsValid : IsValid one_driver
one_driver-IsValid = xm_dev_register-IsValid (pos 3) fifo empty empty-IsValid

-- An identifier in use is refused; one that is free is looked up afterwards.
registered :
    ((xm_dev_register (pos 3) (some other) one_driver).0 ≡ false)
    × (xm_get_dev (pos 5) (xm_dev_register (pos 5) (some other) one_driver).1 ≡ some other)
unfolding xm_dev_register xm_get_dev out_of_range entry set_bit is_bit_set
registered = (refl, refl)

xm_get_dev-xm_dev_register_example :
    ((xm_dev_register (pos 5) (some other) one_driver).0
      ≡ (is_index (pos 5) && not (is_some (xm_get_dev (pos 5) one_driver))))
    × (xm_get_dev (pos 5) (xm_dev_register (pos 5) (some other) one_driver).1 ≡ (
        if (xm_dev_register (pos 5) (some other) one_driver).0 && (5 == 5) && is_index (pos 5)
        then some other
        else xm_get_dev (pos 5) one_driver))
xm_get_dev-xm_dev_register_example =
    xm_get_dev-xm_dev_register (pos 5) (pos 5) (some other) one_driver one_driver-IsValid

xm_dev_unregister_lem_example :
    ((xm_dev_unregister (pos 3) one_driver).0 ≡ is_idle (xm_get_dev (pos 3) one_driver))
    × (xm_get_dev (pos 3) (xm_dev_unregister (pos 3) one_driver).1 ≡ (
        if (xm_dev_unregister (pos 3) one_driver).0 && (3 == 3)
        then none
        else xm_get_dev (pos 3) one_driver))
xm_dev_unregister_lem_example = xm_dev_unregister_lem (pos 3) (pos 3) one_driver one_driver-IsValid

-- The identifier 32, minor 0
abbrev dev_32 : ℕ
dev_32 = 32 * 2 ^ 16

xm_dev_ioctl_lem_example : xm_dev_ioctl dev_32 one_driver ≡ (
    if ltb (dev_32 / 2 ^ 16 % 2 ^ 16) 32
    then answer (xm_get_dev (pos (dev_32 / 2 ^ 16 % 2 ^ 16)) one_driver) (dev_32 % 2 ^ 16)
    else if dev_32 / 2 ^ 16 % 2 ^ 16 == 32
    then (if is_bit_set one_driver.devmask 0 then fault else enotty)
    else enodev)
xm_dev_ioctl_lem_example = xm_dev_ioctl_lem dev_32 one_driver one_driver-IsValid
