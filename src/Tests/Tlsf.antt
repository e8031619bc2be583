-- ===== src/Tests/Tlsf.antt =====
-- Sizes of xtratum/kernel/tlsf.c: a request of 200 bytes, and a free block of 204.
use xmertl.Base.{◌<◌, ◌≡◌, refl, inr, arith, length}
use xmertl.Base.Ints.{negsuc}
use xmertl.Tlsf.{
  table, shift_of, add_int, ms_bit, mapping_insert, mapping_search, real_fli, max_sli,
}
use xmertl.Tlsf.Fit.{IsNotBelow, mapping_insert-IsInRange}

full_table : length table ≡ 256
unfolding table
full_table = refl

no_bit : ms_bit 0 ≡ negsuc 0
unfolding ms_bit table add_int shift_of
no_bit = refl

wanted : mapping_search 200 ≡ record { r = 200; fl = 1; sl = 18 }
unfolding mapping_search ms_bit table add_int shift_of
wanted = refl

stored : mapping_insert 204 ≡ record { r = 204; fl = 1; sl = 19 }
unfolding mapping_insert ms_bit table add_int shift_of
stored = refl

found : IsNotBelow (mapping_insert 204) (mapping_search 200)
found = rw (wanted, stored) (inr (refl, omega arith))

mapping_insert-IsInRange_example :
    ((mapping_insert 204).fl < real_fli) × ((mapping_insert 204).sl < max_sli)
mapping_insert-IsInRange_example = mapping_insert-IsInRange 204 (omega arith)
