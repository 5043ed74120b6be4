-- ===== src/Bio/Tests.antt =====
-- The buffer cache of kernel/core/bio.c with three buffers.
use ustc_26spring.Common.{◌⊎◌, ◌≡◌, refl, List, [], ◌∷◌, arith}
use ustc_26spring.Common.Result.{ok}
use ustc_26spring.Bio.{
  Buf, empty_buf, reset_buf, binit, bget, drop_ref, take_out, find_cached, recycle,
}
use ustc_26spring.Bio.Lru.{Absent, Hit, Evicted, bget-ok}
use ustc_26spring.Bio.Unique.{IsUnique, binit-IsUnique, bget-IsUnique, drop_ref-IsUnique}

-- Block 7 of device 1 takes over buffer 0, the last of the list.
abbrev first_block : List Buf
first_block = empty_buf 2 ∷ empty_buf 1 ∷ reset_buf 1 7 (empty_buf 0) ∷ []

bget_first : bget 1 7 (binit 3) ≡ ok (0, first_block)
unfolding bget binit find_cached recycle
bget_first = refl

bget-ok_example :
    Hit 1 7 (binit 3) (0, first_block)
    ⊎ (Absent 1 7 (binit 3) × Evicted 1 7 (binit 3) (0, first_block))
bget-ok_example = bget-ok 1 7 (binit 3) bget_first

binit-IsUnique_example : IsUnique (binit 3)
binit-IsUnique_example = binit-IsUnique 3

bget-IsUnique_example : IsUnique first_block
bget-IsUnique_example = bget-IsUnique 1 7 (binit 3) (binit-IsUnique 3) bget_first

drop_ref-IsUnique_example : IsUnique (drop_ref 0 first_block)
unfolding take_out
drop_ref-IsUnique_example =
    drop_ref-IsUnique 0 first_block refl (λ e. omega arith)
      (bget-IsUnique 1 7 (binit 3) (binit-IsUnique 3) bget_first)
