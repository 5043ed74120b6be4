-- ===== src/Vm/Tests.antt =====
-- Page tables of kernel/core/vm.c on a table with one page.
use ustc_26spring.Common.{◌%◌, ◌≡◌, refl, some, [], ◌∷◌}
use ustc_26spring.Memory.{load64, store64}
use ustc_26spring.Kalloc.{Kmem}
use ustc_26spring.Vm.Pte.{make_pte}
use ustc_26spring.Vm.Walk.{walkaddr, walk_from}
use ustc_26spring.Vm.Copy.{copyin}
use ustc_26spring.Vm.Bytes.{fetch, copyin-fetch}

-- The tables stand at 4096, 8192 and 12288, and user page 0 at 16384.
abbrev one_page : Kmem
one_page = record {
  mem =
      store64 (store64 (store64 (λ a. a % 256) 4096 (make_pte 8192 0)) 8192 (make_pte 12288 0))
        12288 (make_pte 16384 18);
  freelist = 0;
}

copyin-fetch_example : copyin 4096 5 2 one_page ≡ fetch 4096 5 2 one_page
copyin-fetch_example = copyin-fetch 4096 5 2 one_page

copyin_two : copyin 4096 5 2 one_page ≡ some (5 ∷ 6 ∷ [])
unfolding copyin walkaddr load64 store64 walk_from
copyin_two = refl
