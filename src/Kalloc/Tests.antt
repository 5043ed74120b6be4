-- ===== src/Kalloc/Tests.antt =====
-- The page allocator of kernel/core/kalloc.c with one page.
use ustc_26spring.Common.{ℕ, ◌+◌, ◌≤◌, ◌<◌, ◌≡◌, refl, List, [], ◌∷◌, arith}
use ustc_26spring.Common.Result.{ok}
use ustc_26spring.Memory.{Mem, load64}
use ustc_26spring.Kalloc.{Kmem, page_size, kalloc, kfree, kinit}
use ustc_26spring.Kalloc.Free.{Holds, IsPage, kalloc_pop, kfree_push}
use ustc_26spring.Kalloc.Init.{In, kinit_lem}

abbrev zeros : Mem
zeros a = 0

abbrev kernel_end : ℕ
kernel_end = 0x87ffe001

abbrev page : ℕ
page = 0x87fff000

abbrev no_pages : Kmem
no_pages = record { mem = zeros; freelist = 0 }

abbrev one_page : Kmem
one_page = record { mem = zeros; freelist = page }

page-IsPage : IsPage kernel_end page
page-IsPage = record { aligned = refl; above = omega arith; below = omega arith }

kalloc_pop_example :
    ((kalloc one_page).0 ≡ page)
    × Holds kernel_end (kalloc one_page).1 []
    × ((a : ℕ) → page ≤ a → a < page + page_size → (kalloc one_page).1.mem a ≡ 5)
unfolding load64
kalloc_pop_example =
    kalloc_pop kernel_end one_page page [] (omega arith)
      (record { chain = (refl, refl); pages = (page-IsPage, tt); distinct = (tt, tt) })

kfree_push_example :
    (k : Kmem) × (kfree kernel_end page no_pages ≡ ok k) × Holds kernel_end k (page ∷ [])
kfree_push_example =
    kfree_push kernel_end no_pages page [] page-IsPage tt
      (record { chain = refl; pages = tt; distinct = tt })

kinit_lem_example :
    (k : Kmem) × (l : List ℕ) × (kinit kernel_end zeros ≡ ok k)
    × Holds kernel_end k l
    × ((x : ℕ) → IsPage kernel_end x → In x l)
kinit_lem_example = kinit_lem kernel_end zeros
