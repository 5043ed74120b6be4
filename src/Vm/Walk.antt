-- ===== src/Vm/Walk.antt =====
-- `walk`, `walkaddr` and `mappages` of kernel/core/vm.c. A pointer to an entry is its address, and
-- 0 is the null pointer. The levels of `walk` count down to the leaves.
use ustc_26spring.Common.{
  ℕ, zero, suc, ◌+◌, ◌-◌, ◌*◌, ◌/◌, ◌%◌, Bool, true, false, not, leb, ◌==◌, if◌then◌else◌,
}
use ustc_26spring.Common.Result.{Result, ok, panic, ◌>>=◌}
use ustc_26spring.Common.Word.{add64, u64_mod}
use ustc_26spring.Memory.{memset, load64, store64}
use ustc_26spring.Kalloc.{Kmem, page_size, kalloc}
use ustc_26spring.Vm.Pte.{pte_v, pte_u, pte2pa, make_pte, px, max_va}

-- The address of the entry of table pt for va at a level.
abbrev pub entry : ℕ → ℕ → ℕ → ℕ
entry pt level va = pt + 8 * px level va

-- A new table below the entry at pte: the page, zeroed, and the entry that points to it.
abbrev pub new_table : Kmem → ℕ → ℕ → Kmem
new_table k newpt pte = record k {
  mem = store64 (memset k.mem newpt 0 page_size) pte (make_pte newpt 0);
}

-- The loop of `walk` from a level down.
unfoldable pub walk_from : ℕ → ℕ → ℕ → Bool → Kmem → ℕ × Kmem
walk_from zero pt va alloc k = (entry pt 0 va, k)
walk_from (suc level) pt va alloc k = elim (pte_v (load64 k.mem (entry pt (suc level) va))) [
  | true ↦ walk_from level (pte2pa (load64 k.mem (entry pt (suc level) va))) va alloc k
  | false ↦ elim alloc [
    | false ↦ (0, k)
    | true ↦
        let (newpt, k') = kalloc k in
        elim (newpt == 0) [
          | true ↦ (0, k')
          | false ↦ walk_from level newpt va true (new_table k' newpt (entry pt (suc level) va))
        ]
  ]
]

unfoldable pub walk : ℕ → ℕ → Bool → Kmem → Result (ℕ × Kmem)
unfolding walk_from
walk pt va alloc k = if leb max_va va then panic else ok (walk_from 2 pt va alloc k)

-- What `walk` with alloc = 0 finds; it changes nothing.
abbrev pub lookup : ℕ → ℕ → Kmem → ℕ
lookup pt va k = (walk_from 2 pt va false k).0

-- `walkaddr`: the physical page of a user page, or 0.
unfoldable pub walkaddr : ℕ → ℕ → Kmem → ℕ
walkaddr pt va k =
    if leb max_va va
    then 0
    else let pte = lookup pt va k in
      if pte == 0
      then 0
      else if not (pte_v (load64 k.mem pte))
      then 0
      else if not (pte_u (load64 k.mem pte))
      then 0
      else pte2pa (load64 k.mem pte)

-- The loop of `mappages` from page a on, which ends at page `last`; it has as many rounds as the
-- range has pages. The Boolean tells 0 from -1.
unfoldable pub map_from : ℕ → ℕ → ℕ → ℕ → ℕ → ℕ → Kmem → Result (Bool × Kmem)
unfolding walk
map_from zero pt a last pa perm k = ok (true, k)
map_from (suc n) pt a last pa perm k = walk pt a true k >>= λ (pte, k'). elim (pte == 0) [
  | true ↦ ok (false, k')
  | false ↦ elim (pte_v (load64 k'.mem pte)) [
    | true ↦ panic
    | false ↦
        let k'' = record k' { mem = store64 k'.mem pte (make_pte pa perm) } in
        elim (a == last) [
          | true ↦ ok (true, k'')
          | false ↦ map_from n pt (add64 a page_size) last (add64 pa page_size) perm k''
        ]
  ]
]

-- `mappages(pagetable, va, size, pa, perm)`
unfoldable pub mappages : ℕ → ℕ → ℕ → ℕ → ℕ → Kmem → Result (Bool × Kmem)
unfolding map_from
mappages pt va size pa perm k =
    if not (va % page_size == 0)
    then panic
    else if not (size % page_size == 0)
    then panic
    else if size == 0
    then panic
    else map_from (size / page_size) pt va ((va + size - page_size) % u64_mod) pa perm k
