-- ===== src/Vm/Copy.antt =====
-- Copies between the kernel and a user address space: `copyout`, `copyin` and `copyinstr` of
-- kernel/core/vm.c. The kernel's buffer is a list of bytes; -1 is `none`. A range of user
-- addresses does not run past 2 ^ 64.
use ustc_26spring.Common.{
  ℕ, zero, suc, ◌+◌, ◌-◌, Bool, true, false, leb, ◌==◌, Option, none, some, List, [], ◌∷◌, ◌++◌,
  min, length,
}
use mathlib.Core.Option
use ustc_26spring.Memory.{Mem, load64, store8}
use ustc_26spring.Kalloc.{Kmem, page_size, page_round_down}
use ustc_26spring.Vm.Pte.{pte_w, max_va}
use ustc_26spring.Vm.Walk.{lookup, walkaddr}

-- The n bytes from pa on, as `memmove` reads them.
unfoldable pub read_bytes : Mem → ℕ → ℕ → List ℕ
read_bytes m pa zero = []
read_bytes m pa (suc n) = m pa ∷ read_bytes m (pa + 1) n

-- The bytes written from pa on, as `memmove` writes them.
unfoldable pub write_bytes : Mem → ℕ → List ℕ → Mem
unfolding store8
write_bytes m pa [] = m
write_bytes m pa (x ∷ xs) = write_bytes (store8 m pa x) (pa + 1) xs

-- The bytes of a page from address va on, at most len.
abbrev pub chunk : ℕ → ℕ → ℕ
chunk va len = min (page_size - (va - page_round_down va)) len

-- The loop of `copyin`; each round reads at least one byte, so len rounds are enough.
unfoldable pub copyin_from : ℕ → ℕ → ℕ → ℕ → Kmem → Option (List ℕ)
unfolding read_bytes
copyin_from zero pt srcva len k = some []
copyin_from (suc fuel) pt srcva len k = elim (len == 0) [
  | true ↦ some []
  | false ↦
      let va0 = page_round_down srcva in
      let pa0 = walkaddr pt va0 k in
      let n = chunk srcva len in
      elim (pa0 == 0) [
        | true ↦ none
        | false ↦
            Option.map (λ rest. read_bytes k.mem (pa0 + (srcva - va0)) n ++ rest)
              (copyin_from fuel pt (va0 + page_size) (len - n) k)
      ]
]

unfoldable pub copyin : ℕ → ℕ → ℕ → Kmem → Option (List ℕ)
unfolding copyin_from
copyin pt srcva len k = copyin_from len pt srcva len k

abbrev pub take : ℕ → List ℕ → List ℕ
take zero xs = []
take (suc n) [] = []
take (suc n) (x ∷ xs) = x ∷ take n xs

abbrev pub drop : ℕ → List ℕ → List ℕ
drop zero xs = xs
drop (suc n) [] = []
drop (suc n) (x ∷ xs) = drop n xs

-- The loop of `copyout`: whether it returns 0, and the memory, with the bytes of the rounds
-- before a failure written.
unfoldable pub copyout_from : ℕ → ℕ → ℕ → List ℕ → Kmem → Bool × Kmem
unfolding write_bytes
copyout_from zero pt dstva src k = (true, k)
copyout_from (suc fuel) pt dstva src k = elim (length src == 0) [
  | true ↦ (true, k)
  | false ↦
      let va0 = page_round_down dstva in
      elim (leb max_va va0) [
        | true ↦ (false, k)
        | false ↦
            let pa0 = walkaddr pt va0 k in
            elim (pa0 == 0) [
              | true ↦ (false, k)
              | false ↦ elim (lookup pt va0 k == 0) [
                | true ↦ (false, k)
                | false ↦ elim (pte_w (load64 k.mem (lookup pt va0 k))) [
                  | false ↦ (false, k)
                  | true ↦
                      let n = chunk dstva (length src) in
                      copyout_from fuel pt (va0 + page_size) (drop n src)
                        (record k { mem = write_bytes k.mem (pa0 + (dstva - va0)) (take n src) })
                ]
              ]
            ]
      ]
]

unfoldable pub copyout : ℕ → ℕ → List ℕ → Kmem → Bool × Kmem
unfolding copyout_from
copyout pt dstva src k = copyout_from (length src) pt dstva src k

-- The inner loop of `copyinstr` over n bytes of a page: the bytes before a 0 byte, and whether
-- one was met.
unfoldable pub string_part : Mem → ℕ → ℕ → List ℕ × Bool
string_part m pa zero = ([], false)
string_part m pa (suc n) = elim (m pa == 0) [
  | true ↦ ([], true)
  | false ↦ let (rest, ended) = string_part m (pa + 1) n in (m pa ∷ rest, ended)
]

-- The outer loop of `copyinstr`: the string without its 0 byte.
unfoldable pub copyinstr_from : ℕ → ℕ → ℕ → ℕ → Kmem → Option (List ℕ)
unfolding string_part
copyinstr_from zero pt srcva max k = none
copyinstr_from (suc fuel) pt srcva max k = elim (max == 0) [
  | true ↦ none
  | false ↦
      let va0 = page_round_down srcva in
      let pa0 = walkaddr pt va0 k in
      let n = chunk srcva max in
      elim (pa0 == 0) [
        | true ↦ none
        | false ↦
            let (part, ended) = string_part k.mem (pa0 + (srcva - va0)) n in
            elim ended [
              | true ↦ some part
              | false ↦
                  Option.map (λ rest. part ++ rest)
                    (copyinstr_from fuel pt (va0 + page_size) (max - n) k)
            ]
      ]
]

unfoldable pub copyinstr : ℕ → ℕ → ℕ → Kmem → Option (List ℕ)
unfolding copyinstr_from
copyinstr pt srcva max k = copyinstr_from max pt srcva max k
