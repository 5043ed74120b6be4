-- ===== src/Virtio/Alloc.antt =====
-- `alloc3_desc`, `free_desc` and `free_chain` of kernel/drivers/virtio_disk.c on the descriptors.
use ustc_26spring.Common.{
  ℕ, zero, suc, ◌+◌, ◌%◌, ◌≤◌, ◌<◌, ◌≡◌, ◌≢◌, refl, ◌∙◌, ap, inl, inr, true, false, leb, ◌==◌,
  if◌then◌else◌, Option, none, some, arith, Bool-cases, Option-cases,
}
use ustc_26spring.Common.Result.{Result, ok}
use ustc_26spring.Virtio.{
  write_at, num, no_desc, Driver, find_desc, alloc_desc, free_desc, free_chain, alloc3_desc,
}

abbrev Taken : ℕ → ℕ → Driver → ℕ × Driver → Type 0
Taken n i d r =
    (i ≤ r.0)
    × (r.0 < i + n)
    × (d.free r.0 ≡ true)
    × (r.1 ≡ record d { free = write_at d.free r.0 false })

find_desc-some : (n i : ℕ) (d : Driver) {r : ℕ × Driver} → find_desc n i d ≡ some r → Taken n i d r
unfolding find_desc
find_desc-some zero i d e = cc
find_desc-some (suc n) i d {r} e = elim (Bool-cases (d.free i)) [
  | inl free ↦
      let q : r ≡ (i, record d { free = write_at d.free i false }) = ground arith in
      rw q (omega arith, omega arith, free, refl)
  | inr used ↦
      let (lo, hi, was, q) = find_desc-some n (i + 1) d (rw (used, find_desc) at e) in
      (omega arith, omega arith, was, q)
]

-- The driver when there are fewer than three descriptors: nothing but free descriptors changes.
pub record Unchanged (d e : Driver) : Type 0 where
  pub free : (i : ℕ) → e.free i ≡ d.free i
  pub desc : (i : ℕ) → d.free i ≡ false → e.desc i ≡ d.desc i
  pub rest : e ≡ record d { free = e.free; desc = e.desc }

-- The three descriptors are different and were free, and are not free now.
pub data Allocs (d : Driver) (r : Result (Option (ℕ × ℕ × ℕ) × Driver)) : Type 0 where
  too_few : (e : Driver) → Unchanged d e → r ≡ ok (none, e) → Allocs d r
  three :
      (i0 i1 i2 : ℕ)
      → (i0 < 8) × (i1 < 8) × (i2 < 8)
      → (i0 ≢ i1) × (i0 ≢ i2) × (i1 ≢ i2)
      → (d.free i0 ≡ true) × (d.free i1 ≡ true) × (d.free i2 ≡ true)
      → r
        ≡ ok (
          some (i0, i1, i2),
          record d { free = write_at (write_at (write_at d.free i0 false) i1 false) i2 false },
        )
      → Allocs d r

pub free_desc-ok :
    (i : ℕ) (d : Driver)
    → i < 8
    → d.free i ≡ false
    → free_desc i d
      ≡ ok (record d { desc = write_at d.desc i no_desc; free = write_at d.free i true })
unfolding free_desc
free_desc-ok i d lt used = let q : leb num i ≡ false = ground arith in rw (q, used) refl

taken_of :
    (d e : Driver) (j : ℕ)
    → e ≡ record d { free = write_at d.free j false }
    → (i : ℕ) → e.free i ≡ (if i == j then false else d.free i)
taken_of d e j q i = ap (λ (f : Driver). f.free i) q

-- A descriptor that is given back.
abbrev pub back : ℕ → Driver → Driver
back i d = record d { desc = write_at d.desc i no_desc; free = write_at d.free i true }

one_back :
    (d d0 : Driver) (i0 : ℕ)
    → d.free i0 ≡ true
    → d0 ≡ record d { free = write_at d.free i0 false }
    → Unchanged d (back i0 d0)
one_back d d0 i0 f0 q0 =
    rw q0 (record { free = λ i. ground arith; desc = λ i h. ground arith; rest = refl })

two_back :
    (d d0 d1 : Driver) (i0 i1 : ℕ)
    → d.free i0 ≡ true
    → d.free i1 ≡ true
    → d0 ≡ record d { free = write_at d.free i0 false }
    → d1 ≡ record d0 { free = write_at d0.free i1 false }
    → Unchanged d (back i1 (back i0 d1))
two_back d d0 d1 i0 i1 f0 f1 q0 q1 =
    rw (q1, q0) (record { free = λ i. ground arith; desc = λ i h. ground arith; rest = refl })

pub alloc3_desc-Allocs : (d : Driver) → Allocs d (alloc3_desc d)
unfolding alloc3_desc
alloc3_desc-Allocs d = elim (Option-cases (alloc_desc d)) [
  | inl n ↦
      rw (n, alloc3_desc)
        (too_few d (record { free = λ i. refl; desc = λ i h. refl; rest = refl }) refl)
  | inr ((i0, d0), e0) ↦
      let (lo0, hi0, f0, q0) = find_desc-some num 0 d e0 in
      let t0 = taken_of d d0 i0 q0 in
      elim (Option-cases (alloc_desc d0)) [
        | inl n ↦
            let r = free_desc-ok i0 d0 (omega arith) (t0 i0 ∙ ground arith) in
            rw (e0, n, r, alloc3_desc) (too_few (back i0 d0) (one_back d d0 i0 f0 q0) refl)
        | inr ((i1, d1), e1) ↦
            let (lo1, hi1, f1, q1) = find_desc-some num 0 d0 e1 in
            let t1 = taken_of d0 d1 i1 q1 in
            let ne : i0 ≢ i1 = (λ z. ground (arith, t0 i1)) in
            let free1 : d.free i1 ≡ true = ground (arith, t0 i1) in
            elim (Option-cases (alloc_desc d1)) [
              | inl n ↦
                  let r0 = free_desc-ok i0 d1 (omega arith) (ground (arith, t1 i0, t0 i0)) in
                  let r1 = free_desc-ok i1 (back i0 d1) (omega arith) (ground (arith, t1 i1)) in
                  rw (e0, e1, n, r0, alloc3_desc)
                    (rw r1
                      (too_few (back i1 (back i0 d1)) (two_back d d0 d1 i0 i1 f0 free1 q0 q1) refl))
              | inr ((i2, d2), e2) ↦
                  let (lo2, hi2, f2, q2) = find_desc-some num 0 d1 e2 in
                  rw (e0, e1, e2, alloc3_desc)
                    (three i0 i1 i2 (omega arith, omega arith, omega arith)
                      (ne, (λ z. ground (arith, t1 i2, t0 i2)), (λ z. ground (arith, t1 i2)))
                      (f0, free1, ground (arith, t1 i2, t0 i2))
                      (ap (λ e. ok (some (i0, i1, i2), e)) (rw (q2, q1, q0) refl)))
            ]
      ]
]

chain_more :
    (fuel i j : ℕ) (d e : Driver)
    → free_desc i d ≡ ok e
    → (d.desc i).flags % 2 ≡ 1
    → (d.desc i).next ≡ j
    → free_chain (suc fuel) i d ≡ free_chain fuel j e
unfolding free_chain
chain_more fuel i j d e freed flag next =
    let more : ((d.desc i).flags % 2 == 1) ≡ true = ground arith in
    rw (freed, more) (ap (λ k. free_chain fuel k e) next)

chain_end :
    (fuel i : ℕ) (d e : Driver)
    → free_desc i d ≡ ok e
    → (d.desc i).flags % 2 ≡ 0
    → free_chain (suc fuel) i d ≡ ok e
unfolding free_chain
chain_end fuel i d e freed flag =
    let last : ((d.desc i).flags % 2 == 1) ≡ false = ground arith in rw (freed, last) refl

-- A chain of three descriptors is given back.
pub free_chain-ok :
    (d : Driver) (i0 i1 i2 : ℕ)
    → (i0 < 8) × (i1 < 8) × (i2 < 8)
    → (i0 ≢ i1) × (i0 ≢ i2) × (i1 ≢ i2)
    → (d.free i0 ≡ false) × (d.free i1 ≡ false) × (d.free i2 ≡ false)
    → ((d.desc i0).flags % 2 ≡ 1) × ((d.desc i0).next ≡ i1)
    → ((d.desc i1).flags % 2 ≡ 1) × ((d.desc i1).next ≡ i2)
    → (d.desc i2).flags % 2 ≡ 0
    → free_chain num i0 d ≡ ok (back i2 (back i1 (back i0 d)))
free_chain-ok d i0 i1 i2 (l0, l1, l2) (n01, n02, n12) (f0, f1, f2) (g0, x0) (g1, x1) g2 =
    chain_more 7 i0 i1 d (back i0 d) (free_desc-ok i0 d l0 f0) g0 x0
    ∙ chain_more 6 i1 i2 (back i0 d) (back i1 (back i0 d))
        (free_desc-ok i1 (back i0 d) l1 (ground arith)) (ground arith) (ground arith)
    ∙ chain_end 5 i2 (back i1 (back i0 d)) (back i2 (back i1 (back i0 d)))
        (free_desc-ok i2 (back i1 (back i0 d)) l2 (ground arith)) (ground arith)
