-- ===== src/Memory/Words.antt =====
-- The 64-bit accesses: a load after a store, and what a store leaves alone.
use ustc_26spring.Common.{ℕ, ◌+◌, ◌-◌, ◌*◌, ◌/◌, ◌%◌, ◌^◌, ◌≤◌, ◌<◌, ◌≡◌, ◌⊎◌, lt→ltb, ◌∙◌, arith}
use ustc_26spring.Memory.{Mem, load64, store64}

store64_in : (m : Mem) (a v i : ℕ) → i < 8 → store64 m a v (a + i) ≡ v / 256 ^ i % 256
unfolding store64
store64_in m a v i h =
    let e : a + i - a ≡ i = omega arith in
    rw (e, lt→ltb (a + i) (a + 8) (omega arith)) (ground arith)

store64_first : (m : Mem) (a v : ℕ) → store64 m a v a ≡ v % 256
store64_first m a v =
    let e : a + 0 ≡ a = omega arith in rw e at (store64_in m a v 0 (omega arith)) ∙ omega arith

-- The bytes of a 64-bit number make it up.
bytes_of :
    (v : ℕ)
    → v < 2 ^ 64
    → v % 256
        + 256
          * (v / 256 ^ 1 % 256
              + 256
                * (v / 256 ^ 2 % 256
                    + 256
                      * (v / 256 ^ 3 % 256
                          + 256
                            * (v / 256 ^ 4 % 256
                                + 256
                                  * (v / 256 ^ 5 % 256
                                      + 256 * (v / 256 ^ 6 % 256 + 256 * (v / 256 ^ 7 % 256)))))))
      ≡ v
bytes_of v h = omega arith

-- A 64-bit number that is stored at an address is loaded from it.
pub load64-store64_self : (m : Mem) (a v : ℕ) → v < 2 ^ 64 → load64 (store64 m a v) a ≡ v
unfolding load64
load64-store64_self m a v h =
    rw
      (
        store64_first m a v,
        store64_in m a v 1 (omega arith),
        store64_in m a v 2 (omega arith),
        store64_in m a v 3 (omega arith),
        store64_in m a v 4 (omega arith),
        store64_in m a v 5 (omega arith),
        store64_in m a v 6 (omega arith),
        store64_in m a v 7 (omega arith),
      )
      (bytes_of v h)

pub store64_out : (m : Mem) (a v b : ℕ) → (b < a) ⊎ (a + 8 ≤ b) → store64 m a v b ≡ m b
unfolding store64
store64_out m a v b h = ground arith

-- Loads that do not meet a changed byte.
pub load64_eq :
    (m n : Mem) (a : ℕ) → ((i : ℕ) → i < 8 → m (a + i) ≡ n (a + i)) → load64 m a ≡ load64 n a
unfolding load64
load64_eq m n a h =
    let e : a + 0 ≡ a = omega arith in
    let first : m a ≡ n a = rw e at (h 0 (omega arith)) in
    rw (
      first,
      h 1 (omega arith),
      h 2 (omega arith),
      h 3 (omega arith),
      h 4 (omega arith),
      h 5 (omega arith),
      h 6 (omega arith),
      h 7 (omega arith),
    )

pub load64-store64_ne :
    (m : Mem) (a v b : ℕ) → (b + 8 ≤ a) ⊎ (a + 8 ≤ b) → load64 (store64 m a v) b ≡ load64 m b
load64-store64_ne m a v b h =
    load64_eq (store64 m a v) m b (λ i lt. store64_out m a v (b + i) (omega arith))
