-- ===== src/Memory.antt =====
-- Memory as bytes by address, with the routines of kernel/lib/string.c and the 64-bit accesses
-- that the page allocator and the page tables make. Addresses are numbers: a range that a routine
-- is given does not run past the end of the address space.
pub mod Ranges
pub mod Words
pub mod Tests
use ustc_26spring.Common.{
  ℕ, zero, suc, ◌+◌, ◌-◌, ◌*◌, ◌/◌, ◌%◌, ◌^◌, Bool, true, false, ◌&&◌, ltb, ◌==◌, if◌then◌else◌,
}

abbrev pub Mem : Type 0
Mem = ℕ → ℕ

-- A store of one byte.
unfoldable pub store8 : Mem → ℕ → ℕ → Mem
store8 m a v b = if b == a then v else m b

-- The loop of `memset` with n - i rounds left.
memset_loop : ℕ → ℕ → ℕ → ℕ → Mem → Mem
unfolding store8
memset_loop zero i p c m = m
memset_loop (suc k) i p c m = memset_loop k (i + 1) p c (store8 m (p + i) (c % 256))

pub memset : Mem → ℕ → ℕ → ℕ → Mem
unfolding memset_loop
memset m dst c n = memset_loop n 0 dst c m

-- The loop of `memmove` that copies backwards, from i = n down to 1.
move_down : ℕ → ℕ → ℕ → Mem → Mem
unfolding store8
move_down zero d s m = m
move_down (suc i) d s m = move_down i d s (store8 m (d + i) (m (s + i)))

-- The loop of `memmove` that copies forwards, with n - i rounds left.
move_up : ℕ → ℕ → ℕ → ℕ → Mem → Mem
unfolding store8
move_up zero i d s m = m
move_up (suc k) i d s m = move_up k (i + 1) d s (store8 m (d + i) (m (s + i)))

pub memmove : Mem → ℕ → ℕ → ℕ → Mem
unfolding move_down move_up
memmove m d s n = if ltb s d && ltb d (s + n) then move_down n d s m else move_up n 0 d s m

-- A 64-bit load and store, low byte first.
unfoldable pub load64 : Mem → ℕ → ℕ
load64 m a =
    m a
    + 256
      * (m (a + 1)
          + 256
            * (m (a + 2)
                + 256
                  * (m (a + 3)
                      + 256
                        * (m (a + 4) + 256 * (m (a + 5) + 256 * (m (a + 6) + 256 * m (a + 7)))))))

unfoldable pub store64 : Mem → ℕ → ℕ → Mem
store64 m a v b = if ltb b a then m b else if ltb b (a + 8) then v / 256 ^ (b - a) % 256 else m b
