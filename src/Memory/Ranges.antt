-- ===== src/Memory/Ranges.antt =====
-- What `memset` and `memmove` of kernel/lib/string.c leave at every address.
use ustc_26spring.Common.{
  ℕ, zero, suc, ◌+◌, ◌-◌, ◌%◌, ◌≤◌, ◌<◌, ◌≡◌, ◌⊎◌, ◌&&◌, leb, ltb, if◌then◌else◌, arith,
}
use ustc_26spring.Memory.{Mem, store8, memset_loop, memset, move_down, move_up, memmove}

memset_loop_lem :
    (k i p c : ℕ) (m : Mem) (a : ℕ)
    → memset_loop k i p c m a ≡ (if leb (p + i) a && ltb a (p + i + k) then c % 256 else m a)
unfolding memset_loop
memset_loop_lem zero i p c m a = ground arith
memset_loop_lem (suc k) i p c m a =
    ground (arith, memset_loop_lem k (i + 1) p c (store8 m (p + i) (c % 256)) a)

-- After `memset` the n bytes from dst on are c reduced to a byte, and all others as before.
pub memset_lem :
    (m : Mem) (dst c n a : ℕ)
    → memset m dst c n a ≡ (if leb dst a && ltb a (dst + n) then c % 256 else m a)
unfolding memset
memset_lem m dst c n a = ground (arith, memset_loop_lem n 0 dst c m a)

move_down_lem :
    (n d s : ℕ) (m : Mem) (a : ℕ)
    → s < d
    → move_down n d s m a ≡ (if leb d a && ltb a (d + n) then m (s + (a - d)) else m a)
unfolding move_down
move_down_lem zero d s m a h = ground arith
move_down_lem (suc i) d s m a h =
    ground (arith, move_down_lem i d s (store8 m (d + i) (m (s + i))) a h)

move_up_lem :
    (k i d s : ℕ) (m : Mem) (a : ℕ)
    → (d ≤ s) ⊎ (s + i + k ≤ d)
    → move_up k i d s m a ≡ (if leb (d + i) a && ltb a (d + i + k) then m (s + (a - d)) else m a)
unfolding move_up
move_up_lem zero i d s m a h = ground arith
move_up_lem (suc k) i d s m a h =
    ground (arith, move_up_lem k (i + 1) d s (store8 m (d + i) (m (s + i))) a)

-- After `memmove`, overlap or not, the n bytes from d on are those that stood in the n bytes from
-- s on before the call, and all others are as before.
pub memmove_lem :
    (m : Mem) (d s n a : ℕ)
    → memmove m d s n a ≡ (if leb d a && ltb a (d + n) then m (s + (a - d)) else m a)
unfolding memmove
memmove_lem m d s n a = ground (arith, move_down_lem n d s m a, move_up_lem n 0 d s m a)
