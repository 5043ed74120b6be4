-- ===== src/Pipe/Fifo.antt =====
-- The bytes that a pipe holds, oldest first, and what the loops of kernel/core/pipe.c do to them.
use ustc_26spring.Common.{
  ℕ, zero, suc, ◌+◌, ◌%◌, ◌≤◌, ◌<◌, ◌≡◌, ◌≢◌, refl, ap, true, false, List, [], ◌∷◌, ◌++◌, arith,
  length, get_or, set, length-set, get_or-set_self, get_or-set_ne,
}
use mathlib.Core.Path.{ap₂}
use ustc_26spring.Common.Word.{add32, sub32, u32_mod}
use ustc_26spring.Pipe.{Pipe, pipe_size, push, front, advance, is_empty, is_full}

-- k bytes of the ring from counter r on.
abbrev pub window : List ℕ → ℕ → ℕ → List ℕ
window b r zero = []
window b r (suc k) = get_or b (r % pipe_size) 0 ∷ window b (add32 r 1) k

abbrev pub size : Pipe → ℕ
size p = sub32 p.nwrite p.nread

abbrev pub contents : Pipe → List ℕ
contents p = window p.bytes p.nread (size p)

pub record IsValid (p : Pipe) : Type 0 where
  pub storage : length p.bytes ≡ pipe_size
  pub read_word : p.nread < u32_mod
  pub write_word : p.nwrite < u32_mod
  pub bounded : size p ≤ pipe_size

-- Fewer than 512 steps do not come back to a cell of the ring.
cell_ne : (r k : ℕ) → suc k < pipe_size → (r + suc k) % u32_mod % pipe_size ≢ r % pipe_size
cell_ne r k h = omega arith

window-set :
    (b : List ℕ) (x k r i : ℕ)
    → length b ≡ pipe_size
    → r < u32_mod
    → k < pipe_size
    → i ≡ (r + k) % u32_mod % pipe_size
    → window (set b i x) r (suc k) ≡ window b r k ++ x ∷ []
window-set b x zero r i hb hr hk e =
    ap (λ v. v ∷ []) (ground (arith, get_or-set_self b i x 0 (omega arith)))
window-set b x (suc k) r i hb hr hk e =
    ap₂ ◌∷◌ (get_or-set_ne b i (r % pipe_size) x 0 (λ q. cell_ne r k hk (omega arith)))
      (window-set b x k (add32 r 1) i hb (omega arith) (omega arith) (omega arith))

length-window : (b : List ℕ) (r k : ℕ) → length (window b r k) ≡ k
length-window b r zero = refl
length-window b r (suc k) = ap suc (length-window b (add32 r 1) k)

pub length-contents : (p : Pipe) → length (contents p) ≡ size p
length-contents p = length-window p.bytes p.nread (size p)

-- The code's test for a full ring is exactly that it holds 512 bytes.
pub is_full_iff : (p : Pipe) → IsValid p → is_full p ≡ true → size p ≡ pipe_size
is_full_iff p v h = ground arith

pub not_full : (p : Pipe) → IsValid p → is_full p ≡ false → size p < pipe_size
not_full p v h = ground arith

pub not_empty : (p : Pipe) → IsValid p → is_empty p ≡ false → 0 < size p
not_empty p v h = ground arith

module _ (p : Pipe) (v : IsValid p) where
  pub push-IsValid : (x : ℕ) → is_full p ≡ false → IsValid (push p x)
  unfolding push
  push-IsValid x h =
      let room = not_full p v h in
      let kept = length-set p.bytes (p.nwrite % pipe_size) x in
      record {
        storage = omega arith;
        read_word = v.read_word;
        write_word = omega arith;
        bounded = omega arith;
      }

  pub contents-push : (x : ℕ) → is_full p ≡ false → contents (push p x) ≡ contents p ++ x ∷ []
  unfolding push
  contents-push x h =
      let room = not_full p v h in
      let grows : sub32 (add32 p.nwrite 1) p.nread ≡ suc (size p) = omega arith in
      rw grows (
        window-set p.bytes x (size p) p.nread (p.nwrite % pipe_size) v.storage v.read_word room
          (omega arith))

  pub advance-IsValid : is_empty p ≡ false → IsValid (advance p)
  unfolding advance
  advance-IsValid h = let some_left = not_empty p v h in omega arith

  pub contents-advance : is_empty p ≡ false → contents p ≡ front p ∷ contents (advance p)
  unfolding advance front
  contents-advance h =
      let some_left = not_empty p v h in
      let shrinks : size p ≡ suc (sub32 p.nwrite (add32 p.nread 1)) = omega arith in rw shrinks refl
