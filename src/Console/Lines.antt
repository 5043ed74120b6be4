-- ===== src/Console/Lines.antt =====
-- The committed bytes and the line in edit of the console of kernel/core/console.c.
use ustc_26spring.Common.{
  ℕ, zero, suc, ◌+◌, ◌%◌, ◌≤◌, ◌<◌, ◌≡◌, ◌≢◌, refl, ap, List, [], ◌∷◌, ◌++◌, arith, length, get_or,
  set, get_or-set_self, get_or-set_ne,
}
use mathlib.Core.Path.{ap₂}
use ustc_26spring.Common.Word.{add32, sub32, u32_mod}
use ustc_26spring.Console.{Console, input_buf}

-- k bytes of the ring from counter r on.
abbrev pub window : List ℕ → ℕ → ℕ → List ℕ
window b r zero = []
window b r (suc k) = get_or b (r % input_buf) 0 ∷ window b (add32 r 1) k

-- What readers can have, and the line in edit.
abbrev pub committed : Console → List ℕ
committed c = window c.buf c.r (sub32 c.w c.r)

abbrev pub edited : Console → List ℕ
edited c = window c.buf c.w (sub32 c.e c.w)

pub record IsValid (c : Console) : Type 0 where
  pub storage : length c.buf ≡ input_buf
  pub r_word : c.r < u32_mod
  pub w_word : c.w < u32_mod
  pub e_word : c.e < u32_mod
  pub order : sub32 c.w c.r + sub32 c.e c.w ≡ sub32 c.e c.r
  pub bounded : sub32 c.e c.r ≤ input_buf

cell_ne : (r k : ℕ) → suc k < input_buf → (r + suc k) % u32_mod % input_buf ≢ r % input_buf
cell_ne r k h = omega arith

-- A write behind a window leaves it.
pub window-set_out :
    (b : List ℕ) (x k j r i : ℕ)
    → r < u32_mod
    → k ≤ j
    → j < input_buf
    → i ≡ (r + j) % u32_mod % input_buf
    → window (set b i x) r k ≡ window b r k
window-set_out b x zero j r i hr hk hj e = refl
window-set_out b x (suc k) zero r i hr hk hj e = absurd (omega arith)
window-set_out b x (suc k) (suc j) r i hr hk hj e =
    ap₂ ◌∷◌ (get_or-set_ne b i (r % input_buf) x 0 (λ q. cell_ne r j hj (omega arith)))
      (window-set_out b x k j (add32 r 1) i (omega arith) (omega arith) (omega arith) (omega arith))

-- A write just behind a window extends it.
pub window-set_end :
    (b : List ℕ) (x k r i : ℕ)
    → length b ≡ input_buf
    → r < u32_mod
    → k < input_buf
    → i ≡ (r + k) % u32_mod % input_buf
    → window (set b i x) r (suc k) ≡ window b r k ++ x ∷ []
window-set_end b x zero r i hb hr hk e =
    ap (λ v. v ∷ []) (ground (arith, get_or-set_self b i x 0 (omega arith)))
window-set_end b x (suc k) r i hb hr hk e =
    ap₂ ◌∷◌ (get_or-set_ne b i (r % input_buf) x 0 (λ q. cell_ne r k hk (omega arith)))
      (window-set_end b x k (add32 r 1) i hb (omega arith) (omega arith) (omega arith))

pub window-append :
    (b : List ℕ) (m n r s : ℕ)
    → r < u32_mod
    → s ≡ (r + m) % u32_mod
    → window b r (m + n) ≡ window b r m ++ window b s n
window-append b zero n r s hr e =
    let same : s ≡ r = omega arith in let z : 0 + n ≡ n = omega arith in rw (same, z)
window-append b (suc m) n r s hr e =
    let z : suc m + n ≡ suc (m + n) = omega arith in
    rw z (
      ap (λ l. get_or b (r % input_buf) 0 ∷ l)
        (window-append b m n (add32 r 1) s (omega arith) (omega arith)))

pub length-window : (b : List ℕ) (r k : ℕ) → length (window b r k) ≡ k
length-window b r zero = refl
length-window b r (suc k) = ap suc (length-window b (add32 r 1) k)
