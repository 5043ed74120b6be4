-- ===== src/Fs/Fields.antt =====
-- The fields of an inode in the bytes of a block, as kernel/fs/fs.c reads and writes them.
use ustc_26spring.Common.{
  ℕ, zero, suc, ◌+◌, ◌*◌, ◌^◌, ◌≤◌, ◌<◌, ◌≡◌, refl, sym, ap, ◌∙◌, ◌⊎◌, inl, true, List, [], ◌∷◌,
  length, arith,
}
use mathlib.Core.Path.{ap₂}
use ustc_26spring.Bio.{Block}
use ustc_26spring.Fs.Words.{
  load16, store16, load32, store32, load16-store16_self, store16_out, load32-store32_self,
  store32_out, load16_eq, load32_eq,
}
use ustc_26spring.Fs.Inode.{Inode, naddrs}
use ustc_26spring.Fs.Dinode.{load_addrs, store_addrs, load_dinode, store_dinode}

abbrev pub AreWords : List ℕ → Type 0
AreWords [] = Unit
AreWords (a ∷ xs) = (a < 2 ^ 32) × AreWords xs

-- The fields of an inode fit those of a dinode.
pub record Fits (ip : Inode) : Type 0 where
  pub type : ip.type < 2 ^ 16
  pub major : ip.major < 2 ^ 16
  pub minor : ip.minor < 2 ^ 16
  pub nlink : ip.nlink < 2 ^ 16
  pub size : ip.size < 2 ^ 32
  pub count : length ip.addrs ≡ naddrs
  pub addrs : AreWords ip.addrs

-- Blocks with the same bytes from o on, n of them.
abbrev pub Agree : ℕ → ℕ → Block → Block → Type 0
Agree o n b c = (k : ℕ) → o ≤ k → k < o + n → b k ≡ c k

load16-Agree : (b c : Block) (o : ℕ) → Agree o 2 b c → load16 b o ≡ load16 c o
load16-Agree b c o h =
    load16_eq b c o (h o (omega arith) (omega arith)) (h (o + 1) (omega arith) (omega arith))

load32-Agree : (b c : Block) (o : ℕ) → Agree o 4 b c → load32 b o ≡ load32 c o
load32-Agree b c o h =
    load32_eq b c o (h o (omega arith) (omega arith)) (h (o + 1) (omega arith) (omega arith))
      (h (o + 2) (omega arith) (omega arith)) (h (o + 3) (omega arith) (omega arith))

load_addrs-Agree :
    (n : ℕ) (b c : Block) (o : ℕ) → Agree o (4 * n) b c → load_addrs n b o ≡ load_addrs n c o
unfolding load_addrs
load_addrs-Agree zero b c o h = refl
load_addrs-Agree (suc n) b c o h =
    ap₂ ◌∷◌ (load32-Agree b c o (λ k l m. h k l (omega arith)))
      (load_addrs-Agree n b c (o + 4) (λ k l m. h k (omega arith) (omega arith)))

pub load_dinode-Agree :
    (kp : Inode) (b c : Block) (o : ℕ) → Agree o 64 b c → load_dinode kp b o ≡ load_dinode kp c o
unfolding load_dinode
load_dinode-Agree kp b c o h =
    rw
      (
        load16-Agree b c o (λ k l m. h k l (omega arith)),
        load16-Agree b c (o + 2) (λ k l m. h k (omega arith) (omega arith)),
        load16-Agree b c (o + 4) (λ k l m. h k (omega arith) (omega arith)),
        load16-Agree b c (o + 6) (λ k l m. h k (omega arith) (omega arith)),
        load32-Agree b c (o + 8) (λ k l m. h k (omega arith) (omega arith)),
        load_addrs-Agree naddrs b c (o + 12) (λ k l m. h k (omega arith) (omega arith)),
      )
      refl

store_addrs_out :
    (xs : List ℕ) (b : Block) (o k : ℕ)
    → (k < o) ⊎ (o + 4 * length xs ≤ k)
    → store_addrs xs b o k ≡ b k
unfolding store_addrs
store_addrs_out [] b o k h = refl
store_addrs_out (a ∷ xs) b o k h =
    store_addrs_out xs (store32 b o a) (o + 4) k (ground arith) ∙ store32_out b o a k (ground arith)

load_addrs-store_addrs :
    (xs : List ℕ) (b : Block) (o : ℕ)
    → AreWords xs
    → load_addrs (length xs) (store_addrs xs b o) o ≡ xs
unfolding load_addrs store_addrs
load_addrs-store_addrs [] b o h = refl
load_addrs-store_addrs (a ∷ xs) b o (ha, h) =
    ap₂ ◌∷◌
      (load32-Agree (store_addrs xs (store32 b o a) (o + 4)) (store32 b o a) o
          (λ k l m. store_addrs_out xs (store32 b o a) (o + 4) k (inl m))
        ∙ load32-store32_self b o a ha)
      (load_addrs-store_addrs xs (store32 b o a) (o + 4) h)

pub store_dinode_out :
    (ip : Inode) (b : Block) (o k : ℕ)
    → length ip.addrs ≡ naddrs
    → (k < o) ⊎ (o + 64 ≤ k)
    → store_dinode ip b o k ≡ b k
unfolding store_dinode
store_dinode_out ip b o k n h =
    let b1 = store16 b o ip.type in
    let b2 = store16 b1 (o + 2) ip.major in
    let b3 = store16 b2 (o + 4) ip.minor in
    let b4 = store16 b3 (o + 6) ip.nlink in
    store_addrs_out ip.addrs (store32 b4 (o + 8) ip.size) (o + 12) k (ground arith)
    ∙ store32_out b4 (o + 8) ip.size k (ground arith)
    ∙ store16_out b3 (o + 6) ip.nlink k (ground arith)
    ∙ store16_out b2 (o + 4) ip.minor k (ground arith)
    ∙ store16_out b1 (o + 2) ip.major k (ground arith)
    ∙ store16_out b o ip.type k (ground arith)

-- The blocks that `store_dinode` goes through.
module _ (ip : Inode) (fits : Fits ip) (b : Block) (o : ℕ) where
  abbrev b1 : Block
  b1 = store16 b o ip.type

  abbrev b2 : Block
  b2 = store16 b1 (o + 2) ip.major

  abbrev b3 : Block
  b3 = store16 b2 (o + 4) ip.minor

  abbrev b4 : Block
  b4 = store16 b3 (o + 6) ip.nlink

  abbrev b5 : Block
  b5 = store32 b4 (o + 8) ip.size

  abbrev b6 : Block
  b6 = store_addrs ip.addrs b5 (o + 12)

  to_b5 : (k : ℕ) → k < o + 12 → b6 k ≡ b5 k
  to_b5 k h = store_addrs_out ip.addrs b5 (o + 12) k (inl h)

  to_b4 : (k : ℕ) → k < o + 8 → b6 k ≡ b4 k
  to_b4 k h = to_b5 k (omega arith) ∙ store32_out b4 (o + 8) ip.size k (inl h)

  to_b3 : (k : ℕ) → k < o + 6 → b6 k ≡ b3 k
  to_b3 k h = to_b4 k (omega arith) ∙ store16_out b3 (o + 6) ip.nlink k (inl h)

  to_b2 : (k : ℕ) → k < o + 4 → b6 k ≡ b2 k
  to_b2 k h = to_b3 k (omega arith) ∙ store16_out b2 (o + 4) ip.minor k (inl h)

  to_b1 : (k : ℕ) → k < o + 2 → b6 k ≡ b1 k
  to_b1 k h = to_b2 k (omega arith) ∙ store16_out b1 (o + 2) ip.major k (inl h)

  -- The fields come back.
  pub load_dinode-store_dinode :
      (kp : Inode)
      → load_dinode kp (store_dinode ip b o) o ≡ record kp {
        type = ip.type;
        major = ip.major;
        minor = ip.minor;
        nlink = ip.nlink;
        size = ip.size;
        addrs = ip.addrs;
        valid = true;
      }
  unfolding load_dinode store_dinode
  load_dinode-store_dinode kp =
      rw
        (
          load16-Agree b6 b1 o (λ k l m. to_b1 k m) ∙ load16-store16_self b o ip.type fits.type,
          load16-Agree b6 b2 (o + 2) (λ k l m. to_b2 k (omega arith))
              ∙ load16-store16_self b1 (o + 2) ip.major fits.major,
          load16-Agree b6 b3 (o + 4) (λ k l m. to_b3 k (omega arith))
              ∙ load16-store16_self b2 (o + 4) ip.minor fits.minor,
          load16-Agree b6 b4 (o + 6) (λ k l m. to_b4 k (omega arith))
              ∙ load16-store16_self b3 (o + 6) ip.nlink fits.nlink,
          load32-Agree b6 b5 (o + 8) (λ k l m. to_b5 k (omega arith))
              ∙ load32-store32_self b4 (o + 8) ip.size fits.size,
          ap (λ n. load_addrs n b6 (o + 12)) (sym fits.count)
              ∙ load_addrs-store_addrs ip.addrs b5 (o + 12) fits.addrs,
        )
        refl
