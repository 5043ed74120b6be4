-- ===== src/Lock/Intr.antt =====
-- kernel/core/intr.c: the nesting count of one hart and its interrupt-enable bit.
use ustc_26spring.Common.{
  ℕ, zero, suc, ◌+◌, ◌-◌, ◌<◌, ◌≡◌, refl, Bool, false, ◌&&◌, ltb, ◌==◌, if◌then◌else◌, arith, ap,
  ◌∙◌,
}
use ustc_26spring.Common.Result.{Result, ok, panic, ◌>>=◌}

-- `noff` and `intena` of struct cpu, and the SIE bit of the hart's sstatus.
pub record Hart : Type 0 where
  pub noff : ℕ
  pub intena : Bool
  pub sie : Bool

unfoldable pub push_off : Hart → Hart
push_off c = record c {
  noff = c.noff + 1;
  intena = if c.noff == 0 then c.sie else c.intena;
  sie = false;
}

unfoldable pub pop_off : Hart → Result Hart
pop_off c =
    if c.sie
    then panic
    else if ltb c.noff 1
    then panic
    else ok (record c { noff = c.noff - 1; sie = (c.noff - 1 == 0) && c.intena })

-- While a hart is inside a `push_off` its interrupts are off.
pub record IsQuiet (c : Hart) : Type 0 where
  pub quiet : 0 < c.noff → c.sie ≡ false

pub push_off-IsQuiet : (c : Hart) → IsQuiet (push_off c)
unfolding push_off
push_off-IsQuiet c = record { quiet = λ _. refl }

pub pop_off-IsQuiet : (c : Hart) {d : Hart} → pop_off c ≡ ok d → IsQuiet d
unfolding pop_off
pop_off-IsQuiet c e = record { quiet = λ h. ground arith }

-- n times `push_off`, then m times `pop_off`.
pub push_many : ℕ → Hart → Hart
push_many zero c = c
push_many (suc n) c = push_many n (push_off c)

pub pop_many : ℕ → Hart → Result Hart
pop_many zero c = ok c
pop_many (suc n) c = pop_off c >>= pop_many n

-- What n nested `push_off` make of a hart.
push_many_lem :
    (n : ℕ) (c : Hart)
    → push_many (suc n) c ≡ record {
      noff = c.noff + suc n;
      intena = if c.noff == 0 then c.sie else c.intena;
      sie = false;
    }
unfolding push_many push_off
push_many_lem zero c = refl
push_many_lem (suc n) c = ground (arith, push_many_lem n (push_off c))

pop_off_inner :
    (base n : ℕ) (b : Bool)
    → pop_off (record { noff = base + suc (suc n); intena = b; sie = false })
      ≡ ok (record { noff = base + suc n; intena = b; sie = false })
unfolding pop_off
pop_off_inner base n b = ground arith

pop_many_lem :
    (n base : ℕ) (b : Bool)
    → pop_many (suc n) (record { noff = base + suc n; intena = b; sie = false })
      ≡ ok (record { noff = base; intena = b; sie = (base == 0) && b })
unfolding pop_many
pop_many_lem zero base b = unfold pop_off in ground arith
pop_many_lem (suc n) base b = rw (pop_off_inner base n b) (pop_many_lem n base b)

-- n nested `push_off` followed by as many `pop_off` do not panic, and leave the nesting count and
-- the interrupt-enable bit as they were, on a hart that keeps interrupts off inside `push_off`.
pub pop_many-push_many :
    (n : ℕ) (c : Hart)
    → IsQuiet c
    → (d : Hart) × (pop_many n (push_many n c) ≡ ok d) × (d.noff ≡ c.noff) × (d.sie ≡ c.sie)
unfolding pop_many push_many
pop_many-push_many zero c q = (c, refl, refl, refl)
pop_many-push_many (suc n) c q = (
  record {
    noff = c.noff;
    intena = if c.noff == 0 then c.sie else c.intena;
    sie = (c.noff == 0) && (if c.noff == 0 then c.sie else c.intena);
  },
  ap (pop_many (suc n)) (push_many_lem n c) ∙ pop_many_lem n c.noff _,
  refl,
  ground arith,
)
