-- ===== src/Virtio/Tests.antt =====
-- The disk driver with a device at concrete states.
use ustc_26spring.Common.{
  ℕ, ◌+◌, ◌≤◌, ◌<◌, ◌≡◌, ◌≢◌, ◌==◌, if◌then◌else◌, refl, ◌∙◌, ap, ◌⊎◌, inl, inr, Bool, true, false,
  none, some, [], arith, Bool-cases,
}
use ustc_26spring.Common.Result.{Result, ok, panic}
use ustc_26spring.Bio.{Block}
use ustc_26spring.Virtio.{
  Addr, null, op, bytes_of, status_of, Desc, virtio_disk_init, Request, Machine, find_desc,
  alloc3_desc, free_desc, start_rw, end_rw, complete_used, virtio_disk_isr,
}
use ustc_26spring.Virtio.Device.{
  asked, ends, take_avail, IsDevice, IsAlone, called, interrupted, looked, finished, start, Reach,
  here, next,
}
use ustc_26spring.Virtio.Interrupt.{status_at, pending}
use ustc_26spring.Virtio.Safe.{end_rw-Reach, virtio_disk_isr-Reach}

-- A device that follows a chain of three descriptors, and reports an error for sector 16.
abbrev status_for : ℕ → Machine → ℕ
status_for i m = if (m.driver.ops i).sector == 16 then 1 else 0

abbrev with_status : ℕ → ℕ → ℕ → Addr → Machine → Machine
with_status h i b (status_of j) m = ends h i b j (status_for i m) (asked i b m) m
with_status h i b null m = m
with_status h i b (op k) m = m
with_status h i b (bytes_of k) m = m

abbrev with_body : ℕ → ℕ → Addr → Desc → Machine → Machine
with_body h i (bytes_of b) d m = with_status h i b (m.driver.desc d.next).addr m
with_body h i null d m = m
with_body h i (op k) d m = m
with_body h i (status_of k) d m = m

abbrev with_header : ℕ → Addr → Desc → Machine → Machine
with_header h (op i) d m = with_body h i (m.driver.desc d.next).addr (m.driver.desc d.next) m
with_header h null d m = m
with_header h (bytes_of k) d m = m
with_header h (status_of k) d m = m

abbrev serve : ℕ → Machine → Machine
serve h m = with_header h (m.driver.desc h).addr (m.driver.desc h) m

abbrev Serves : ℕ → Machine → Machine → Type 0
Serves h m n = n ≡ serve h m

Serves-IsDevice : IsDevice Serves
Serves-IsDevice h i b j m n e f = (
  status_for i m,
  asked i b m,
  ground arith,
  e
      ∙ ap (λ a. with_header h a (m.driver.desc h) m) f.header
      ∙ ap (λ a. with_body h i a (m.driver.desc (m.driver.desc h).next) m) f.body
      ∙ ap (λ a. with_status h i b a m) f.status,
  inr refl,
)

-- Buffer 5 is read from sector 7.
abbrev sector_seven : ℕ → Block
sector_seven s i = if s == 7 then 42 else 0

abbrev begun : Machine
begun = start Serves (λ b i. 0) (λ b. if b == 5 then 7 else b + 10) sector_seven

abbrev read_call : Request
read_call = record { i0 = 0; i1 = 1; i2 = 2; write = false }

abbrev result_of : Machine → Result (Bool × Machine) → Machine
result_of m (ok (q, n)) = n
result_of m panic = m

abbrev isr_of : Machine → Result Machine → Machine
isr_of m (ok n) = n
isr_of m panic = m

abbrev read_queued : Machine
read_queued = result_of begun (start_rw 5 false begun)

abbrev read_served : Machine
read_served = serve 0 (record (take_avail read_queued) { at_work = [] })

abbrev read_done : Machine
read_done = isr_of begun (virtio_disk_isr read_served)

started_lem : start_rw 5 false begun ≡ ok (true, read_queued)
unfolding start_rw virtio_disk_init alloc3_desc find_desc free_desc
started_lem = refl

isr_lem : virtio_disk_isr read_served ≡ ok read_done
unfolding start_rw virtio_disk_init alloc3_desc find_desc complete_used
isr_lem = refl

-- The read of buffer 6, from sector 16, is not served, and the interrupt panics.
abbrev error_reported : Machine
error_reported =
    serve 0 (record (take_avail (result_of begun (start_rw 6 false begun))) { at_work = [] })

error_lem : virtio_disk_isr error_reported ≡ panic
unfolding start_rw virtio_disk_init alloc3_desc find_desc free_desc complete_used
error_lem = refl

read-Reach : Reach Serves read_done
unfolding start_rw virtio_disk_init alloc3_desc find_desc complete_used
read-Reach =
    next
      (next
        (next
          (next (here (λ b i. 0) (λ b. if b == 5 then 7 else b + 10) sector_seven)
            (called 5 false true read_queued refl (λ c r e. cc) started_lem))
          (looked (λ e. omega arith)))
        (finished [] [] 0 read_served refl refl))
      (interrupted read_done isr_lem)

waits_lem : read_done.requests 5 ≡ some read_call
unfolding start_rw virtio_disk_init alloc3_desc find_desc complete_used
waits_lem = refl

-- The call returns with what sector 7 has.
read_bytes_lem : read_done.bytes 5 3 ≡ 42
unfolding start_rw virtio_disk_init alloc3_desc find_desc complete_used
read_bytes_lem = refl

end_rw-Reach_example :
    ((read_done.busy 5 ≡ true) × (end_rw 5 read_call read_done ≡ ok (false, read_done)))
    ⊎ ((read_done.busy 5 ≡ false)
        × ((n : Machine) × (end_rw 5 read_call read_done ≡ ok (true, n))
            × (n.sectors (n.blockno 5) ≡ n.bytes 5)))
end_rw-Reach_example =
    end_rw-Reach Serves Serves-IsDevice read_done read-Reach 5 read_call waits_lem

idle_lem : read_done.requests 6 ≡ none
unfolding start_rw virtio_disk_init alloc3_desc find_desc complete_used
idle_lem = refl

alone_lem : IsAlone 6 read_done
unfolding start_rw virtio_disk_init alloc3_desc find_desc complete_used
alone_lem c r e z = elim (Bool-cases (c == 5)) [
  | inl same ↦ ground arith
  | inr other ↦ cc (rw other at e)
]

virtio_disk_isr-Reach_example :
    ((queued : Bool) × (n : Machine) × (start_rw 6 true read_done ≡ ok (queued, n)))
    × (((n : Machine) × (virtio_disk_isr read_done ≡ ok n)
          × (n.driver.used_idx ≡ n.driver.done_idx)
          × ((k : ℕ) → (pending read_done ≤ k) ⊎ (status_at read_done k ≡ 0)))
        ⊎ ((virtio_disk_isr read_done ≡ panic)
            × ((k : ℕ) × (k < pending read_done) × (status_at read_done k ≢ 0))))
virtio_disk_isr-Reach_example =
    virtio_disk_isr-Reach Serves Serves-IsDevice read_done read-Reach 6 true idle_lem alone_lem
