-- ===== src/Fdc/Watchdog.antt =====
-- The watchdog of the disk controller, and transfers whose drive is taken away (libs/v6core/src/fdc_wd1793.cpp).
use v6emul.Base.{
  ℕ, zero, suc, ◌-◌, ◌%◌, ◌≡◌, refl, ◌∙◌, ap, arith, bit_and, bit_or, false, ◌==◌, if◌then◌else◌,
  Bool-cases, inl, inr, none, some, ltb, suc_nonzero,
}
use v6emul.Fdc.{Fdc, in_image, data_port, fdd_size, load, store}
use v6emul.Fdc.Access.{read, write, write_system, read_ready, read_data, write_data}
use v6emul.Fdc.Transfer.{IsTransfer}

-- the ready register, read `n` times
unfoldable pub poll_ready : ℕ → Fdc → Fdc
poll_ready zero f = f
poll_ready (suc n) f = poll_ready n (read_ready f).1

-- A transfer that was given up.
pub record IsLost (f f' : Fdc) : Type 0 where
  pub none_left : f'.rw_len ≡ 0
  pub irq_raised : f'.irq ≡ 0x80
  pub lost_data : f'.status ≡ bit_or (bit_and f.status 0xfc) 0x04
  pub stopped : f'.wait ≡ 0

ready_step : (n : ℕ) (f : Fdc) → f.wait ≡ suc (suc n) → (read_ready f).1 ≡ record f { wait = suc n }
unfolding read_ready
ready_step n f e =
    let not_last : (suc (suc n) == 1) ≡ false = ground arith in
    let less : suc (suc n) - 1 ≡ suc n = omega arith in simp (e, suc_nonzero, not_last, less)

-- After as many reads of the ready port as the watchdog counts, which is not 0, a transfer is over:
-- no bytes are left, the status has lost data and not busy, the interrupt is raised, and the
-- watchdog is at 0.
pub poll_ready-IsLost : (n : ℕ) (f : Fdc) → f.wait ≡ suc n → IsLost f (poll_ready (suc n) f)
unfolding poll_ready read_ready
poll_ready-IsLost zero f e =
    simp (e) (record { none_left = refl; irq_raised = refl; lost_data = refl; stopped = refl })
poll_ready-IsLost (suc n) f e =
    let rest = poll_ready-IsLost n (record f { wait = suc n }) refl in
    let same = ap (poll_ready (suc n)) (ready_step n f e) in
    record {
      none_left = ap (λ g. g.rw_len) same ∙ rest.none_left;
      irq_raised = ap (λ g. g.irq) same ∙ rest.irq_raised;
      lost_data = ap (λ g. g.status) same ∙ rest.lost_data;
      stopped = ap (λ g. g.wait) same ∙ rest.stopped;
    }

-- the drive is gone, but the transfer is not
read_data_fault :
    (d p n : ℕ) (g : Fdc)
    → g.rw_len ≡ suc n
    → g.ptr ≡ in_image d p
    → g.disk ≡ none
    → (read_data g ≡ none) × ((w : ℕ) → write_data w g ≡ none)
unfolding read_data write_data load store
read_data_fault d p n g e1 e2 e3 = elim (Bool-cases (ltb p fdd_size)) [
  | inl i ↦ (simp (e1, e2, e3, i, suc_nonzero), λ w. simp (e1, e2, e3, i, suc_nonzero))
  | inr o ↦ (simp (e1, e2, o, suc_nonzero), λ w. simp (e1, e2, o, suc_nonzero))
]

-- If the system port chooses a drive with no image while a transfer has bytes left, the next read
-- or write of the data port goes through a null pointer.
pub write_system-fault :
    (d p n v : ℕ) (f : Fdc)
    → IsTransfer d p (suc n) f
    → (f.disks (v % 4)).mounted ≡ false
    → (read data_port (write_system v f) ≡ none)
      × ((w : ℕ) → write data_port w (write_system v f) ≡ none)
unfolding read write write_system
write_system-fault d p n v f t e =
    read_data_fault d p n (write_system v f) t.left t.place
      (ap (λ b. if b then some (v % 4) else none) e)
