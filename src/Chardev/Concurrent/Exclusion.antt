-- ===== src/Chardev/Concurrent/Exclusion.antt =====
-- Chardev.Concurrent: which threads are not at work at the same time.
use linux_ant_hal.Base.{ℕ, ◌≡◌, true, arith}
use linux_ant_hal.Chardev.Concurrent.{System, Reach, in_section, listens}
use linux_ant_hal.Chardev.Concurrent.Invariant.{Reach-Inv}

module _ {WriteFails : Type 0} {s : System} (works : ¬ WriteFails) (r : Reach WriteFails s) where
  open (Reach-Inv works r) use {knows}

  -- Where writes to the shutdown event succeed: of all the client's threads and the receive threads,
  -- at most one is between locking and unlocking `stEnabledStatusLock`.
  pub mutual_exclusion : (i j : ℕ) → in_section (s.pc i) ≡ true → in_section (s.pc j) ≡ true → i ≡ j
  mutual_exclusion i j p q = ground (arith, knows i, knows j)

  -- Where writes to the shutdown event succeed: there is never more than one receive thread in its
  -- loop or on the way from there to the lock, and `stRxThread` is its handle. So no two threads
  -- read from the channels, in whichever order threads enable, disable and reset the radio.
  pub single_receiver :
      (i j : ℕ)
      → listens (s.pc i) ≡ true
      → listens (s.pc j) ≡ true
      → (i ≡ j) × (s.mem.hal.rx_thread ≡ i)
  single_receiver i j p q = ground (arith, knows i, knows j)
