-- ===== src/Chardev/Tx/Flow.antt =====
-- `ant_tx_message_flowcontrol_wait`: the wait ends, the result tells what happened, the lock is
-- released.
use linux_ant_hal.Base.{
  ℕ, zero, suc, ◌<◌, ◌≡◌, ◌≢◌, refl, inl, inr, false, none, some, List, ◌∷◌, arith, pos, eq_ℤ_iff,
  ◌==◌, if◌then◌else◌, Bool-cases, take, Option-cases,
}
use linux_ant_hal.Types.{AntStatus, ant_status_success, ant_status_hardware_err}
use linux_ant_hal.Os.{
  Os, Errno, etimedout, Trace, Mutex, flow_control_lock, lock, unlock, cond_timedwait, write_file,
  get_time, holds,
}
use linux_ant_hal.Chardev.State.{Hal, channel_at, set_flow_resp, ant_flow_go, ant_flow_stop}
use linux_ant_hal.Chardev.Tx.{
  wait_status, waited, wait_flow_go, written, wait_done, ant_tx_message_flowcontrol_wait,
}

-- The trace after so many waits.
abbrev pub waits : ℕ → Trace → Trace
waits zero t = t
waits (suc k) t = waits k (cond_timedwait ∷ t)

-- The state after one wait.
abbrev pub after_wait : Os → ℕ → Hal → Trace → Hal
after_wait os path h t =
    set_flow_resp path (os.flow_resp (cond_timedwait ∷ t) (channel_at h path).flow_control_resp) h

pub wait_step :
    (os : Os) (fuel path : ℕ) (h : Hal) (t : Trace)
    → wait_flow_go os (suc fuel) path h t ≡ (
        if (channel_at h path).flow_control_resp == ant_flow_go
        then (some ant_status_success, h, t)
        else waited
            (wait_flow_go os fuel path)
            (os.wait_error (cond_timedwait ∷ t))
            (after_wait os path h t)
            (cond_timedwait ∷ t))
unfolding wait_flow_go
wait_step os fuel path h t = ground arith

-- If the wait after `k` others returns an error, as it does at the latest when the time is up, then
-- the loop ends with more than `k` rounds.
pub wait_flow_go_ends :
    (os : Os) (k fuel path : ℕ) (e : Errno) (h : Hal) (t : Trace)
    → os.wait_error (cond_timedwait ∷ waits k t) ≡ some e
    → k < fuel
    → (status : AntStatus) × (h' : Hal) × (u : Trace) × (wait_flow_go os fuel path h t
        ≡ (some status, h', u))
unfolding waited
wait_flow_go_ends os k zero path e h t last lt = absurd (omega arith)
wait_flow_go_ends os zero (suc fuel) path e h t last lt =
    rw (wait_step os fuel path h t)
      (elim (Bool-cases ((channel_at h path).flow_control_resp == ant_flow_go)) [
        | inl go ↦ rw go (ant_status_success, h, t, refl)
        | inr stop ↦
            rw (stop, last, waited)
              (wait_status e, after_wait os path h t, cond_timedwait ∷ t, refl)
      ])
wait_flow_go_ends os (suc k) (suc fuel) path e h t last lt =
    let t1 = cond_timedwait ∷ t in
    let h1 = after_wait os path h t in
    rw (wait_step os fuel path h t)
      (elim (Bool-cases ((channel_at h path).flow_control_resp == ant_flow_go)) [
        | inl go ↦ rw go (ant_status_success, h, t, refl)
        | inr stop ↦ rw stop (elim (Option-cases (os.wait_error t1)) [
          | inl fine ↦
              rw (fine, waited) (wait_flow_go_ends os k fuel path e h1 t1 last (omega arith))
          | inr (e', err) ↦ rw (err, waited) (wait_status e', h1, t1, refl)
        ])
      ])

-- The mutex that is held after the loop is the one held before.
holds-wait_flow_go :
    (os : Os) (fuel path : ℕ) (h : Hal) (t : Trace) (m : Mutex)
    → holds os m (wait_flow_go os fuel path h t).2 ≡ holds os m t
unfolding wait_flow_go waited holds
holds-wait_flow_go os zero path h t m = refl
holds-wait_flow_go os (suc fuel) path h t m = ground (
  arith,
  wait_step os fuel path h t,
  holds-wait_flow_go os fuel path (after_wait os path h t) (cond_timedwait ∷ t) m,
)

-- Where the loop ends with success, the flag of the channel is FLOW_GO.
wait_flow_go_success :
    (os : Os) (fuel path : ℕ) (h : Hal) (t : Trace)
    → (wait_flow_go os fuel path h t).0 ≡ some ant_status_success
    → (channel_at (wait_flow_go os fuel path h t).1 path).flow_control_resp ≡ ant_flow_go
unfolding wait_flow_go waited wait_status
wait_flow_go_success os zero path h t s = cc
wait_flow_go_success os (suc fuel) path h t s = ground (
  arith,
  wait_step os fuel path h t,
  wait_flow_go_success os fuel path (after_wait os path h t) (cond_timedwait ∷ t),
)

-- Where the loop ends with a hardware error, the latest wait ran into its timeout.
wait_flow_go_timeout :
    (os : Os) (fuel path : ℕ) (h : Hal) (t : Trace)
    → (wait_flow_go os fuel path h t).0 ≡ some ant_status_hardware_err
    → os.wait_error (wait_flow_go os fuel path h t).2 ≡ some etimedout
unfolding wait_flow_go waited wait_status
wait_flow_go_timeout os zero path h t s = cc
wait_flow_go_timeout os (suc fuel) path h t s = ground (
  arith,
  wait_step os fuel path h t,
  wait_flow_go_timeout os fuel path (after_wait os path h t) (cond_timedwait ∷ t),
)

module _ (os : Os) (fuel tx_path flow_path len : ℕ) (buffer : List ℕ) (h : Hal) (t : Trace) where
  abbrev locked : Trace
  locked = lock flow_control_lock ∷ t

  abbrev stopped : Hal
  stopped = set_flow_resp flow_path ant_flow_stop h

  abbrev sent : Trace
  sent = get_time ∷ write_file (channel_at stopped tx_path).fd (take len buffer) ∷ locked

  -- If `ant_tx_message_flowcontrol_wait` returns success, then the device took the whole message,
  -- and the flag of the channel that takes flow control messages has become FLOW_GO.
  pub flowcontrol_wait_success :
      (ant_tx_message_flowcontrol_wait os fuel tx_path flow_path len buffer h t).0
        ≡ some ant_status_success
      → (os.ret locked (write_file (channel_at stopped tx_path).fd (take len buffer)) ≡ pos len)
        × ((channel_at
              (ant_tx_message_flowcontrol_wait os fuel tx_path flow_path len buffer h t).1
              flow_path).flow_control_resp
            ≡ ant_flow_go)
  unfolding ant_tx_message_flowcontrol_wait written wait_done
  flowcontrol_wait_success s =
      let n = os.ret locked (write_file (channel_at stopped tx_path).fd (take len buffer)) in
      ground (arith, eq_ℤ_iff n (pos len), wait_flow_go_success os fuel flow_path stopped sent)

  -- If `ant_tx_message_flowcontrol_wait` returns a hardware error, then the latest wait ran into its
  -- timeout.
  pub flowcontrol_wait_timeout :
      (ant_tx_message_flowcontrol_wait os fuel tx_path flow_path len buffer h t).0
        ≡ some ant_status_hardware_err
      → (u : Trace) × ((ant_tx_message_flowcontrol_wait os fuel tx_path flow_path len buffer h t).2
          ≡ unlock flow_control_lock ∷ u)
        × (os.wait_error u ≡ some etimedout)
  unfolding ant_tx_message_flowcontrol_wait written wait_done
  flowcontrol_wait_timeout s = (
    (wait_flow_go os fuel flow_path stopped sent).2,
    ground (arith, wait_flow_go_timeout os fuel flow_path stopped sent),
    ground (arith, wait_flow_go_timeout os fuel flow_path stopped sent),
  )

  -- Where it returns, it releases the lock on every path: called with no mutex of a kind held, it
  -- returns with none of that kind held.
  pub flowcontrol_wait_releases :
      (m : Mutex)
      → holds os m t ≡ false
      → (ant_tx_message_flowcontrol_wait os fuel tx_path flow_path len buffer h t).0 ≢ none
      → holds os m (ant_tx_message_flowcontrol_wait os fuel tx_path flow_path len buffer h t).2
        ≡ false
  unfolding ant_tx_message_flowcontrol_wait written wait_done holds
  flowcontrol_wait_releases m free returns =
      ground (arith, holds-wait_flow_go os fuel flow_path stopped sent m)

  -- If the wait after `k` others returns an error, as it does at the latest when the time is up, then
  -- `ant_tx_message_flowcontrol_wait` ends with more than `k` rounds.
  pub flowcontrol_wait_ends :
      (k : ℕ) (e : Errno)
      → os.wait_error (cond_timedwait ∷ waits k sent) ≡ some e
      → k < fuel
      → (ant_tx_message_flowcontrol_wait os fuel tx_path flow_path len buffer h t).0 ≢ none
  unfolding ant_tx_message_flowcontrol_wait written wait_done
  flowcontrol_wait_ends k e last lt =
      let (_, _, _, out) = wait_flow_go_ends os k fuel flow_path e stopped sent last lt in
      ground (arith, out)
