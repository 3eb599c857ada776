-- ===== src/Chardev/Tx/Walk.antt =====
-- `ant_tx_message` of src/vfs/ant_native_chardev.c keeps what its parts keep.
use linux_ant_hal.Base.{ℕ, zero, suc, Option, none, some, List, ◌∷◌, arith, ℤ}
use linux_ant_hal.Types.{AntStatus}
use linux_ant_hal.Os.{
  Os, Trace, modify, flow_control_lock, lock, unlock, write_file, cond_timedwait, get_time,
}
use linux_ant_hal.Os.Keeps.{Keeps, keeps_rules, Keeps-call, Keeps-tell}
use linux_ant_hal.Chardev.State.{Hal, channel_at, set_flow_resp}
use linux_ant_hal.Chardev.Tx.{
  waited, wait_flow_go, written, wait_done, ant_tx_message_flowcontrol_wait,
  ant_tx_message_flowcontrol_none, ant_tx_message,
}

module _ (os : Os) (P : Hal → Trace → Type 0)
    (flows : (path v : ℕ) → Keeps P (modify (set_flow_resp path v)))
    (locks : (h : Hal) (t : Trace) → P h t → P h (lock flow_control_lock ∷ t))
    (unlocks : (h : Hal) (t : Trace) → P h t → P h (unlock flow_control_lock ∷ t))
    (writes : (fd : ℤ) (bytes : List ℕ) (h : Hal) (t : Trace)
      → P h t
      → P h (write_file fd bytes ∷ t))
    (waits : (h : Hal) (t : Trace) → P h t → P h (cond_timedwait ∷ t))
    (times : (h : Hal) (t : Trace) → P h t → P h (get_time ∷ t)) where
  wait_flow_go-Keeps : (fuel path : ℕ) → Keeps P (wait_flow_go os fuel path)
  unfolding wait_flow_go waited
  wait_flow_go-Keeps zero path = search keeps_rules
  wait_flow_go-Keeps (suc fuel) path = record {
    at = λ h t p.
        let t1 = cond_timedwait ∷ t in
        let v = os.flow_resp t1 (channel_at h path).flow_control_resp in
        let p1 = (flows path v).at h t1 (waits h t p) in
        ground (arith, p1, (wait_flow_go-Keeps fuel path).at (set_flow_resp path v h) t1 p1);
  }

  wait_done-Keeps : (r : Option AntStatus) → Keeps P (wait_done r)
  unfolding wait_done
  wait_done-Keeps none = search keeps_rules
  wait_done-Keeps (some _) = search (keeps_rules, Keeps-tell, unlocks) depth 10

  pub flowcontrol_wait-Keeps :
      (fuel tx_path flow_path len : ℕ) (buffer : List ℕ)
      → Keeps P (ant_tx_message_flowcontrol_wait os fuel tx_path flow_path len buffer)
  unfolding ant_tx_message_flowcontrol_wait written
  flowcontrol_wait-Keeps fuel tx_path flow_path len buffer =
      search
        (
          keeps_rules, Keeps-call, Keeps-tell, locks, writes, times, flows, wait_flow_go-Keeps,
          wait_done-Keeps,
        )
        depth 40

  pub flowcontrol_none-Keeps :
      (tx_path len : ℕ) (buffer : List ℕ)
      → Keeps P (ant_tx_message_flowcontrol_none os tx_path len buffer)
  unfolding ant_tx_message_flowcontrol_none
  flowcontrol_none-Keeps tx_path len buffer = search (keeps_rules, Keeps-call, writes) depth 10

  pub tx_message-Keeps : (fuel len : ℕ) (mesg : List ℕ) → Keeps P (ant_tx_message os fuel len mesg)
  unfolding ant_tx_message
  tx_message-Keeps fuel len mesg =
      search (keeps_rules, flowcontrol_wait-Keeps, flowcontrol_none-Keeps) depth 20
