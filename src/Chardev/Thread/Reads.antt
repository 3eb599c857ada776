-- ===== src/Chardev/Thread/Reads.antt =====
-- How much a read may put into a row of `aucRxBuffer`, and the operations of the receive thread that
-- do not read into one.
use linux_ant_hal.Base.{ℕ, zero, suc, ◌≤◌, List, [], ◌∷◌, arith, ℤ}
use linux_ant_hal.Types.{RadioStatus}
use linux_ant_hal.Os.{Os, M, Trace, read_file}
use linux_ant_hal.Os.Keeps.{Keeps, keeps_rules, Keeps-call, Keeps-tell, Keeps-modify}
use linux_ant_hal.Chardev.State.{Channel, Hal, ant_hci_max_msg_size}
use linux_ant_hal.Chardev.Power.{
  ant_disable_channel, ant_enable_channel, enable_channels, disable_channels, start_rx_thread,
  enable_out, disable_out, close_channels, ant_disable, ant_enable,
}
use linux_ant_hal.Chardev.Radio.{notify, do_reset}
use linux_ant_hal.Chardev.Rx.{Memory, hand_over, set_flow_control, handle_packet, read_retry}
use linux_ant_hal.Chardev.Thread.{clean_up}

-- A read may put five bytes at least into the row, and no more than the row has. The read of the
-- shutdown event, of eight bytes, is such a one too.
abbrev pub IsInRow : ℕ → Type 0
IsInRow room = (5 ≤ room) × (room ≤ ant_hci_max_msg_size)

abbrev pub ReadsInRow : Trace → Type 0
ReadsInRow [] = Unit
ReadsInRow (read_file fd room ∷ t) = IsInRow room × ReadsInRow t
ReadsInRow (_ ∷ t) = ReadsInRow t

abbrev pub KeepsReads : {A : Type 0} → M Hal A → Type 0
KeepsReads op = Keeps (λ h t. ReadsInRow t) op

module _ (os : Os) where
  pub shutdown_read :
      (fd : ℤ) (h : Hal) (t : Trace) → ReadsInRow t → ReadsInRow (read_file fd 8 ∷ t)
  shutdown_read fd h t p = ((omega arith, omega arith), p)

  pub ruleset reads_rules = (keeps_rules, Keeps-call, Keeps-tell, Keeps-modify, shutdown_read)

  ant_enable_channel-ReadsInRow : (c : Channel) → KeepsReads (ant_enable_channel os c)
  unfolding ant_enable_channel
  ant_enable_channel-ReadsInRow c = search reads_rules depth 20

  enable_channels-ReadsInRow : (cs : List Channel) → KeepsReads (enable_channels os cs)
  unfolding enable_channels
  enable_channels-ReadsInRow [] = search reads_rules
  enable_channels-ReadsInRow (c ∷ cs) = record {
    at = λ h t p.
        let (_, h', t') = ant_enable_channel os c h t in
        ground (
          arith,
          (ant_enable_channel-ReadsInRow c).at h t p,
          (enable_channels-ReadsInRow cs).at h' t',
        );
  }

  ant_disable_channel-ReadsInRow : (c : Channel) → KeepsReads (ant_disable_channel os c)
  unfolding ant_disable_channel
  ant_disable_channel-ReadsInRow c = search reads_rules depth 20

  disable_channels-ReadsInRow : (cs : List Channel) → KeepsReads (disable_channels os cs)
  unfolding disable_channels
  disable_channels-ReadsInRow [] = search reads_rules
  disable_channels-ReadsInRow (c ∷ cs) = record {
    at = λ h t p.
        let (_, h', t') = ant_disable_channel os c h t in
        ground (
          arith,
          (ant_disable_channel-ReadsInRow c).at h t p,
          (disable_channels-ReadsInRow cs).at h' t',
        );
  }

  ant_enable-ReadsInRow : KeepsReads (ant_enable os)
  unfolding ant_enable enable_out start_rx_thread
  ant_enable-ReadsInRow = search (reads_rules, enable_channels-ReadsInRow) depth 30

  ant_disable-ReadsInRow : KeepsReads (ant_disable os)
  unfolding ant_disable disable_out close_channels
  ant_disable-ReadsInRow = search (reads_rules, disable_channels-ReadsInRow) depth 30

  notify-ReadsInRow : (s : RadioStatus) → KeepsReads (notify s)
  unfolding notify
  notify-ReadsInRow s = record { at = λ h t p. ground arith }

  pub do_reset-ReadsInRow : KeepsReads (do_reset os)
  unfolding do_reset
  do_reset-ReadsInRow =
      search (reads_rules, ant_enable-ReadsInRow, ant_disable-ReadsInRow, notify-ReadsInRow) depth
        40 fits 20000

  pub clean_up-ReadsInRow : KeepsReads (clean_up os)
  unfolding clean_up
  clean_up-ReadsInRow = search (reads_rules, ant_disable-ReadsInRow, notify-ReadsInRow) depth 30

  pub handle_packet-ReadsInRow :
      (m : Memory) (i size : ℕ) (c : Channel) → KeepsReads (handle_packet os m i size c)
  unfolding handle_packet hand_over set_flow_control
  handle_packet-ReadsInRow m i size c = record { at = λ h t p. ground arith }

  pub read_retry-ReadsInRow :
      (fuel : ℕ) (fd : ℤ) (room : ℕ) → IsInRow room → KeepsReads (read_retry os fuel fd room)
  unfolding read_retry
  read_retry-ReadsInRow zero fd room l = search reads_rules
  read_retry-ReadsInRow (suc fuel) fd room l = record {
    at = λ h t p.
        ground (arith, (read_retry-ReadsInRow fuel fd room l).at h (read_file fd room ∷ t));
  }
