-- ===== src/App/Commands.antt =====
-- app/ant_app.c: the messages that the commands send.
use Prim.Native.String.{String}
use linux_ant_hal.Base.{
  ℕ, ◌+◌, ◌<◌, ◌≤◌, ◌≡◌, refl, Bool, false, some, List, [], ◌∷◌, arith, length, get_or, take,
}
use linux_ant_hal.Types.{radio_status_enabled}
use linux_ant_hal.Os.{Os, Call, Trace, write_file}
use linux_ant_hal.Chardev.State.{Hal, channel_at, command_channel}
use linux_ant_hal.Chardev.Status.{ant_radio_enabled_status}
use linux_ant_hal.Chardev.Tx.{is_data_id, ant_tx_message_flowcontrol_none, ant_tx_message}
use linux_ant_hal.Chardev.Tx.Frame.{tx_packet}
use linux_ant_hal.Client.{chardev_library}
use linux_ant_hal.App.{
  command_message, sent, followed_by, single_command, command_sequence, process_command,
}

-- The length that is passed with the message of a command is its number of bytes, its first byte counts the bytes after the
-- identifier, and it is no data message.
pub command_message_lem :
    (c len d : ℕ) (mesg : List ℕ)
    → command_message c ≡ some (len, mesg)
    → (len ≡ length mesg) × (len ≡ get_or mesg 0 0 + 2) × (is_data_id (get_or mesg 1 d) ≡ false)
unfolding command_message is_data_id
command_message_lem c len d mesg e = ground arith

module _ (os : Os) (fuel : ℕ) (names : List String) (supported : Bool) where
  -- A command message is one write to the command path, and changes no state.
  command_write :
      (len : ℕ) (mesg : List ℕ) (c : ℕ) (h : Hal) (t : Trace)
      → ant_radio_enabled_status h ≡ radio_status_enabled
      → is_data_id (get_or mesg 1 (os.stale t)) ≡ false
      → len < 255
      → len ≤ length mesg
      → single_command (chardev_library os fuel names supported) (some (len, mesg)) c h t
        ≡ (some [], h, write_file (channel_at h command_channel).fd (len ∷ take len mesg) ∷ t)
  unfolding single_command sent ant_tx_message ant_tx_message_flowcontrol_none
  command_write len mesg c h t on command small fits = ground (arith, tx_packet len mesg small fits)

  -- On an enabled radio of src/vfs the command 'H' hands six packets to the command path, in this order:
  -- reset, assign channel, radio frequency, channel identifier, channel period, open channel. It
  -- changes no state and prints nothing.
  pub hrm_setup_writes :
      (h : Hal) (t : Trace)
      → ant_radio_enabled_status h ≡ radio_status_enabled
      → let packet : List ℕ → Call = λ p. write_file (channel_at h command_channel).fd p in
        process_command (chardev_library os fuel names supported) b'H' h t ≡ (
          some [],
          h,
          packet (3 ∷ 1 ∷ 0x4B ∷ 0 ∷ [])
              ∷ packet (5 ∷ 3 ∷ 0x43 ∷ 0 ∷ 0x86 ∷ 0x1F ∷ [])
              ∷ packet (7 ∷ 5 ∷ 0x51 ∷ 0 ∷ 0 ∷ 0 ∷ 0x78 ∷ 0 ∷ [])
              ∷ packet (4 ∷ 2 ∷ 0x45 ∷ 0 ∷ 57 ∷ [])
              ∷ packet (5 ∷ 3 ∷ 0x42 ∷ 0 ∷ 0 ∷ 1 ∷ [])
              ∷ packet (3 ∷ 1 ∷ 0x4A ∷ 0 ∷ [])
              ∷ t,
        )
  unfolding process_command command_sequence followed_by command_message is_data_id
  hrm_setup_writes h t on =
      let packet : List ℕ → Call = λ p. write_file (channel_at h command_channel).fd p in
      let t1 = packet (3 ∷ 1 ∷ 0x4A ∷ 0 ∷ []) ∷ t in
      let t2 = packet (5 ∷ 3 ∷ 0x42 ∷ 0 ∷ 0 ∷ 1 ∷ []) ∷ t1 in
      let t3 = packet (4 ∷ 2 ∷ 0x45 ∷ 0 ∷ 57 ∷ []) ∷ t2 in
      let t4 = packet (7 ∷ 5 ∷ 0x51 ∷ 0 ∷ 0 ∷ 0 ∷ 0x78 ∷ 0 ∷ []) ∷ t3 in
      let t5 = packet (5 ∷ 3 ∷ 0x43 ∷ 0 ∷ 0x86 ∷ 0x1F ∷ []) ∷ t4 in
      ground (
        arith,
        command_write 3 (1 ∷ 0x4A ∷ 0 ∷ []) b'R' h t on refl (omega arith) (omega arith),
        command_write 5 (3 ∷ 0x42 ∷ 0 ∷ 0 ∷ 1 ∷ []) b'A' h t1 on refl (omega arith) (omega arith),
        command_write 4 (2 ∷ 0x45 ∷ 0 ∷ 57 ∷ []) b'F' h t2 on refl (omega arith) (omega arith),
        command_write 7 (5 ∷ 0x51 ∷ 0 ∷ 0 ∷ 0 ∷ 0x78 ∷ 0 ∷ []) b'I' h t3 on refl (omega arith)
            (omega arith),
        command_write 5 (3 ∷ 0x43 ∷ 0 ∷ 0x86 ∷ 0x1F ∷ []) b'P' h t4 on refl (omega arith)
            (omega arith),
        command_write 3 (1 ∷ 0x4B ∷ 0 ∷ []) b'O' h t5 on refl (omega arith) (omega arith),
      )
