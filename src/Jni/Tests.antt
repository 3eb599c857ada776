-- ===== src/Jni/Tests.antt =====
-- The Java binding on the transport of src/vfs, with a virtual machine that answers.
use linux_ant_hal.Base.{
  ◌+◌, ◌≡◌, refl, false, not, ◌&&◌, ◌||◌, some, [], ◌∷◌, ◌++◌, arith, ℤ, pos, is_zero, get_or,
  length, if◌then◌else◌,
}
use linux_ant_hal.Types.{radio_status_enabled, eq_radio}
use linux_ant_hal.Os.{
  Os, Call, Trace, java, new_byte_array, attach_current_thread, get_byte_array_elements, lock,
  flow_control_lock,
}
use linux_ant_hal.Chardev.State.{Hal, channel_at, data_channel, command_channel}
use linux_ant_hal.Chardev.Status.{ant_radio_enabled_status}
use linux_ant_hal.Chardev.Tx.{is_data_id}
use linux_ant_hal.Chardev.Tx.Message.{writes}
use linux_ant_hal.Chardev.Sample.{good_os, good_answer, message, on}
use linux_ant_hal.Client.{Library, chardev_library}
use linux_ant_hal.Jni.{native_rx_callback, native_tx_message}
use linux_ant_hal.Jni.Callbacks.{attached, arrays_made, arrays_deleted, rx_callback_balanced}
use linux_ant_hal.Jni.Transmit.{native_tx_writes}

abbrev java_answer : Call → ℤ
java_answer (java attach_current_thread) = pos 1
java_answer (java (new_byte_array _)) = pos 1
java_answer (java get_byte_array_elements) = pos 1
java_answer c = good_answer c

abbrev java_os : Os
java_os = record good_os { ret = λ t c. java_answer c }

abbrev lib : Library Hal
lib = chardev_library java_os 2 ("/dev/smd5" ∷ "/dev/smd6" ∷ []) false

rx_callback_balanced_example :
    let (_, h', t') = native_rx_callback java_os 4 message on [] in
    (attached java_os false t' ≡ false)
    × (arrays_made java_os t' + arrays_deleted [] ≡ arrays_made java_os [] + arrays_deleted t')
unfolding attached
rx_callback_balanced_example = rx_callback_balanced java_os false 4 message on [] refl

native_tx_writes_example :
    let is_data = is_data_id (get_or message 1 0) in
    let path = if is_data then data_channel else command_channel in
    let enabled = eq_radio (ant_radio_enabled_status on) radio_status_enabled in
    let t0 : Trace = java get_byte_array_elements ∷ [] in
    writes (native_tx_message lib java_os (some message) on []).2 ≡ (
      if enabled && (not is_data || is_zero (java_os.ret t0 (lock flow_control_lock)))
      then writes [] ++ (((channel_at on path).fd, length message ∷ message) ∷ [])
      else writes [])
native_tx_writes_example =
    native_tx_writes java_os 2 ("/dev/smd5" ∷ "/dev/smd6" ∷ []) false message on [] (omega arith)
      (omega arith) refl
