-- ===== src/Chardev/State.antt =====
-- src/vfs/inc/ant_rx_chardev.h, src/vfs/inc/ant_hci_defines.h and the drivers'
-- ant_driver_defines.h: the state that the character device transport keeps, and its constants.
--
-- The drivers under src/vfs (prerelease, qualcomm/smd, ste/cg29xx) agree in all that shapes the
-- code: a header of one size byte, no footer, two paths, no resending. The lists of channels
-- below have any length, so that the single path of src/bt-vendor_vfs is a list of one.
use Prim.Native.String.{String}
use linux_ant_hal.Base.{ℕ, Bool, Option, none, List, ℤ, minus_one, get_or, set}

-- `ant_channel_info_t`; the mutex and the condition that it points to are the only ones.
pub record Channel : Type 0 where
  pub device_path : String
  pub fd : ℤ
  pub rx_callback : Option ℕ
  pub flow_control_resp : ℕ

-- `ant_rx_thread_info_t` and `g_fnStateCallback`. A `pthread_t` of 0 is no thread.
pub record Hal : Type 0 where
  pub rx_thread : ℕ
  pub run_thread : Bool
  pub chip_resetting : Bool
  pub channels : List Channel
  pub rx_shutdown_event_fd : ℤ
  pub waiting_for_keepalive_response : Bool
  pub state_callback : Option ℕ

-- `ant_channel_type` of the drivers with two paths
abbrev pub data_channel : ℕ
data_channel = 0

abbrev pub command_channel : ℕ
command_channel = 1

abbrev pub no_channel : Channel
no_channel = record { device_path = ""; fd = minus_one; rx_callback = none; flow_control_resp = 0 }

-- `astChannels[eChannel]`; every index in the code is that of a channel.
abbrev pub channel_at : Hal → ℕ → Channel
channel_at h i = get_or h.channels i no_channel

abbrev pub set_flow_resp : ℕ → ℕ → Hal → Hal
set_flow_resp i v h = record h {
  channels = set h.channels i (record (channel_at h i) { flow_control_resp = v });
}

abbrev pub ant_hci_header_size : ℕ
ant_hci_header_size = 1

abbrev pub ant_hci_footer_size : ℕ
ant_hci_footer_size = 0

abbrev pub ant_hci_size_offset : ℕ
ant_hci_size_offset = 0

abbrev pub ant_hci_data_offset : ℕ
ant_hci_data_offset = 1

abbrev pub ant_hci_max_msg_size : ℕ
ant_hci_max_msg_size = 260

abbrev pub ant_msg_id_offset : ℕ
ant_msg_id_offset = 1

abbrev pub ant_msg_data_offset : ℕ
ant_msg_data_offset = 2

abbrev pub ant_mesg_flow_control : ℕ
ant_mesg_flow_control = 0xC9

abbrev pub ant_flow_go : ℕ
ant_flow_go = 0x00

abbrev pub ant_flow_stop : ℕ
ant_flow_stop = 0x80

-- `ant_channel_type` of a driver with one path
abbrev pub single_channel : ℕ
single_channel = 0
