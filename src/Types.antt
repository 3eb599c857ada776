-- ===== src/Types.antt =====
-- src/common/inc/ant_types.h: the radio states and the status codes that the library returns.
use linux_ant_hal.Base.{ℕ, Bool, true, ◌==◌, ◌≡◌, ◌↔◌, arith}

-- `ANTRadioEnabledStatus`
pub data RadioStatus : Type 0 where
  radio_status_unknown : RadioStatus
  radio_status_enabling : RadioStatus
  radio_status_enabled : RadioStatus
  radio_status_disabling : RadioStatus
  radio_status_disabled : RadioStatus
  radio_status_not_supported : RadioStatus
  radio_status_service_not_installed : RadioStatus
  radio_status_service_not_connected : RadioStatus
  radio_status_resetting : RadioStatus
  radio_status_reset : RadioStatus

-- `ANTStatus`
pub data AntStatus : Type 0 where
  ant_status_success : AntStatus
  ant_status_failed : AntStatus
  ant_status_pending : AntStatus
  ant_status_invalid_parm : AntStatus
  ant_status_in_progress : AntStatus
  ant_status_not_applicable : AntStatus
  ant_status_not_supported : AntStatus
  ant_status_internal_error : AntStatus
  ant_status_transport_init_err : AntStatus
  ant_status_hardware_err : AntStatus
  ant_status_no_value_available : AntStatus
  ant_status_context_doesnt_exist : AntStatus
  ant_status_context_not_destroyed : AntStatus
  ant_status_context_not_enabled : AntStatus
  ant_status_context_not_disabled : AntStatus
  ant_status_not_de_initialized : AntStatus
  ant_status_not_initialized : AntStatus
  ant_status_too_many_pending_cmds : AntStatus
  ant_status_disabling_in_progress : AntStatus
  ant_status_command_write_failed : AntStatus
  ant_status_script_exec_failed : AntStatus
  ant_status_failed_bt_not_initialized : AntStatus
  ant_status_audio_operation_unavailible_resources : AntStatus
  ant_status_transport_unspecified_error : AntStatus
  ant_status_no_value : AntStatus

-- The number that stands for a radio state in C.
abbrev pub radio_code : RadioStatus → ℕ
radio_code radio_status_unknown = 0
radio_code radio_status_enabling = 1
radio_code radio_status_enabled = 2
radio_code radio_status_disabling = 3
radio_code radio_status_disabled = 4
radio_code radio_status_not_supported = 5
radio_code radio_status_service_not_installed = 6
radio_code radio_status_service_not_connected = 7
radio_code radio_status_resetting = 8
radio_code radio_status_reset = 9

-- The number that stands for a status in C.
abbrev pub ant_code : AntStatus → ℕ
ant_code ant_status_success = 0
ant_code ant_status_failed = 1
ant_code ant_status_pending = 2
ant_code ant_status_invalid_parm = 3
ant_code ant_status_in_progress = 4
ant_code ant_status_not_applicable = 5
ant_code ant_status_not_supported = 6
ant_code ant_status_internal_error = 7
ant_code ant_status_transport_init_err = 8
ant_code ant_status_hardware_err = 9
ant_code ant_status_no_value_available = 10
ant_code ant_status_context_doesnt_exist = 11
ant_code ant_status_context_not_destroyed = 12
ant_code ant_status_context_not_enabled = 13
ant_code ant_status_context_not_disabled = 14
ant_code ant_status_not_de_initialized = 15
ant_code ant_status_not_initialized = 16
ant_code ant_status_too_many_pending_cmds = 17
ant_code ant_status_disabling_in_progress = 18
ant_code ant_status_command_write_failed = 20
ant_code ant_status_script_exec_failed = 21
ant_code ant_status_failed_bt_not_initialized = 23
ant_code ant_status_audio_operation_unavailible_resources = 24
ant_code ant_status_transport_unspecified_error = 30
ant_code ant_status_no_value = 100

-- C compares the numbers.
abbrev pub eq_radio : RadioStatus → RadioStatus → Bool
eq_radio a b = radio_code a == radio_code b

abbrev pub eq_ant : AntStatus → AntStatus → Bool
eq_ant a b = ant_code a == ant_code b

-- Radio states with one number are one state.
pub eq_radio_iff : (a b : RadioStatus) → (eq_radio a b ≡ true) ↔ (a ≡ b)
eq_radio_iff a b = ground arith
