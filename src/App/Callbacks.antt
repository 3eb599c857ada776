-- ===== src/App/Callbacks.antt =====
-- app/ant_app.c: what the application prints when the library calls it back.
use Prim.Native.String.{String}
use linux_ant_hal.Base.{
  ℕ, zero, suc, ◌+◌, ◌<◌, ◌≤◌, ◌≡◌, ◌≢◌, refl, arith, not, Option, none, some, List, ◌==◌,
  if◌then◌else◌,
}
use linux_ant_hal.Types.{
  RadioStatus, radio_status_unknown, radio_status_enabling, radio_status_enabled,
  radio_status_disabling, radio_status_disabled, radio_status_not_supported,
  radio_status_service_not_installed, radio_status_service_not_connected, radio_status_resetting,
  radio_status_reset,
}
use linux_ant_hal.Chardev.Rx.{Memory, slice}

-- What is printed after the bytes of a message. The text of the version starts where the memory says;
-- its end is a byte of 0 that need not be part of the message.
data Note : Type 0 where
  no_note chip_reset : Note
  firmware_version : Memory → Note
  -- the channel, the identifier of the message and, for a failure, the code
  response : ℕ → ℕ → Option ℕ → Note
  -- the channel and the code
  channel_event : ℕ → ℕ → Note
  heart_rate : ℕ → Note

response_note : Memory → Note
response_note m =
    if not (m 3 == 0x01)
    then response (m 2) (m 3) (if m 4 == 0 then none else some (m 4))
    else channel_event (m 2) (m 4)

-- `app_ANT_rx_callback`: the bytes that are printed, and the note. The memory has what lies behind the
-- message, too, which is read where the message is short.
app_ant_rx_callback : ℕ → Memory → List ℕ × Note
app_ant_rx_callback len m = (
  slice m 0 len,
  if m 1 == 0x3E
      then firmware_version m
      else if m 1 == 0x6F
      then chip_reset
      else if m 1 == 0x40
      then response_note m
      else if m 1 == 0x4E
      then (if m 2 == 0 then heart_rate (m 10) else no_note)
      else no_note,
)

-- `app_ANT_state_callback`: the name that is printed
app_ant_state_callback : RadioStatus → String
app_ant_state_callback radio_status_unknown = "UNKNOWN"
app_ant_state_callback radio_status_enabling = "ENABLING"
app_ant_state_callback radio_status_enabled = "ENABLED"
app_ant_state_callback radio_status_disabling = "DISABLING"
app_ant_state_callback radio_status_disabled = "DISABLED"
app_ant_state_callback radio_status_not_supported = "NOT SUPPORTED"
app_ant_state_callback radio_status_service_not_installed = "SERVICE NOT INSTALLED"
app_ant_state_callback radio_status_service_not_connected = "SERVICE NOT CONNECTED"
app_ant_state_callback radio_status_resetting = "RESETTING"
app_ant_state_callback radio_status_reset = "RESET"

slice_agrees :
    (m m' : Memory) (i n : ℕ) → ((j : ℕ) → j < i + n → m j ≡ m' j) → slice m i n ≡ slice m' i n
slice_agrees m m' i zero same = refl
slice_agrees m m' i (suc n) same =
    ground (arith, same i (omega arith), slice_agrees m m' (i + 1) n (λ j lt. same j (omega arith)))

-- Of a message of at least 11 bytes that is no version, what is printed depends on the message only, and
-- not on what lies behind it.
message_prints :
    (len : ℕ) (m m' : Memory)
    → 11 ≤ len
    → ((j : ℕ) → j < len → m j ≡ m' j)
    → m 1 ≢ 0x3E
    → app_ant_rx_callback len m ≡ app_ant_rx_callback len m'
unfolding app_ant_rx_callback response_note
message_prints len m m' long same other = ground (
  arith,
  slice_agrees m m' 0 len (λ j lt. same j (omega arith)),
  same 1 (omega arith),
  same 2 (omega arith),
  same 3 (omega arith),
  same 4 (omega arith),
  same 10 (omega arith),
)
