-- ===== src/Bluez/Radio.antt =====
-- src/bluez_hci/ant_native_hci.c: start and end, the status, and switching the radio.
--
-- `external` says whether the code is compiled with USE_EXTERNAL_POWER_LIBRARY, whose functions are
-- not part of the repository: they are calls of the system.
pub mod Locks
pub mod Status
pub mod Outcome
mod Tests
use linux_ant_hal.Base.{
  ℕ, Bool, true, false, not, ◌&&◌, ◌||◌, Option, none, some, List, [], ◌∷◌, ℤ, pos, negsuc, is_zero,
  ◌==◌, if◌then◌else◌,
}
use linux_ant_hal.Types.{
  RadioStatus, radio_status_unknown, radio_status_enabling, radio_status_enabled,
  radio_status_disabling, radio_status_disabled, AntStatus, ant_status_success, ant_status_failed,
  ant_status_not_supported, ant_status_not_de_initialized, ant_status_transport_init_err, eq_radio,
  eq_ant,
}
use linux_ant_hal.Os.{
  Os, M, ◌>>=◌, ◌>>◌, pure, get, modify, after, call, tell, Mutex, tx_lock, enable_lock, mutex_init,
  mutex_destroy, lock, unlock, thread_create, thread_join, state_callback, power_enable,
  power_disable, power_is_enabled,
}
use linux_ant_hal.Bluez.State.{Radio}

-- `if (RxParams.pfStateCallback) RxParams.pfStateCallback(status);`
unfoldable pub notify : RadioStatus → M Radio (Unit {0})
notify status = do
  h ← get
  let told : M Radio (Unit {0}) = elim h.state_callback [
    | none ↦ pure tt
    | some f ↦ tell (state_callback f status)
  ]
  told

pub set_ant_rx_callback : Option ℕ → M Radio AntStatus
set_ant_rx_callback f = do modify (λ h. record h { rx_callback = f }); pure ant_status_success

pub set_ant_state_callback : Option ℕ → M Radio AntStatus
set_ant_state_callback f = do modify (λ h. record h { state_callback = f }); pure ant_status_success

abbrev pub set_status : RadioStatus → M Radio (Unit {0})
set_status status = modify (λ h. record h { radio_status = status })

-- the `switch` on `ant_is_enabled()`
abbrev pub chip_status : ℤ → RadioStatus
chip_status (pos n) =
    if n == 0
    then radio_status_disabled
    else if n == 1
    then radio_status_enabled
    else radio_status_unknown
chip_status (negsuc _) = radio_status_unknown

pub ant_radio_hard_reset : M Radio AntStatus
ant_radio_hard_reset = pure ant_status_not_supported

-- the `switch` of `ant_disable_radio`
abbrev pub disable_result : RadioStatus → AntStatus
disable_result status =
    if eq_radio status radio_status_disabled
    then ant_status_success
    else if eq_radio status radio_status_enabled
    then ant_status_failed
    else ant_status_not_de_initialized

module _ (os : Os) where
  pub ant_init : M Radio AntStatus
  ant_init = do
    r ← call os (mutex_init tx_lock)
    if not (is_zero r) then pure ant_status_failed else do
      r' ← call os (mutex_init enable_lock)
      pure (if is_zero r' then ant_status_success else ant_status_failed)

  pub ant_deinit : M Radio AntStatus
  ant_deinit = do
    r ← call os (mutex_destroy tx_lock)
    if not (is_zero r) then pure ant_status_failed else do
      r' ← call os (mutex_destroy enable_lock)
      pure (if is_zero r' then ant_status_success else ant_status_failed)

  unfoldable pub get_and_set_radio_status : Bool → M Radio RadioStatus
  get_and_set_radio_status false = do h ← get; pure h.radio_status
  get_and_set_radio_status true = do
    orig ← get
    r ← call os power_is_enabled
    set_status (chip_status r)
    if eq_radio orig.radio_status (chip_status r) then pure tt else notify (chip_status r)
    pure (chip_status r)

  pub ant_radio_enabled_status : Bool → M Radio RadioStatus
  ant_radio_enabled_status external = do
    h ← get
    if eq_radio h.radio_status radio_status_enabling
          || eq_radio h.radio_status radio_status_disabling
        then pure h.radio_status
        else get_and_set_radio_status external

  -- `pthread_join(RxParams.thread, NULL); RxParams.thread = 0;`, if there is a thread
  pub join_thread : M Radio (Unit {0})
  join_thread = do
    h ← get
    if h.thread == 0
        then pure tt
        else do tell (thread_join h.thread); modify (λ s. record s { thread = 0 })

  -- `ant_enable_radio` where the status is not ENABLED
  pub begin_enabling : Bool → M Radio (Unit {0})
  begin_enabling external = do
    join_thread
    set_status radio_status_enabling
    if external then notify radio_status_enabling else pure tt

  -- the receive thread has been created
  pub thread_started : Bool → M Radio AntStatus
  thread_started false = do set_status radio_status_enabled; pure ant_status_success
  thread_started true = do
    h ← get
    if eq_radio h.radio_status radio_status_enabling
        then (do set_status radio_status_enabled; notify radio_status_enabled)
        else pure tt
    pure ant_status_success

  -- `ant_enable_radio` once the chip is enabled
  pub start_thread : Bool → M Radio AntStatus
  start_thread external = do
    h ← get
    if not (h.thread == 0)
        then (do set_status radio_status_enabled; pure ant_status_success)
        else do
          r ← call os thread_create
          handle ← after os.thread
          modify (λ s. record s { thread = handle })
          if is_zero r then thread_started external else pure ant_status_failed

  -- `ant_enable_radio`: the status, once both locks are held
  pub check_status : Bool → M Radio (Unit {0})
  check_status external = do
    s ← get_and_set_radio_status external
    if eq_radio s radio_status_enabled then pure tt else begin_enabling external

  pub enable_chip : Bool → M Radio ℤ
  enable_chip false = pure (pos 0)
  enable_chip true = call os power_enable

  -- `ant_enable_radio` after a failure
  pub clean_up : Bool → M Radio (Unit {0})
  clean_up external = do
    if external then tell power_disable else pure tt
    get_and_set_radio_status external
    pure tt

  -- `ant_enable_radio` with both locks held
  pub enable_locked : Bool → M Radio AntStatus
  enable_locked external = do
    check_status external
    result ← enable_chip external
    status ← if is_zero result then start_thread external else pure ant_status_transport_init_err
    if eq_ant status ant_status_success then pure tt else clean_up external
    pure status

  -- Takes both locks, in this order, does what is to be done with them held, and releases them.
  pub with_locks : M Radio AntStatus → M Radio AntStatus
  with_locks body = do
    r ← call os (lock tx_lock)
    if not (is_zero r)
        then (do tell (unlock enable_lock); pure ant_status_failed)
        else do status ← body; tell (unlock tx_lock); tell (unlock enable_lock); pure status

  pub ant_enable_radio : Bool → M Radio AntStatus
  ant_enable_radio external = do
    r ← call os (lock enable_lock)
    if not (is_zero r) then pure ant_status_failed else do
      modify (λ s.
          if eq_radio s.radio_status radio_status_disabled
          then record s { radio_status = radio_status_enabling }
          else s)
      with_locks (enable_locked external)

  -- `ant_disable_radio` before the receive thread is joined
  pub power_off : Bool → M Radio (Unit {0})
  power_off false = set_status radio_status_disabled
  power_off true = do
    s ← get_and_set_radio_status true
    if eq_radio s radio_status_disabled
        then pure tt
        else do set_status radio_status_disabling; notify radio_status_disabling
    tell power_disable

  -- `ant_disable_radio` with both locks held
  pub disable_locked : Bool → M Radio AntStatus
  disable_locked external = do
    power_off external
    join_thread
    s ← get_and_set_radio_status external
    pure (disable_result s)

  pub ant_disable_radio : Bool → M Radio AntStatus
  ant_disable_radio external = do
    r ← call os (lock enable_lock)
    if not (is_zero r) then pure ant_status_failed else with_locks (disable_locked external)
