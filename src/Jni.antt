-- ===== src/Jni.antt =====
-- src/common/JAntNative.cpp: the Java binding, a client of the library.
--
-- The virtual machine is not part of the repository: what is asked of it are calls of the system. The
-- answer to a call that returns a reference or sets the environment is 0 for NULL, and that to
-- `RegisterNatives` and the first `GetEnv` is 0 for JNI_OK.
pub mod Callbacks
pub mod Transmit
pub mod Create
mod Tests
use linux_ant_hal.Base.{
  ℕ, ◌%◌, Bool, true, false, not, Option, none, some, List, [], ◌∷◌, ℤ, pos, minus_one, is_zero,
  length, take, if◌then◌else◌,
}
use linux_ant_hal.Types.{RadioStatus, radio_code, AntStatus, ant_code, ant_status_success, eq_ant}
use linux_ant_hal.Os.{
  Os, M, ◌>>=◌, ◌>>◌, pure, call, tell, java, get_env, attach_current_thread, detach_current_thread,
  exception_occurred, exception_describe, exception_clear, throw_null_pointer, new_byte_array,
  set_byte_array_region, delete_local_ref, get_byte_array_elements, release_byte_array_elements,
  call_rx_method, call_state_method, find_class, new_global_ref, register_natives, get_rx_method_id,
  get_state_method_id,
}
use linux_ant_hal.Client.{Library}

abbrev status_code : AntStatus → ℤ
status_code s = pos (ant_code s)

-- a transmission that has returned
pub tx_code : Option AntStatus → Option ℤ
tx_code none = none
tx_code (some s) = some (status_code s)

module _ {S : Type 0} (lib : Library S) where
  -- `nativeJAnt_Create`, with the numbers of the two callbacks
  pub native_create : ℕ → ℕ → M S ℤ
  native_create rx state = do
    r ← lib.ant_init
    if not (eq_ant r ant_status_success) then pure (status_code r) else do
      r' ← lib.set_ant_rx_callback (some rx)
      if not (eq_ant r' ant_status_success)
          then pure (status_code r')
          else do r'' ← lib.set_ant_state_callback (some state); pure (status_code r'')

  pub native_destroy : M S ℤ
  native_destroy = do r ← lib.ant_deinit; pure (status_code r)

  pub native_enable : M S ℤ
  native_enable = do r ← lib.ant_enable_radio; pure (status_code r)

  pub native_disable : M S ℤ
  native_disable = do r ← lib.ant_disable_radio; pure (status_code r)

  pub native_hard_reset : M S ℤ
  native_hard_reset = do r ← lib.ant_radio_hard_reset; pure (status_code r)

  pub native_radio_enabled_status : M S ℤ
  native_radio_enabled_status = do s ← lib.ant_radio_enabled_status; pure (pos (radio_code s))

  -- `nativeJAnt_TxMessage`, of NULL or of an array of bytes, whose length is cast to a byte. The bytes
  -- are handed on unchecked: where there are none, the library is given the length and NULL, at which
  -- there is no byte to be read.
  pub native_tx_message : Os → Option (List ℕ) → M S (Option ℤ)
  native_tx_message os none = do tell (java throw_null_pointer); pure (some minus_one)
  native_tx_message os (some msg) = do
    msg_bytes ← call os (java get_byte_array_elements)
    r ← lib.ant_tx_message (length msg % 256) (if is_zero msg_bytes then [] else msg)
    tell (java release_byte_array_elements)
    pure (tx_code r)

module _ {S : Type 0} (os : Os) where
  abbrev clear_exception : M S (Unit {0})
  clear_exception = do tell (java exception_describe); tell (java exception_clear)

  -- the label CLEANUP, with or without an array
  pub rx_failed : Bool → M S (Unit {0})
  rx_failed has_array = do
    if has_array then tell (java delete_local_ref) else pure tt
    e ← call os (java exception_occurred)
    if is_zero e then pure tt else clear_exception
    tell (java detach_current_thread)

  -- `nativeJAnt_RxCallback` with the array made
  pub rx_array : List ℕ → M S (Unit {0})
  rx_array bytes = do
    tell (java (set_byte_array_region bytes))
    e ← call os (java exception_occurred)
    if not (is_zero e) then rx_failed true else do
      tell (java call_rx_method)
      e' ← call os (java exception_occurred)
      if not (is_zero e')
          then rx_failed true
          else do tell (java delete_local_ref); tell (java detach_current_thread)

  -- `nativeJAnt_RxCallback`
  pub native_rx_callback : ℕ → List ℕ → M S (Unit {0})
  native_rx_callback len bytes = do
    env ← call os (java attach_current_thread)
    if is_zero env then pure tt else do
      array ← call os (java (new_byte_array len))
      if is_zero array then rx_failed false else rx_array (take len bytes)

  -- `nativeJAnt_StateCallback` with an environment
  pub state_told : RadioStatus → Bool → M S (Unit {0})
  state_told status should_detach = do
    tell (java (call_state_method (radio_code status)))
    e ← call os (java exception_occurred)
    if is_zero e then pure tt else clear_exception
    if should_detach then tell (java detach_current_thread) else pure tt

  -- `nativeJAnt_StateCallback`
  pub native_state_callback : RadioStatus → M S (Unit {0})
  native_state_callback status = do
    env ← call os (java get_env)
    if not (is_zero env) then state_told status false else do
      env' ← call os (java attach_current_thread)
      if is_zero env' then pure tt else state_told status true

  -- `JNI_OnLoad` from the registration of the functions on
  pub register : M S Bool
  register = do
    r ← call os (java register_natives)
    if not (is_zero r) then pure false else do
      rx ← call os (java get_rx_method_id)
      if is_zero rx
          then pure false
          else do state ← call os (java get_state_method_id); pure (not (is_zero state))

  -- `JNI_OnLoad`: whether it returns the version and not -1. The environment is set where `GetEnv`
  -- returns JNI_OK.
  pub jni_on_load : M S Bool
  jni_on_load = do
    ok ← call os (java get_env)
    if not (is_zero ok) then pure false else do
      clazz ← call os (java find_class)
      if is_zero clazz then pure false else do tell (java new_global_ref); register
