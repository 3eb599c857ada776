-- ===== src/Jni/Callbacks.antt =====
-- src/common/JAntNative.cpp: what the callbacks leave behind in the virtual machine.
use linux_ant_hal.Base.{
  ℕ, suc, ◌+◌, ◌≡◌, Bool, true, false, not, List, [], ◌∷◌, arith, is_zero, if◌then◌else◌,
}
use linux_ant_hal.Types.{RadioStatus}
use linux_ant_hal.Os.{
  Os, Trace, java, get_env, attach_current_thread, detach_current_thread, new_byte_array,
  delete_local_ref,
}
use linux_ant_hal.Jni.{rx_failed, rx_array, native_rx_callback, state_told, native_state_callback}

-- Whether the thread is attached to the virtual machine after a trace, from whether it was before it.
unfoldable pub attached : Os → Bool → Trace → Bool
attached os before [] = before
attached os before (java attach_current_thread ∷ t) =
    let earlier = attached os before t in
    if is_zero (os.ret t (java attach_current_thread)) then earlier else true
attached os before (java detach_current_thread ∷ t) = false
attached os before (_ ∷ t) = attached os before t

-- The arrays that were made and not yet deleted, as the difference of two counts: those made,
pub arrays_made : Os → Trace → ℕ
arrays_made os [] = 0
arrays_made os (java (new_byte_array n) ∷ t) =
    let earlier = arrays_made os t in
    if is_zero (os.ret t (java (new_byte_array n))) then earlier else suc earlier
arrays_made os (_ ∷ t) = arrays_made os t

-- and those deleted.
pub arrays_deleted : Trace → ℕ
arrays_deleted [] = 0
arrays_deleted (java delete_local_ref ∷ t) = suc (arrays_deleted t)
arrays_deleted (_ ∷ t) = arrays_deleted t

module _ {S : Type 0} (os : Os) where
  -- On every path, the callback for messages that is called on a thread that is not attached leaves it
  -- not attached, and deletes as many arrays as it makes.
  pub rx_callback_balanced :
      (before : Bool) (len : ℕ) (bytes : List ℕ) (s : S) (t : Trace)
      → attached os before t ≡ false
      → let (_, s', t') = native_rx_callback os len bytes s t in
        (attached os before t' ≡ false)
        × (arrays_made os t' + arrays_deleted t ≡ arrays_made os t + arrays_deleted t')
  unfolding native_rx_callback rx_array rx_failed attached arrays_made arrays_deleted
  rx_callback_balanced before len bytes s t free = ground arith

  -- Where `GetEnv` finds an environment exactly on a thread that is attached, the callback for states
  -- leaves the thread attached exactly if it was before.
  pub state_callback_balanced :
      (before : Bool) (status : RadioStatus) (s : S) (t : Trace)
      → ((u : Trace) → is_zero (os.ret u (java get_env)) ≡ not (attached os before u))
      → attached os before (native_state_callback os status s t).2 ≡ attached os before t
  unfolding native_state_callback state_told attached
  state_callback_balanced before status s t env = ground (arith, env t)
