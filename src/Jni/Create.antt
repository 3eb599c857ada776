-- ===== src/Jni/Create.antt =====
-- src/common/JAntNative.cpp on the library of src/vfs: what `nativeJAnt_Create` sets up.
use Prim.Native.String.{String}
use linux_ant_hal.Base.{
  ℕ, eq_ℤ_iff, ◌⊎◌, ◌≡◌, ◌≢◌, Bool, some, List, [], ◌∷◌, arith, pos, minus_one, All, map,
}
use linux_ant_hal.Types.{radio_status_disabled}
use linux_ant_hal.Os.{Os, Trace, make_eventfd}
use linux_ant_hal.Chardev.State.{Channel, Hal}
use linux_ant_hal.Chardev.Status.{ant_radio_enabled_status, IsClosed, status_disabled_iff}
use linux_ant_hal.Chardev.Radio.{
  ant_channel_init, ant_init, set_ant_rx_callback, set_ant_state_callback, with_rx_callback,
}
use linux_ant_hal.Client.{chardev_library}
use linux_ant_hal.Jni.{native_create}

-- The channel is closed and hands its messages to this function.
abbrev pub IsReady : ℕ → Channel → Type 0
IsReady rx c = IsClosed c × (c.rx_callback ≡ some rx)

new_channels :
    (rx : ℕ) (names : List String)
    → let cs = map (with_rx_callback (some rx)) (map ant_channel_init names) in
      All (IsReady rx) cs × All IsClosed cs
unfolding ant_channel_init
new_channels rx [] = (tt, tt)
new_channels rx (name ∷ names) = ground (arith, new_channels rx names)

module _ (os : Os) (fuel : ℕ) (names : List String) (supported : Bool) where
  -- `nativeJAnt_Create` returns 0 where the event counter can be made: then the status is DISABLED, the
  -- states are told to the one function, and every channel hands its messages to the other. It returns
  -- 1, for a failure, where it cannot.
  pub native_create-IsReady :
      (rx state : ℕ) (h : Hal) (t : Trace)
      → let (r, h', _) = native_create (chardev_library os fuel names supported) rx state h t in
        ((os.ret t make_eventfd ≢ minus_one)
          × (r ≡ pos 0)
          × (ant_radio_enabled_status h' ≡ radio_status_disabled)
          × (h'.state_callback ≡ some state)
          × All (IsReady rx) h'.channels)
        ⊎ ((os.ret t make_eventfd ≡ minus_one) × (r ≡ pos 1))
  unfolding native_create ant_init set_ant_rx_callback set_ant_state_callback
  native_create-IsReady rx state h t =
      let (_, h', _) = native_create (chardev_library os fuel names supported) rx state h t in
      ground (
        arith,
        new_channels rx names,
        (status_disabled_iff h').1,
        eq_ℤ_iff (os.ret t make_eventfd) minus_one,
      )
