-- ===== src/BtVendor/Power.antt =====
-- src/bt-vendor_vfs/ant_native_chardev.c: opening and closing the channels, `ant_enable` and
-- `ant_disable`.
pub mod Lemmas
pub mod Chip
use linux_ant_hal.Base.{
  ℕ, Bool, true, false, not, ◌&&◌, List, [], ◌∷◌, ℤ, pos, minus_one, is_neg, eq_ℤ, ◌==◌,
  if◌then◌else◌,
}
use linux_ant_hal.Os.{
  Os, M, ◌>>=◌, ◌>>◌, pure, get, modify, after, call, tell, read_file, signal_eventfd, thread_join,
}
use linux_ant_hal.Chardev.State.{Channel, Hal}
use linux_ant_hal.Chardev.Power.{is_eagain, start_rx_thread, disable_out}
use linux_ant_hal.BtVendor.State.{Vendor, on_hal}
use linux_ant_hal.BtVendor.Transport.{init_transport_bdroid}

abbrev pub set_running : Bool → M Vendor (Unit {0})
set_running r = modify (λ v. record v { hal = record v.hal { run_thread = r } })

abbrev pub set_channels : List Channel → M Vendor (Unit {0})
set_channels cs = modify (λ v. record v { hal = record v.hal { channels = cs } })

module _ (os : Os) where
  unfoldable pub ant_disable_channel : Channel → M Vendor Channel
  ant_disable_channel c =
      if eq_ℤ c.fd minus_one
      then pure c
      else do init_transport_bdroid os false; pure (record c { fd = minus_one })

  unfoldable pub ant_enable_channel : Channel → M Vendor (ℤ × Channel)
  ant_enable_channel c =
      if eq_ℤ c.fd minus_one
      then (do
        fd ← init_transport_bdroid os true
        pure (if is_neg fd then minus_one else pos 0, record c { fd = fd }))
      else pure (pos 0, c)

  -- the loop over the channels in `ant_enable`, which stops at the first failure
  unfoldable pub enable_channels : List Channel → M Vendor (ℤ × List Channel)
  enable_channels [] = pure (pos 0, [])
  enable_channels (c ∷ cs) =
      let rest = enable_channels cs in
      do
        (r, c') ← ant_enable_channel c
        if is_neg r then pure (minus_one, c' ∷ cs) else do (r', cs') ← rest; pure (r', c' ∷ cs')

  -- the loop over the channels in `ant_disable`
  unfoldable pub disable_channels : List Channel → M Vendor (List Channel)
  disable_channels [] = pure []
  disable_channels (c ∷ cs) = do
    c' ← ant_disable_channel c
    cs' ← disable_channels cs
    pure (c' ∷ cs')

  -- `ant_enable` once the shutdown signal is cleared
  unfoldable pub open_channels : M Vendor ℤ
  open_channels = do
    set_running true
    v ← get
    (opened, cs) ← enable_channels v.hal.channels
    set_channels cs
    if is_neg opened then pure minus_one else on_hal (start_rx_thread os)

  -- Unlike that of src/vfs, it leaves `ucRunThread` set where it fails.
  unfoldable pub ant_enable : M Vendor ℤ
  ant_enable = do
    v ← get
    result ← call os (read_file v.hal.rx_shutdown_event_fd 8)
    e ← after os.errno
    if is_neg result && not (is_eagain e) then pure minus_one else open_channels

  -- `ant_disable` from the loop over the channels on
  unfoldable pub close_channels : M Vendor ℤ
  close_channels = do
    v ← get
    cs ← disable_channels v.hal.channels
    set_channels cs
    on_hal (disable_out os (pos 0))

  -- `ant_disable` with a receive thread
  unfoldable pub end_thread : M Vendor ℤ
  end_thread = do
    v ← get
    w ← call os (signal_eventfd v.hal.rx_shutdown_event_fd 1)
    if is_neg w then on_hal (disable_out os minus_one) else do
      j ← call os (thread_join v.hal.rx_thread)
      if is_neg j then on_hal (disable_out os minus_one) else close_channels

  unfoldable pub ant_disable : M Vendor ℤ
  ant_disable = do
    set_running false
    v ← get
    if v.hal.rx_thread == 0 then close_channels else end_thread
