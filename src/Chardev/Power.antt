-- ===== src/Chardev/Power.antt =====
-- src/vfs/ant_native_chardev.c: opening and closing the channels, `ant_enable` and `ant_disable`.
pub mod Enable
pub mod Disable
use linux_ant_hal.Base.{
  ℕ, Bool, true, false, not, ◌&&◌, none, some, List, [], ◌∷◌, ℤ, pos, minus_one, is_neg, eq_ℤ, ◌==◌,
  if◌then◌else◌,
}
use linux_ant_hal.Os.{
  Os, Errno, eagain, M, ◌>>=◌, ◌>>◌, pure, get, modify, after, call, tell, open_file, close_file,
  read_file, signal_eventfd, thread_create, thread_join,
}
use linux_ant_hal.Chardev.State.{Channel, Hal}

abbrev pub is_eagain : Errno → Bool
is_eagain eagain = true
is_eagain _ = false

module _ (os : Os) where
  -- The channel is never null: every caller passes the address of an array element.
  unfoldable pub ant_disable_channel : Channel → M Hal Channel
  ant_disable_channel c =
      if eq_ℤ c.fd minus_one
      then pure c
      else do call os (close_file c.fd); pure (record c { fd = minus_one })

  unfoldable pub ant_enable_channel : Channel → M Hal (ℤ × Channel)
  ant_enable_channel c =
      if eq_ℤ c.fd minus_one
      then (do
        fd ← call os (open_file c.device_path)
        pure (if is_neg fd then minus_one else pos 0, record c { fd = fd }))
      else pure (pos 0, c)

  -- the loop over the channels in `ant_enable`, which stops at the first failure
  unfoldable pub enable_channels : List Channel → M Hal (ℤ × List Channel)
  enable_channels [] = pure (pos 0, [])
  enable_channels (c ∷ cs) =
      let rest = enable_channels cs in
      do
        (r, c') ← ant_enable_channel c
        if is_neg r then pure (minus_one, c' ∷ cs) else do (r', cs') ← rest; pure (r', c' ∷ cs')

  -- the loop over the channels in `ant_disable`
  unfoldable pub disable_channels : List Channel → M Hal (List Channel)
  disable_channels [] = pure []
  disable_channels (c ∷ cs) = do
    c' ← ant_disable_channel c
    cs' ← disable_channels cs
    pure (c' ∷ cs')

  -- `ant_enable` from the creation of the receive thread on. `pthread_create` may have stored a
  -- handle, and the thread that it started may have cleared `ucRunThread`.
  unfoldable pub start_rx_thread : M Hal ℤ
  start_rx_thread = do
    h ← get
    if h.rx_thread == 0
        then (do
          r ← call os thread_create
          handle ← after os.thread
          runs ← after os.keeps_running
          modify (λ s. record s { rx_thread = handle; run_thread = s.run_thread && runs })
          pure (if is_neg r then minus_one else if h.run_thread && runs then pos 0 else minus_one))
        else pure (if h.run_thread then pos 0 else minus_one)

  -- the label `out` of `ant_enable`
  unfoldable pub enable_out : ℤ → M Hal ℤ
  enable_out ret = do
    modify (λ s. if s.rx_thread == 0 then record s { run_thread = false } else s)
    pure ret

  unfoldable pub ant_enable : M Hal ℤ
  ant_enable = do
    h ← get
    result ← call os (read_file h.rx_shutdown_event_fd 8)
    e ← after os.errno
    if is_neg result && not (is_eagain e) then enable_out minus_one else do
      modify (λ s. record s { run_thread = true })
      (opened, cs) ← enable_channels h.channels
      modify (λ s. record s { channels = cs })
      if is_neg opened then enable_out minus_one else do r ← start_rx_thread; enable_out r

  -- the label `out` of `ant_disable`
  unfoldable pub disable_out : ℤ → M Hal ℤ
  disable_out ret = do modify (λ s. record s { rx_thread = 0 }); pure ret

  -- `ant_disable` from the loop over the channels on
  unfoldable pub close_channels : M Hal ℤ
  close_channels = do
    h ← get
    cs ← disable_channels h.channels
    modify (λ s. record s { channels = cs })
    disable_out (pos 0)

  unfoldable pub ant_disable : M Hal ℤ
  ant_disable = do
    modify (λ s. record s { run_thread = false })
    h ← get
    if h.rx_thread == 0 then close_channels else do
      w ← call os (signal_eventfd h.rx_shutdown_event_fd 1)
      if is_neg w then disable_out minus_one else do
        j ← call os (thread_join h.rx_thread)
        if is_neg j then disable_out minus_one else close_channels
