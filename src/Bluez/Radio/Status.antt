-- ===== src/Bluez/Radio/Status.antt =====
-- Switching the radio over BlueZ: the status that results, and what the client is told of it.
use linux_ant_hal.Base.{ℕ, ◌≡◌, ◌⊎◌, true, Option, none, some, [], ◌∷◌, arith, is_zero}
use linux_ant_hal.Types.{
  RadioStatus, radio_status_enabling, radio_status_disabling, radio_status_enabled, eq_radio_iff,
}
use linux_ant_hal.Os.{
  Os, Trace, lock, enable_lock, tx_lock, power_is_enabled, power_enable, thread_create,
  power_disable, state_callback,
}
use linux_ant_hal.Bluez.State.{Radio}
use linux_ant_hal.Bluez.Radio.{
  notify, chip_status, get_and_set_radio_status, join_thread, begin_enabling, thread_started,
  start_thread, check_status, enable_chip, clean_up, enable_locked, with_locks, ant_enable_radio,
  power_off, disable_locked, ant_disable_radio,
}

-- The status of which the client was told last.
unfoldable pub last_told : Trace → Option RadioStatus
last_told [] = none
last_told (state_callback f status ∷ t) = some status
last_told (_ ∷ t) = last_told t

-- The client was told last of the status that the radio has.
abbrev pub Agrees : Radio → Trace → Type 0
Agrees h t = last_told t ≡ some h.radio_status

pub notify_eq :
    (status : RadioStatus) (f : ℕ) (h : Radio) (t : Trace)
    → h.state_callback ≡ some f
    → notify status h t ≡ (tt, h, state_callback f status ∷ t)
unfolding notify
notify_eq status f h t cb = ground arith

-- The status that is not told yet can only be ENABLING.
get_and_set-Agrees :
    (os : Os) (f : ℕ) (h : Radio) (t : Trace)
    → h.state_callback ≡ some f
    → (Agrees h t) ⊎ (h.radio_status ≡ radio_status_enabling)
    → let (s, h', t') = get_and_set_radio_status os true h t in
      (s ≡ h'.radio_status) × (h'.state_callback ≡ some f) × (h'.thread ≡ h.thread) × Agrees h' t'
unfolding get_and_set_radio_status last_told
get_and_set-Agrees os f h t cb known =
    let s = chip_status (os.ret t power_is_enabled) in
    ground (
      arith,
      eq_radio_iff h.radio_status s,
      notify_eq s f (record h { radio_status = s }) (power_is_enabled ∷ t),
    )

pub join_thread_lem :
    (os : Os) (h : Radio) (t : Trace)
    → let (_, h', t') = join_thread os h t in
      (h'.radio_status ≡ h.radio_status)
      × (h'.state_callback ≡ h.state_callback)
      × (h'.thread ≡ 0)
      × (last_told t' ≡ last_told t)
unfolding join_thread last_told
join_thread_lem os h t = ground arith

-- The status is ENABLED, or it is ENABLING and there is no thread.
abbrev IsReady : Radio → Type 0
IsReady h =
    (h.radio_status ≡ radio_status_enabled)
    ⊎ ((h.radio_status ≡ radio_status_enabling) × (h.thread ≡ 0))

check_status-Agrees :
    (os : Os) (f : ℕ) (h : Radio) (t : Trace)
    → h.state_callback ≡ some f
    → (Agrees h t) ⊎ (h.radio_status ≡ radio_status_enabling)
    → let (_, h', t') = check_status os true h t in
      (h'.state_callback ≡ some f) × IsReady h' × Agrees h' t'
unfolding check_status begin_enabling last_told
check_status-Agrees os f h t cb known =
    let (s, h1, t1) = get_and_set_radio_status os true h t in
    let (_, h2, t2) = join_thread os h1 t1 in
    let h3 = record h2 { radio_status = radio_status_enabling } in
    ground (
      arith,
      eq_radio_iff s radio_status_enabled,
      get_and_set-Agrees os f h t cb known,
      join_thread_lem os h1 t1,
      notify_eq radio_status_enabling f h3 t2,
    )

start_thread-Agrees :
    (os : Os) (f : ℕ) (h : Radio) (t : Trace)
    → h.state_callback ≡ some f
    → IsReady h
    → Agrees h t
    → let (_, h', t') = start_thread os true h t in (h'.state_callback ≡ some f) × Agrees h' t'
unfolding start_thread thread_started last_told
start_thread-Agrees os f h t cb ready known =
    let t1 = thread_create ∷ t in
    let h1 = record h { thread = os.thread t1; radio_status = radio_status_enabled } in
    ground (
      arith,
      eq_radio_iff h.radio_status radio_status_enabling,
      notify_eq radio_status_enabled f h1 t1,
    )

clean_up-Agrees :
    (os : Os) (f : ℕ) (h : Radio) (t : Trace)
    → h.state_callback ≡ some f
    → Agrees h t
    → let (_, h', t') = clean_up os true h t in (h'.state_callback ≡ some f) × Agrees h' t'
unfolding clean_up last_told
clean_up-Agrees os f h t cb known = ground (arith, get_and_set-Agrees os f h (power_disable ∷ t))

enable_locked-Agrees :
    (os : Os) (f : ℕ) (h : Radio) (t : Trace)
    → h.state_callback ≡ some f
    → (Agrees h t) ⊎ (h.radio_status ≡ radio_status_enabling)
    → let (_, h', t') = enable_locked os true h t in Agrees h' t'
unfolding enable_locked enable_chip last_told
enable_locked-Agrees os f h t cb known =
    let (_, h1, t1) = check_status os true h t in
    let t2 = power_enable ∷ t1 in
    let (_, h3, t3) = start_thread os true h1 t2 in
    ground (
      arith,
      check_status-Agrees os f h t cb known,
      start_thread-Agrees os f h1 t2,
      clean_up-Agrees os f h1 t2,
      clean_up-Agrees os f h3 t3,
    )

disable_locked-Agrees :
    (os : Os) (f : ℕ) (h : Radio) (t : Trace)
    → h.state_callback ≡ some f
    → Agrees h t
    → let (_, h', t') = disable_locked os true h t in Agrees h' t'
unfolding disable_locked power_off last_told
disable_locked-Agrees os f h t cb known =
    let (_, h1, t1) = get_and_set_radio_status os true h t in
    let (_, h2, t2) = power_off os true h t in
    let (_, h3, t3) = join_thread os h2 t2 in
    ground (
      arith,
      get_and_set-Agrees os f h t cb,
      notify_eq radio_status_disabling f (record h1 { radio_status = radio_status_disabling }) t1,
      join_thread_lem os h2 t2,
      get_and_set-Agrees os f h3 t3,
    )

-- With the power library and a callback registered: if the status of which the client was told last
-- is the status of the radio, then it is so again after `ant_enable_radio` and `ant_disable_radio`,
-- where these can lock the second lock if they can lock the first.
pub switch-Agrees :
    (os : Os) (f : ℕ) (h : Radio) (t : Trace)
    → h.state_callback ≡ some f
    → is_zero (os.ret (lock enable_lock ∷ t) (lock tx_lock)) ≡ true
    → Agrees h t
    → (let (_, h', t') = ant_enable_radio os true h t in Agrees h' t')
      × (let (_, h', t') = ant_disable_radio os true h t in Agrees h' t')
unfolding ant_enable_radio ant_disable_radio with_locks last_told
switch-Agrees os f h t cb locked known =
    let t2 = lock tx_lock ∷ lock enable_lock ∷ t in
    let enabling = record h { radio_status = radio_status_enabling } in
    ground (
      arith,
      enable_locked-Agrees os f h t2 cb,
      enable_locked-Agrees os f enabling t2 cb,
      disable_locked-Agrees os f h t2 cb,
    )
