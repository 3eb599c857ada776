-- ===== src/Chardev/Status.antt =====
-- src/vfs/ant_native_chardev.c: `ant_radio_enabled_status`, and what its answers mean.
use linux_ant_hal.Base.{
  ℕ, suc, ◌≤◌, ◌≡◌, refl, ◌≢◌, ◌↔◌, Bool, true, false, not, ◌&&◌, ◌||◌, List, [], ◌∷◌, arith,
  minus_one, eq_ℤ, length, All, ◌==◌, if◌then◌else◌,
}
use linux_ant_hal.Types.{
  RadioStatus, radio_status_resetting, radio_status_disabling, radio_status_disabled,
  radio_status_enabled, radio_status_unknown, radio_status_enabling,
}
use linux_ant_hal.Chardev.State.{Channel, Hal}

-- `iFd != -1`
abbrev pub is_open : Channel → Bool
is_open c = not (eq_ℤ c.fd minus_one)

unfoldable pub count_open : List Channel → ℕ
count_open [] = 0
count_open (c ∷ cs) = let n = count_open cs in if is_open c then suc n else n

unfoldable pub ant_radio_enabled_status : Hal → RadioStatus
ant_radio_enabled_status h =
    if h.chip_resetting
    then radio_status_resetting
    else if not h.run_thread
    then (if not (count_open h.channels == 0) || not (h.rx_thread == 0)
        then radio_status_disabling
        else radio_status_disabled)
    else if (count_open h.channels == length h.channels) && not (h.rx_thread == 0)
    then radio_status_enabled
    else if (count_open h.channels == 0) && not (h.rx_thread == 0)
    then radio_status_unknown
    else radio_status_enabling

abbrev pub IsOpen : Channel → Type 0
IsOpen c = is_open c ≡ true

abbrev pub IsClosed : Channel → Type 0
IsClosed c = is_open c ≡ false

pub count_open-le-length : (cs : List Channel) → count_open cs ≤ length cs
unfolding count_open
count_open-le-length [] = omega arith
count_open-le-length (c ∷ cs) = ground (arith, count_open-le-length cs)

pub count_open-All : (cs : List Channel) → count_open cs ≡ length cs ↔ All IsOpen cs
unfolding count_open
count_open-All [] = (λ _. tt, λ _. refl)
count_open-All (c ∷ cs) = ground (arith, count_open-All cs, count_open-le-length cs)

pub count_open_none : (cs : List Channel) → count_open cs ≡ 0 ↔ All IsClosed cs
unfolding count_open
count_open_none [] = (λ _. tt, λ _. refl)
count_open_none (c ∷ cs) = ground (arith, count_open_none cs)

-- The status is ENABLED exactly if no reset is under way, the receive thread exists and has not been
-- told to stop, and every channel is open.
pub status_enabled_iff :
    (h : Hal)
    → (ant_radio_enabled_status h ≡ radio_status_enabled) ↔ (
        (h.chip_resetting ≡ false)
        × (h.run_thread ≡ true)
        × (h.rx_thread ≢ 0)
        × All IsOpen h.channels)
unfolding ant_radio_enabled_status
status_enabled_iff h = ground (arith, count_open-All h.channels)

-- The status is DISABLED exactly if no reset is under way, the receive thread is told to stop and
-- gone, and every channel is closed.
pub status_disabled_iff :
    (h : Hal)
    → (ant_radio_enabled_status h ≡ radio_status_disabled) ↔ (
        (h.chip_resetting ≡ false)
        × (h.run_thread ≡ false)
        × (h.rx_thread ≡ 0)
        × All IsClosed h.channels)
unfolding ant_radio_enabled_status
status_disabled_iff h = ground (arith, count_open_none h.channels)
