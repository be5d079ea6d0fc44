-- ===== src/Vdac.antt =====
-- src/cmd_vdac.c: the two regulators that supply the device under test, and the interlock that keeps
-- their voltage down while a device may be seated (a low duty is a high voltage).
pub mod Commands
pub mod Interlock
pub mod Sessions
pub mod Shutdown
pub mod Switches
pub mod Characterize
mod Tests
use test_controller.Base.{
  ℕ, zero, suc, ◌*◌, ◌/◌, Bool, true, false, not, ◌&&◌, ◌||◌, ltb, if◌then◌else◌,
}
use test_controller.Base.Int.{ℤ, pos, negsuc}
use test_controller.Cal.{Calibration, duty_for_mv}

-- The index of a channel; every caller passes 0 or 1.
pub data Channel : Type 0 where
  vdut1 vdut2 : Channel

abbrev pub index_of : Channel → ℕ
index_of vdut1 = 0
index_of vdut2 = 1

abbrev pub same : Channel → Channel → Bool
same vdut1 vdut1 = true
same vdut1 vdut2 = false
same vdut2 vdut1 = false
same vdut2 vdut2 = true

abbrev pub put : {A : Type 0} → Channel → A → (Channel → A) → Channel → A
put ch v f ch' = if same ch ch' then v else f ch'

-- The statics of the file; and what the pins carry, the LEDC duty of a channel and its enable level.
pub record Vdac : Type 0 where
  pub timer_ready : Bool
  pub enabled : Channel → Bool
  pub ch_configured : Channel → Bool
  pub duty : Channel → ℕ
  pub level : Channel → Bool

-- What the calls to the drivers answer (`true` for ESP_OK), and what dut_detect_is_ready and
-- dut_detect_present answer.
pub record Conditions : Type 0 where
  pub timer_config : Bool
  pub channel_config : Channel → Bool
  pub set_duty_ok : Channel → Bool
  pub update_duty : Channel → Bool
  pub set_direction : Channel → Bool
  pub ready : Bool
  pub present : Bool

-- A device may be seated: it is, or the detection has not sampled yet.
abbrev pub is_guarded : Conditions → Bool
is_guarded k = not k.ready || k.present

-- (uint32_t)(duty_pct * 4095) / 100, for the percentages of the callers, which are not negative.
abbrev pub raw_duty : ℕ → ℕ
raw_duty duty_pct = duty_pct * 4095 / 100

unfoldable pub initial_vdac : Vdac
initial_vdac = record {
  timer_ready = false;
  enabled = λ ch. false;
  ch_configured = λ ch. false;
  duty = λ ch. 0;
  level = λ ch. false;
}

-- vdac_ledc_init
unfoldable pub ledc_init : Conditions → Vdac → Vdac × Bool
ledc_init k s = if k.timer_config then (record s { timer_ready = true }, true) else (s, false)

-- vdac_set_duty behind the interlock and the timer.
unfoldable pub drive_duty : Conditions → Channel → ℕ → Vdac → Vdac × Bool
drive_duty k ch duty_pct s =
    if not (s.ch_configured ch)
    then (if k.channel_config ch
        then (
          record s {
            ch_configured = put ch true s.ch_configured;
            duty = put ch (raw_duty duty_pct) s.duty;
          },
          true,
        )
        else (s, false))
    else if not (k.set_duty_ok ch)
    then (s, false)
    else if k.update_duty ch
    then (record s { duty = put ch (raw_duty duty_pct) s.duty }, true)
    else (s, false)

unfoldable pub set_duty : Conditions → Channel → ℕ → Vdac → Vdac × Bool
unfolding ledc_init drive_duty
set_duty k ch duty_pct s =
    if ltb duty_pct 75 && is_guarded k
    then (s, false)
    else if s.timer_ready
    then drive_duty k ch duty_pct s
    else let (s', started) = ledc_init k s in
      if started then drive_duty k ch duty_pct s' else (s', false)

unfoldable pub set_enable : Conditions → Channel → Bool → Vdac → Vdac × Bool
set_enable k ch enable s =
    if k.set_direction ch
    then (record s { level = put ch enable s.level; enabled = put ch enable s.enabled }, true)
    else (s, false)

unfoldable pub set_voltage :
    {F : Type 0} → Calibration F → Conditions → Channel → ℤ → Vdac → Vdac × Bool
unfolding duty_for_mv set_duty
set_voltage c k ch voltage_mv s = elim (duty_for_mv c (pos (index_of ch)) voltage_mv) [
  | negsuc n ↦ (s, false)
  | pos duty ↦ set_duty k ch (if ltb 100 duty then 100 else duty) s
]

-- vdac_disable
unfoldable pub disable : Conditions → Channel → Vdac → Vdac × Bool
unfolding set_duty set_enable
disable k ch s = set_enable k ch false (set_duty k ch 0 s).0
