-- ===== src/Vdac/Interlock.antt =====
-- The interlock of src/cmd_vdac.c: what the commands can do while a device may be seated.
use test_controller.Base.{
  ℕ, ◌≤◌, ◌≡◌, refl, Bool, true, false, not, ◌&&◌, CString, arith, ltb, if◌then◌else◌, Bool-cases,
  inl, inr, if_either,
}
use test_controller.Base.Int.{ℤ, pos, negsuc}
use test_controller.Cal.{Calibration, duty_for_mv}
use test_controller.Vdac.{
  Vdac, Conditions, Channel, vdut1, vdut2, put, is_guarded, raw_duty, set_duty, ledc_init,
  drive_duty, set_enable, set_voltage, index_of,
}
use test_controller.Vdac.Commands.{selects, switch_on, drive_channel, drive_channels}

-- The LEDC duty of 75 %.
abbrev pub safe_duty : ℕ
safe_duty = 3071

-- A channel whose pin carries a duty of at least 75 %.
pub record Driven (s : Vdac) (ch : Channel) : Type 0 where
  pub configured : s.ch_configured ch ≡ true
  pub high : safe_duty ≤ s.duty ch

-- A regulator is switched on only over such a channel.
unfoldable pub Safe : Vdac → Type 0
Safe s = (ch : Channel) → s.level ch ≡ true → Driven s ch

-- An operation that drives the channel keeps the state safe, and drives it when it reports success.
abbrev pub Drives : Channel → (Vdac → Vdac × Bool) → Type 0
Drives ch f = (s : Vdac) → Safe s → Safe (f s).0 × ((f s).1 ≡ true → Driven (f s).0 ch)

abbrev pub Good : Channel → Vdac × Bool → Type 0
Good ch r = Safe r.0 × (r.1 ≡ true → Driven r.0 ch)

refuse : (ch : Channel) (s : Vdac) → Safe s → Good ch (s, false)
refuse ch s v = (v, λ e. absurd (cc))

put_self : {A : Type 0} (ch : Channel) (x : A) (f : Channel → A) → put ch x f ch ≡ x
put_self vdut1 x f = refl
put_self vdut2 x f = refl

-- A property of the new value and of the old ones holds of all the values behind a `put`.
put_either :
    {A : Type 0} (P : Channel → A → Type 0) (ch : Channel) (x : A) (f : Channel → A)
    → P ch x
    → ((ch' : Channel) → P ch' (f ch'))
    → (ch' : Channel) → P ch' (put ch x f ch')
put_either P vdut1 x f new old vdut1 = new
put_either P vdut1 x f new old vdut2 = old vdut2
put_either P vdut2 x f new old vdut1 = old vdut1
put_either P vdut2 x f new old vdut2 = new

raw_duty_safe : (percent : ℕ) → 75 ≤ percent → safe_duty ≤ raw_duty percent
raw_duty_safe percent h = omega arith

drive-Good :
    (s : Vdac) (ch : Channel) (percent : ℕ)
    → 75 ≤ percent
    → s.ch_configured ch ≡ true
    → Safe s
    → Good ch (record s { duty = put ch (raw_duty percent) s.duty }, true)
unfolding Safe
drive-Good s ch percent h set v = (
  λ ch' on. record {
    configured = (v ch' on).configured;
    high =
        put_either (λ x d. s.level x ≡ true → safe_duty ≤ d) ch (raw_duty percent) s.duty
          (λ e. raw_duty_safe percent h) (λ x e. (v x e).high) ch' on;
  },
  λ e. record {
    configured = set;
    high = rw (put_self ch (raw_duty percent) s.duty) (raw_duty_safe percent h);
  },
)

configure :
    (s : Vdac) (ch : Channel)
    → Safe s
    → Safe (record s { ch_configured = put ch true s.ch_configured })
unfolding Safe
configure s ch v = λ ch' on. record {
  configured =
      put_either (λ x b. s.level x ≡ true → b ≡ true) ch true s.ch_configured (λ e. refl)
        (λ x e. (v x e).configured) ch' on;
  high = (v ch' on).high;
}

drive_duty-Drives :
    (k : Conditions) (ch : Channel) (percent : ℕ)
    → 75 ≤ percent
    → Drives ch (drive_duty k ch percent)
unfolding drive_duty
drive_duty-Drives k ch percent h s v = elim (Bool-cases (s.ch_configured ch)) [
  | inl set ↦
      rw (set, drive_duty)
        (if_either (Good ch) (not (k.set_duty_ok ch)) (refuse ch s v) (
          if_either (Good ch) (k.update_duty ch) (drive-Good s ch percent h set v) (refuse ch s v)))
  | inr new ↦
      rw (new, drive_duty)
        (if_either (Good ch) (k.channel_config ch)
          (drive-Good (record s { ch_configured = put ch true s.ch_configured }) ch percent h
            (put_self ch true s.ch_configured) (configure s ch v))
          (refuse ch s v))
]

start_timer : (s : Vdac) → Safe s → Safe (record s { timer_ready = true })
unfolding Safe
start_timer s v = λ ch on. record { configured = (v ch on).configured; high = (v ch on).high }

pub set_duty-Drives :
    (k : Conditions) (ch : Channel) (percent : ℕ)
    → is_guarded k ≡ true
    → Drives ch (set_duty k ch percent)
unfolding set_duty ledc_init
set_duty-Drives k ch percent guard s v = elim (Bool-cases (ltb percent 75)) [
  | inl low ↦ rw (low, guard, set_duty) (refuse ch s v)
  | inr high ↦
      rw (high, set_duty)
        (if_either (Good ch) s.timer_ready (drive_duty-Drives k ch percent (ground arith) s v)
          (elim (Bool-cases k.timer_config) [
            | inl up ↦
                rw (up, ledc_init)
                  (drive_duty-Drives k ch percent (ground arith) (record s { timer_ready = true })
                    (start_timer s v))
            | inr down ↦ rw (down, ledc_init) (refuse ch s v)
          ]))
]

pub set_voltage-Drives :
    {F : Type 0} (c : Calibration F) (k : Conditions) (ch : Channel) (voltage_mv : ℤ)
    → is_guarded k ≡ true
    → Drives ch (set_voltage c k ch voltage_mv)
unfolding set_voltage
set_voltage-Drives c k ch voltage_mv guard s v =
    by_duty (duty_for_mv c (pos (index_of ch)) voltage_mv)
  where
    by_duty :
        (d : ℤ)
        → Good ch (elim d [
          | negsuc n ↦ (s, false)
          | pos duty ↦ set_duty k ch (if ltb 100 duty then 100 else duty) s
        ])
    by_duty (negsuc n) = refuse ch s v
    by_duty (pos duty) = set_duty-Drives k ch (if ltb 100 duty then 100 else duty) guard s v

pub set_enable-Safe :
    (k : Conditions) (ch : Channel) (enable : Bool) (s : Vdac)
    → Safe s
    → (enable ≡ true → Driven s ch)
    → Safe (set_enable k ch enable s).0
unfolding set_enable Safe
set_enable-Safe k ch enable s v driven = elim (Bool-cases (k.set_direction ch)) [
  | inl set ↦
      rw (set, set_enable)
        (λ ch' on.
          let d = put_either (λ x b. b ≡ true → Driven s x) ch enable s.level driven v ch' on in
          record { configured = d.configured; high = d.high })
  | inr kept ↦ rw (kept, set_enable) v
]

pub switch_off :
    (k : Conditions) (ch : Channel) (s : Vdac) → Safe s → Safe (set_enable k ch false s).0
switch_off k ch s v = set_enable-Safe k ch false s v (λ e. absurd (cc))

switch_on-Safe :
    (k : Conditions) (ch : Channel) (r : Vdac × Bool) → Good ch r → Safe (switch_on k ch r).0
unfolding switch_on
switch_on-Safe k ch (s, false) g = g.0
switch_on-Safe k ch (s, true) g =
    if_either (λ (r : Vdac × Bool). Safe r.0) (s.enabled ch) g.0
      (set_enable-Safe k ch true s g.0 (λ e. g.1 refl))

drive_channel-Safe :
    (k : Conditions) (drive : Channel → Vdac → Vdac × Bool) (who : CString) (ch : Channel)
    (s : Vdac)
    → Drives ch (drive ch)
    → Safe s
    → Safe (drive_channel k drive who ch s).0
unfolding drive_channel
drive_channel-Safe k drive who ch s drives v =
    if_either (λ (r : Vdac × Bool). Safe r.0) (selects ch who)
      (switch_on-Safe k ch (drive ch s) (drives s v)) v

pub drive_channels-Safe :
    (k : Conditions) (drive : Channel → Vdac → Vdac × Bool) (who : CString) (s : Vdac)
    → ((ch : Channel) → Drives ch (drive ch))
    → Safe s
    → Safe (drive_channels k drive who s).0
unfolding drive_channels
drive_channels-Safe k drive who s drives v =
    let first = drive_channel-Safe k drive who vdut1 s (drives vdut1) v in
    let s1 = (drive_channel k drive who vdut1 s).0 in
    let second = drive_channel-Safe k drive who vdut2 s1 (drives vdut2) first in
    let P : Vdac × ℕ → Type 0 = λ r. Safe r.0 in
    if_either P (not (selects vdut1 who) && not (selects vdut2 who)) v (
      if_either P (not (drive_channel k drive who vdut1 s).1) first
        (if_either P (not (drive_channel k drive who vdut2 s1).1) second second))
