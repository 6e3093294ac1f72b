-- ===== src/Gpio.antt =====
-- The alarm inputs of nc600-2.0/src/gpio.c: `get_alarm` and the loop of `alarm_proc`, which samples the
-- inputs every 100 ms.
pub mod Window
use itertk.Base.{
  ℕ, suc, ◌+◌, ◌%◌, Bool, true, false, Option, none, some, List, [], ◌∷◌, leb, ◌==◌, if◌then◌else◌,
  u32,
}

-- `ALARM_IN1` to `ALARM_IN8`
abbrev pub alarm_pins : List ℕ
alarm_pins = 38 ∷ 37 ∷ 41 ∷ 65 ∷ 66 ∷ 67 ∷ 32 ∷ 33 ∷ []

-- `ALARM_OFF_TIMEOUT`, 30 s of samples
abbrev pub alarm_off_timeout : ℕ
alarm_off_timeout = 300

-- `get_gpio` into the local `alarm`: the character of the pin's value file less 0x30, as a byte, or the
-- old value if the file cannot be read.
abbrev pub get_gpio : Option ℕ → ℕ → ℕ
get_gpio none alarm = alarm
get_gpio (some ch) alarm = (ch + 208) % 256

-- The pins are read in their order through one local.
abbrev read_alarms : List ℕ → (ℕ → Option ℕ) → ℕ → List ℕ
read_alarms [] value alarm = []
read_alarms (pin ∷ pins) value alarm =
    let now = get_gpio (value pin) alarm in now ∷ read_alarms pins value now

unfoldable pub get_alarm : (ℕ → Option ℕ) → ℕ → List ℕ
get_alarm value alarm = read_alarms alarm_pins value alarm

-- Entry `i` of the arrays `alarm_init`, `alarm_off_count` and `g_alarm_in`.
pub record AlarmInput : Type 0 where
  pub alarm_init : ℕ
  pub alarm_off_count : ℕ
  pub alarm_in : ℕ

-- The two tests of the loop's body, for one input, and the `memcpy` behind it.
unfoldable pub alarm_step : ℕ → AlarmInput → AlarmInput
alarm_step update s =
    let counted =
      if update == s.alarm_init
      then record s { alarm_off_count = u32 (s.alarm_off_count + 1) }
      else record s { alarm_in = 1; alarm_off_count = 0 } in
    let timed =
      if counted.alarm_in == 1
      then (if leb alarm_off_timeout counted.alarm_off_count
          then record counted { alarm_in = 0 }
          else counted)
      else counted in
    record timed { alarm_init = update }

-- One turn of the loop over all inputs.
pub alarm_round : List ℕ → List AlarmInput → List AlarmInput
unfolding alarm_step
alarm_round (u ∷ us) (s ∷ ss) = alarm_step u s ∷ alarm_round us ss
alarm_round _ ss = []

-- Before the loop: the first samples, no alarm.
pub alarm_start : List ℕ → List AlarmInput
alarm_start [] = []
alarm_start (u ∷ us) = record { alarm_init = u; alarm_off_count = 0; alarm_in = 0 } ∷ alarm_start us
