-- ===== src/Tests/Pins.antt =====
-- Outputs, the temperature sensor and the alarm inputs.
use itertk.Base.{◌≡◌, refl, [], ◌∷◌, some, arith, get_elem?}
use itertk.Conf.{ConfigSensor}
use itertk.Client.{Client, Event}
use itertk.Client.Outputs.{set_io_out}
use itertk.Client.Outputs.Driving.{set_io_drives}
use itertk.Client.Sensors.Entries.{Fits, entries}
use itertk.Gpio.{AlarmInput}
use itertk.Gpio.Window.{watch_all, alarm_window}
use itertk.Tests.{frame, demo_env, demo, demo_sensor}

demo_sensor-Fits : Fits demo_sensor
demo_sensor-Fits = record { num_le = omega arith; seq_len = refl; attr_len = refl }

set_io_drives_example :
    (t : ConfigSensor) × (c' : Client) × (set_io_out demo_env
        (frame (0x55 ∷ 0xaa ∷ 0x1a ∷ 0x01 ∷ 2 ∷ 3 ∷ 8 ∷ 1 ∷ 7 ∷ 9 ∷ 0 ∷ []))
        demo
      ≡ some c')
    × (c'.conf ≡ (let conf = demo.conf in record conf { sensor_io_out = t }))
    × (c'.log ≡ Event.saved c'.conf ∷ Event.gpio 43 1 ∷ [])
    × (t.type ≡ 2)
    × (t.num ≡ 2)
    × (entries t.seq_num t.attr 2 0 ≡ 3 ∷ 8 ∷ 7 ∷ 9 ∷ [])
set_io_drives_example =
    set_io_drives demo_env (frame (0x55 ∷ 0xaa ∷ 0x1a ∷ 0x01 ∷ 2 ∷ 3 ∷ 8 ∷ 1 ∷ 7 ∷ 9 ∷ 0 ∷ [])) demo
      demo_sensor-Fits (omega arith)

alarm_window_example :
    (s : AlarmInput) × (get_elem?
        (watch_all (1 ∷ 1 ∷ []) ((0 ∷ 1 ∷ []) ∷ (0 ∷ 1 ∷ []) ∷ (1 ∷ 1 ∷ []) ∷ []))
        0
      ≡ some s)
    × (s.alarm_in ≡ 1)
alarm_window_example =
    alarm_window (1 ∷ 1 ∷ []) ((0 ∷ 1 ∷ []) ∷ (0 ∷ 1 ∷ []) ∷ (1 ∷ 1 ∷ []) ∷ []) 0
      (refl, (refl, (refl, tt))) (omega arith)
