-- ===== src/Tests/Frames.antt =====
-- Frames from the server: devices' attributes and frames that are refused.
use itertk.Base.{◌≡◌, refl, ◌++◌, [], ◌∷◌, none, some, arith}
use itertk.Client.{Client, Event}
use itertk.Client.Frame.{Cmd, decode, check_head}
use itertk.Client.Sensors.{
  set_alarmin_device_attr, make_ack_set_device_attr, make_ack_get_device_attr,
}
use itertk.Client.Sensors.Entries.{entries, Fits}
use itertk.Client.Sensors.Answers.{Stores, sensors_text}
use itertk.Client.Sensors.Overload.{set_device_attr_overload}
use itertk.Client.Dispatch.{process_frame}
use itertk.Client.Dispatch.Refused.{Wrong, frame_ignored}
use itertk.Client.Dispatch.Accepted.{
  set_device_attr_answered, get_device_attr_answered, get_alarm_status_answered,
}
use itertk.Startup.{defaults_valid}
use itertk.Tests.{frame, demo_build, demo_env, demo}

frame_ignored_example :
    process_frame demo_env (frame (0x55 ∷ 0xaa ∷ 0x03 ∷ 0x01 ∷ 2 ∷ 1 ∷ [])) 6 demo
    ≡ some (record demo { sockfd_status = 1 })
unfolding decode check_head
frame_ignored_example =
    frame_ignored demo_env (frame (0x55 ∷ 0xaa ∷ 0x03 ∷ 0x01 ∷ 2 ∷ 1 ∷ [])) 6 demo
      (Wrong.too_short Cmd.set_device_attr refl (omega arith))

set_device_attr_answered_example :
    (c' : Client) × (process_frame demo_env
        (frame (0x55 ∷ 0xaa ∷ 0x03 ∷ 0x01 ∷ 2 ∷ 1 ∷ 7 ∷ 2 ∷ 9 ∷ 0 ∷ []))
        10
        demo
      ≡ some c')
    × Fits c'.conf.sensor_io_in
    × Stores (frame (0x55 ∷ 0xaa ∷ 0x03 ∷ 0x01 ∷ 2 ∷ 1 ∷ 7 ∷ 2 ∷ 9 ∷ 0 ∷ [])) demo.conf c'.conf
    × (c'.log
        ≡ Event.written (0x55 ∷ 0xaa ∷ 0x04 ∷ 0x01 ∷ 2 ∷ 1 ∷ 7 ∷ 2 ∷ 9 ∷ 0 ∷ [])
          ∷ Event.saved c'.conf
          ∷ [])
set_device_attr_answered_example =
    set_device_attr_answered demo_env
      (frame (0x55 ∷ 0xaa ∷ 0x03 ∷ 0x01 ∷ 2 ∷ 1 ∷ 7 ∷ 2 ∷ 9 ∷ 0 ∷ [])) 10 demo
      (record { start_1 = refl; start_2 = refl; command = refl; device = refl; long = omega arith })
      (defaults_valid demo_build).0.io_in (omega arith) (omega arith)

get_device_attr_answered_example :
    (c' : Client) × (process_frame demo_env (frame (0x55 ∷ 0xaa ∷ 0x01 ∷ 0x01 ∷ 0 ∷ [])) 5 demo
      ≡ some c')
    × (c'.conf ≡ demo.conf)
    × (c'.log
        ≡ Event.written (0x55 ∷ 0xaa ∷ 0x02 ∷ 0x01 ∷ 4 ∷ (sensors_text demo.conf ++ (0 ∷ []))) ∷ [])
get_device_attr_answered_example =
    get_device_attr_answered demo_env (frame (0x55 ∷ 0xaa ∷ 0x01 ∷ 0x01 ∷ 0 ∷ [])) 5 demo
      (record { start_1 = refl; start_2 = refl; command = refl; device = refl; long = omega arith })
      (defaults_valid demo_build).0

get_alarm_status_answered_example :
    (c' : Client) × (process_frame demo_env (frame (0x55 ∷ 0xaa ∷ 0x05 ∷ 0x01 ∷ 0 ∷ [])) 5 demo
      ≡ some c')
    × (c'.conf ≡ demo.conf)
    × (c'.log
        ≡ Event.written (
            0x55
            ∷ 0xaa
            ∷ 0x06
            ∷ 0x01
            ∷ demo.conf.sensor_io_in.num
            ∷ (entries demo.conf.sensor_io_in.seq_num demo.alarm_in demo.conf.sensor_io_in.num 0
                ++ (0 ∷ [])))
          ∷ [])
get_alarm_status_answered_example =
    get_alarm_status_answered demo_env (frame (0x55 ∷ 0xaa ∷ 0x05 ∷ 0x01 ∷ 0 ∷ [])) 5 demo
      (record { start_1 = refl; start_2 = refl; command = refl; device = refl; long = omega arith })
      (defaults_valid demo_build).0.io_in refl

set_device_attr_overload_example :
    (c' : Client) × (set_alarmin_device_attr (frame (0x55 ∷ 0xaa ∷ 0x03 ∷ 0x01 ∷ 9 ∷ [])) demo
      ≡ some c')
    × (c'.log ≡ Event.saved c'.conf ∷ [])
    × (¬ Fits c'.conf.sensor_io_in)
    × (make_ack_set_device_attr c'.conf (λ k. 0) ≡ none)
    × (make_ack_get_device_attr c'.conf (λ k. 0) ≡ none)
set_device_attr_overload_example =
    set_device_attr_overload (frame (0x55 ∷ 0xaa ∷ 0x03 ∷ 0x01 ∷ 9 ∷ [])) (λ k. 0) demo
      (defaults_valid demo_build).0 (omega arith)
