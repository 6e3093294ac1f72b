-- ===== src/Client/Dispatch/Accepted.antt =====
-- Frames that the client takes, from the bytes received to the bytes sent.
use itertk.Base.{
  ℕ, ◌%◌, ◌*◌, ◌≤◌, ◌<◌, ◌≡◌, refl, true, some, List, [], ◌∷◌, ◌++◌, Buf, bytes, arith, sym, ap,
  ◌∙◌, leb, length, length-bytes, length-append,
}
use itertk.Client.{Client, Env, Event, send, send_cap}
use itertk.Client.Frame.{
  Cmd, Check, id_of, check_head, check_protocol_head, check_for_crc, check_frame, decode-id_of,
  make_ack_head,
}
use itertk.Client.Link.{
  is_open, led_ctrl, led_server, check_for_set_heartbeat, make_ack_set_heartbeat, set_heartbeat,
  heartbeat_online,
}
use itertk.Client.Dispatch.{
  handle, process_frame, on_set_heartbeat, on_set_device_attr, on_get_device_attr,
  on_get_alarm_status,
}
use itertk.Client.Checks.{
  check_for_set_device_attr, check_for_get_device_attr, check_for_get_alarm_status,
}
use itertk.Client.Sensors.Entries.{Fits, entries}
use itertk.Client.Sensors.Alarms.{get_alarm_status_answer}
use itertk.Client.Sensors.Answers.{
  SensorsFit, Stores, sensors_text, get_device_attr_answer, set_device_attr_roundtrip,
}
use itertk.Client.Dispatch.Refused.{shortest}
use itertk.Client.Dispatch.Rounds.{Online}

-- A frame of `num` bytes with the command `cmd`, as the protocol prescribes it.
pub record Valid (cmd : Cmd) (buf : Buf) (num : ℕ) : Type 0 where
  pub start_1 : buf 0 ≡ 0x55
  pub start_2 : buf 1 ≡ 0xaa
  pub command : buf 2 ≡ id_of cmd
  pub device : buf 3 ≡ 0x01
  pub long : shortest cmd ≤ num % 256

pub check_frame-Valid :
    (cmd : Cmd) (need : ℕ) (buf : Buf) (num : ℕ)
    → Valid cmd buf num
    → need ≡ shortest cmd
    → check_frame need cmd buf num ≡ Check.passed
unfolding check_frame check_protocol_head check_for_crc
check_frame-Valid cmd need buf num v e = ground (arith, v)

pub process_frame-Valid :
    (cmd : Cmd) (env : Env) (buf : Buf) (num : ℕ) (c : Client)
    → Valid cmd buf num
    → process_frame env buf num c ≡ handle cmd env buf num (record c { sockfd_status = 1 })
unfolding process_frame
process_frame-Valid cmd env buf num c v =
    let y : check_head buf ≡ true = unfold check_head in ground (arith, v) in
    rw (y, v.command, decode-id_of cmd) refl

-- A SET_HEARTBEAT frame to a client with an open socket is answered with the period it carries, a
-- byte, and switches the LED on. The client is online and counts from 0 within that period from then
-- on; its configuration stays as it was.
pub set_heartbeat_answered :
    (env : Env) (buf : Buf) (num : ℕ) (c : Client)
    → Valid Cmd.set_heartbeat buf num
    → is_open c.sockfd ≡ true
    → buf 4 ≤ 255
    → (c' : Client) × (process_frame env buf num c ≡ some c')
      × (c'.log
          ≡ Event.gpio 34 0 ∷ Event.written (0x55 ∷ 0xaa ∷ 0x0a ∷ 0x01 ∷ buf 4 ∷ 0 ∷ []) ∷ c.log)
      × (c'.heartbeat_s ≡ buf 4)
      × (c'.heartbeat_timeout ≡ 0)
      × (c'.conf ≡ c.conf)
      × Online c'
unfolding handle on_set_heartbeat make_ack_set_heartbeat make_ack_head set_heartbeat send
    check_for_set_heartbeat
set_heartbeat_answered env buf num c v o b =
    let c1 = record c { sockfd_status = 1 } in
    let e : check_for_set_heartbeat buf num c1 ≡ (Check.passed, record c1 { heartbeat_s = buf 4 }) =
      rw (check_frame-Valid Cmd.set_heartbeat 6 buf num v refl, check_for_set_heartbeat) refl in
    (
      led_ctrl led_server 0 (
          set_heartbeat heartbeat_online (buf 4) (record c {
            sockfd_status = 1;
            buf_send = (make_ack_set_heartbeat (buf 4) c.buf_send).1;
            log = Event.written (0x55 ∷ 0xaa ∷ 0x0a ∷ 0x01 ∷ buf 4 ∷ 0 ∷ []) ∷ c.log;
          })),
      process_frame-Valid Cmd.set_heartbeat env buf num c v ∙ rw e refl,
      refl,
      refl,
      refl,
      refl,
      record {
        alive = record { within = omega arith; byte = b };
        open_socket = o;
        not_on = λ q. omega (arith, q);
        not_offline = λ q. omega (arith, q);
      },
    )

-- The answer in the buffer goes out as it is.
pub send-bytes :
    (n : ℕ) (t : List ℕ) (c : Client)
    → bytes c.buf_send 0 n ≡ t
    → n ≤ 1024
    → send n c ≡ some (record c { log = Event.written t ∷ c.log })
unfolding send
send-bytes n t c e h =
    let fits : leb n send_cap ≡ true = ground arith in
    rw fits (ap (λ l. some (record c { log = Event.written l ∷ c.log })) e)

frame_size : (b : Buf) (n : ℕ) (t : List ℕ) → bytes b 0 n ≡ t → n ≡ length t
frame_size b n t e = sym (length-bytes b 0 n) ∙ ap length e

-- When the alarm inputs fit their arrays, a SET_DEVICE_ATTR frame with a count of 1 to 8 stores its
-- count and entries as those of the alarm inputs and changes nothing else of the configuration, saves
-- the configuration, in which the alarm inputs still fit their arrays, and is answered by the same
-- count and entries.
pub set_device_attr_answered :
    (env : Env) (buf : Buf) (num : ℕ) (c : Client)
    → Valid Cmd.set_device_attr buf num
    → Fits c.conf.sensor_io_in
    → 0 < buf 4
    → buf 4 ≤ 8
    → (c' : Client) × (process_frame env buf num c ≡ some c')
      × Fits c'.conf.sensor_io_in
      × Stores buf c.conf c'.conf
      × (c'.log
          ≡ Event.written
              (0x55 ∷ 0xaa ∷ 0x04 ∷ 0x01 ∷ buf 4 ∷ (bytes buf 5 (2 * buf 4) ++ (0 ∷ [])))
            ∷ Event.saved c'.conf
            ∷ c.log)
unfolding handle on_set_device_attr check_for_set_device_attr
set_device_attr_answered env buf num c v f pos le =
    let c1 = record c { sockfd_status = 1 } in
    let (c2, e2, fit, stored, log2, kept, (r, er, answer)) =
      set_device_attr_roundtrip buf c.buf_send c1 f pos le in
    let passes = check_frame-Valid Cmd.set_device_attr 7 buf num v refl in
    let size = frame_size r.1 r.0 _ answer in
    let text = 0x55 ∷ 0xaa ∷ 0x04 ∷ 0x01 ∷ buf 4 ∷ (bytes buf 5 (2 * buf 4) ++ (0 ∷ [])) in
    let small : r.0 ≤ 1024 = omega (
      arith,
      size,
      length-append (bytes buf 5 (2 * buf 4)) (0 ∷ []),
      length-bytes buf 5 (2 * buf 4),
    ) in
    (
      record c2 { buf_send = r.1; log = Event.written text ∷ c2.log },
      process_frame-Valid Cmd.set_device_attr env buf num c v
          ∙ rw (passes, e2)
              (rw (kept, er) (send-bytes r.0 text (record c2 { buf_send = r.1 }) answer small)),
      fit,
      stored,
      ap (λ l. Event.written text ∷ l) log2,
    )

-- When all classes fit their arrays, a GET_DEVICE_ATTR frame is answered by the four classes of sensors
-- in their order, each with its type, its count and its entries, and changes nothing of the
-- configuration.
pub get_device_attr_answered :
    (env : Env) (buf : Buf) (num : ℕ) (c : Client)
    → Valid Cmd.get_device_attr buf num
    → SensorsFit c.conf
    → (c' : Client) × (process_frame env buf num c ≡ some c')
      × (c'.conf ≡ c.conf)
      × (c'.log
          ≡ Event.written (0x55 ∷ 0xaa ∷ 0x02 ∷ 0x01 ∷ 4 ∷ (sensors_text c.conf ++ (0 ∷ [])))
            ∷ c.log)
unfolding handle on_get_device_attr check_for_get_device_attr
get_device_attr_answered env buf num c v f =
    let passes = check_frame-Valid Cmd.get_device_attr 5 buf num v refl in
    let (r, er, answer, small) = get_device_attr_answer c.conf c.buf_send f in
    let text = 0x55 ∷ 0xaa ∷ 0x02 ∷ 0x01 ∷ 4 ∷ (sensors_text c.conf ++ (0 ∷ [])) in
    let c1 = record c { sockfd_status = 1; buf_send = r.1 } in
    (
      record c1 { log = Event.written text ∷ c.log },
      process_frame-Valid Cmd.get_device_attr env buf num c v
          ∙ rw (passes, er) (send-bytes r.0 text c1 answer (omega arith)),
      refl,
      refl,
    )

-- When the alarm inputs fit their arrays, a GET_ALARM_STATUS frame is answered by the count of the alarm
-- inputs and, for each index j below it in order, the number that is configured at index j followed by
-- the sampled alarm of the j-th input of the device, whatever number stands at that index. It changes
-- nothing of the configuration.
pub get_alarm_status_answered :
    (env : Env) (buf : Buf) (num : ℕ) (c : Client)
    → Valid Cmd.get_alarm_status buf num
    → Fits c.conf.sensor_io_in
    → length c.alarm_in ≡ 8
    → (c' : Client) × (process_frame env buf num c ≡ some c')
      × (c'.conf ≡ c.conf)
      × (c'.log
          ≡ Event.written (
              0x55
              ∷ 0xaa
              ∷ 0x06
              ∷ 0x01
              ∷ c.conf.sensor_io_in.num
              ∷ (entries c.conf.sensor_io_in.seq_num c.alarm_in c.conf.sensor_io_in.num 0
                  ++ (0 ∷ [])))
            ∷ c.log)
unfolding handle on_get_alarm_status check_for_get_alarm_status
get_alarm_status_answered env buf num c v f a =
    let s = c.conf.sensor_io_in in
    let passes = check_frame-Valid Cmd.get_alarm_status 5 buf num v refl in
    let (r, er, answer, small) = get_alarm_status_answer c.conf c.alarm_in c.buf_send f a in
    let text =
      0x55 ∷ 0xaa ∷ 0x06 ∷ 0x01 ∷ s.num ∷ (entries s.seq_num c.alarm_in s.num 0 ++ (0 ∷ [])) in
    let c1 = record c { sockfd_status = 1; buf_send = r.1 } in
    (
      record c1 { log = Event.written text ∷ c.log },
      process_frame-Valid Cmd.get_alarm_status env buf num c v
          ∙ rw (passes, er) (send-bytes r.0 text c1 answer (omega arith)),
      refl,
      refl,
    )
