-- ===== src/Client/Sensors.antt =====
-- Attributes of the sensor classes and the alarm inputs: the handlers of nc600-2.0/src/client.c for
-- GET_DEVICE_ATTR, SET_DEVICE_ATTR and GET_ALARM_STATUS. The callers pass no null pointer. An access
-- outside the eight bytes of `seq_num`, of `attr` or of the alarm inputs is a fault, `none`.
pub mod Entries
pub mod Text
pub mod Answers
pub mod Alarms
pub mod Overload
use itertk.Base.{
  ℕ, zero, suc, ◌+◌, ◌-◌, ◌*◌, Bool, true, false, Option, none, some, List, [], ◌∷◌, Buf, store,
  copy, offset, ltb, ◌==◌, if◌then◌else◌, u8, get_elem?, set, set?, ◌>>=◌,
}
use itertk.Conf.{ConfigSensor, ConfiData, sensor_type_num, single_sensor_max_num}
use itertk.Client.{Client, config_save}
use itertk.Client.Frame.{make_ack_head, make_crc_num}

-- The rounds left of `for (i = 0, j = 0; j < pcs->num; i += 2, j++)`.
pub get_entries : ℕ → ℕ → ℕ → ConfigSensor → ℕ → Buf → Option Buf
get_entries zero i j pcs o b = some b
get_entries (suc k) i j pcs o b = get_elem? pcs.seq_num j >>= λ seq.
    get_elem? pcs.attr j >>= λ attr.
    get_entries k (u8 (i + 2)) (j + 1) pcs o (store (store b (o + 2 + i) seq) (o + 3 + i) attr)

-- The bytes of one class at `_buf + o`, and their number.
unfoldable pub get_one_sensor_buf : ConfigSensor → ℕ → Buf → Option (ℕ × Buf)
unfolding get_entries
get_one_sensor_buf pcs o b =
    let b' = store (store b o pcs.type) (o + 1) pcs.num in
    if pcs.num == 0
    then some (4, store (store b' (o + 2) 0) (o + 3) 0)
    else get_entries pcs.num 0 0 pcs o b' >>= λ b''. some (2 + 2 * pcs.num, b'')

unfoldable pub get_all_sensor_buf : ConfiData → ℕ → Buf → Option (ℕ × Buf)
get_all_sensor_buf conf o b = get_one_sensor_buf conf.sensor_uart o b >>= λ r1.
    get_one_sensor_buf conf.sensor_io_in (o + r1.0) r1.1 >>= λ r2.
    get_one_sensor_buf conf.sensor_io_out (o + (r1.0 + r2.0)) r2.1 >>= λ r3.
    get_one_sensor_buf conf.sensor_single_bus (o + (r1.0 + r2.0 + r3.0)) r3.1 >>= λ r4.
    some (r1.0 + r2.0 + r3.0 + r4.0, r4.1)

unfoldable pub make_ack_get_device_attr : ConfiData → Buf → Option (ℕ × Buf)
unfolding make_ack_head make_crc_num
make_ack_get_device_attr conf b =
    get_all_sensor_buf conf 5 (store (make_ack_head b 0x02) 4 sensor_type_num) >>= λ r.
    some (6 + r.0, store r.1 (5 + r.0) (make_crc_num r.1 (5 + r.0)))

pub set_entries : ℕ → ℕ → ℕ → Buf → ConfigSensor → Option ConfigSensor
set_entries zero i j b pcs = some pcs
set_entries (suc k) i j b pcs = set? pcs.seq_num j (b (1 + i)) >>= λ seq.
    set? pcs.attr j (b (2 + i)) >>= λ attr.
    set_entries k (u8 (i + 2)) (j + 1) b (record pcs { seq_num = seq; attr = attr })

-- The Boolean is false for the result -1. The number is stored before it is checked.
unfoldable pub set_one_sensor_buf : Buf → ConfigSensor → Option (Bool × ConfigSensor)
unfolding set_entries
set_one_sensor_buf b pcs =
    let p = record pcs { num = b 0 } in
    if b 0 == 0
    then some (true, record p { seq_num = set p.seq_num 0 0; attr = set p.attr 0 0 })
    else if ltb single_sensor_max_num (b 0)
    then some (false, p)
    else set_entries (b 0) 0 0 b p >>= λ p'. some (true, p')

-- The result of `set_one_sensor_buf` is not looked at: the copy is stored and saved either way.
unfoldable pub set_alarmin_device_attr : Buf → Client → Option Client
set_alarmin_device_attr cmdbuf c = set_one_sensor_buf (offset cmdbuf 4) c.conf.sensor_io_in >>= λ r.
    let conf = c.conf in some (config_save (record c { conf = record conf { sensor_io_in = r.1 } }))

-- `memcpy(_buf+4, tmp+1, cnt-1)` leaves the type byte out.
unfoldable pub make_ack_set_device_attr : ConfiData → Buf → Option (ℕ × Buf)
unfolding make_ack_head make_crc_num
make_ack_set_device_attr conf b = get_one_sensor_buf conf.sensor_io_in 0 (λ _. 0) >>= λ r.
    let cnt = u8 r.0 in
    let b' = copy (cnt - 1) (make_ack_head b 0x04) 4 r.1 1 in
    some (4 + cnt, store b' (4 + cnt - 1) (make_crc_num b' (4 + cnt - 1)))

pub alarm_entries : ℕ → ℕ → ℕ → ConfigSensor → List ℕ → Buf → Option (ℕ × Buf)
alarm_entries zero i j pcs alarm_in b = some (j, b)
alarm_entries (suc k) i j pcs alarm_in b = get_elem? pcs.seq_num j >>= λ seq.
    get_elem? alarm_in j >>= λ alarm.
    alarm_entries k (u8 (i + 2)) (j + 1) pcs alarm_in (store (store b (5 + i) seq) (6 + i) alarm)

unfoldable pub make_ack_get_alarm_status : ConfiData → List ℕ → Buf → Option (ℕ × Buf)
unfolding make_ack_head make_crc_num alarm_entries
make_ack_get_alarm_status conf alarm_in b =
    let pcs = conf.sensor_io_in in
    alarm_entries pcs.num 0 0 pcs alarm_in (store (make_ack_head b 0x06) 4 pcs.num) >>= λ r.
    some (5 + r.0 * 2 + 1, store r.1 (5 + r.0 * 2) (make_crc_num r.1 (5 + r.0 * 2)))
