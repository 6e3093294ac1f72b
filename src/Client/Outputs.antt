-- ===== src/Client/Outputs.antt =====
-- Digital outputs and the temperature sensor: the handlers of nc600-2.0/src/client.c for GET_IO_NUM,
-- SET_IO, GET_IO_STATUS, GET_TEMP_NUM, SET_TEMP and GET_TEMP_STATUS.
pub mod Stores
pub mod Driving
pub mod Levels
use itertk.Base.{
  ℕ, zero, suc, ◌+◌, ◌-◌, ◌*◌, ◌/◌, ◌%◌, Bool, true, false, ◌||◌, ◌&&◌, Option, none, some, List,
  [], ◌∷◌, Buf, store, ltb, leb, ◌==◌, if◌then◌else◌, u8, u16, get_elem?, set, set?, ◌>>=◌,
}
use itertk.Conf.{ConfigSensor, ConfiData}
use itertk.Client.{Client, Env, Event, config_save}
use itertk.Client.Frame.{make_ack_head, make_crc_num}

abbrev pub io_out_num : ℕ
io_out_num = 4

abbrev pub temp_num : ℕ
temp_num = 1

unfoldable pub make_ack_get_io_num : Buf → ℕ × Buf
unfolding make_ack_head make_crc_num
make_ack_get_io_num b =
    let b' = store (make_ack_head b 0x19) 4 io_out_num in (6, store b' 5 (make_crc_num b' 5))

-- the pin of output 1 to 4 (`OUTPUT_1` to `OUTPUT_4` of nc600-2.0/inc/gpio.h)
unfoldable pub output_pin : ℕ → Option ℕ
output_pin seq =
    if seq == 1
    then some 96
    else if seq == 2
    then some 42
    else if seq == 3
    then some 43
    else if seq == 4
    then some 44
    else none

-- `set_gpio` of a pin, whose result is not looked at
abbrev pub drive : Option ℕ → ℕ → Client → Client
drive none v c = c
drive (some pin) v c = record c { log = Event.gpio pin v ∷ c.log }

-- The rounds left: the entry is stored and the output is driven with the byte after it.
pub set_outputs : ℕ → ℕ → ℕ → Buf → ConfigSensor → Client → Option (ConfigSensor × Client)
set_outputs zero i j cmdbuf s c = some (s, c)
set_outputs (suc k) i j cmdbuf s c = set? s.seq_num j (cmdbuf (5 + i)) >>= λ seq.
    set? s.attr j (cmdbuf (6 + i)) >>= λ attr.
    set_outputs k (u8 (i + 3)) (j + 1) cmdbuf (record s { seq_num = seq; attr = attr })
      (drive (output_pin (cmdbuf (5 + i))) (cmdbuf (7 + i)) c)

-- `SENSOR_TYPE_IO_OUT` is 2. The guard asks for a count that is 0 and above 4 at once.
unfoldable pub set_io_out : Env → Buf → Client → Option Client
unfolding set_outputs output_pin
set_io_out env cmdbuf c =
    let local = env.uninit in
    let s = record local { type = 2; num = cmdbuf 4 } in
    let rest = set_outputs (cmdbuf 4) 0 0 cmdbuf s c in
    if cmdbuf 4 == 0 && ltb io_out_num (cmdbuf 4)
    then some c
    else rest >>= λ r.
        let c' = r.1 in
        let conf = c'.conf in
        some (config_save (record c' { conf = record conf { sensor_io_out = r.0 } }))

-- `get_gpio`: the character of the value file less 0x30, or the old value if it cannot be read
abbrev pub read_level : Option ℕ → ℕ → ℕ
read_level none gs = gs
read_level (some ch) gs = (ch + 208) % 256

-- the level that an entry of the answer shows, and the new value of the local `gs`
unfoldable pub level_of : Env → Option ℕ → ℕ → ℕ × ℕ
level_of env none gs = (0xff, gs)
level_of env (some pin) gs = let v = read_level (env.read_gpio pin) gs in (v, v)

pub get_levels : ℕ → ℕ → ℕ → Env → Buf → ℕ → Buf → Buf
unfolding level_of output_pin
get_levels zero i j env cmdbuf gs b = b
get_levels (suc k) i j env cmdbuf gs b =
    let seq = cmdbuf (5 + j) in
    let level = level_of env (output_pin seq) gs in
    get_levels k (u8 (i + 2)) (j + 1) env cmdbuf level.1
      (store (store b (5 + i) seq) (6 + i) level.0)

-- A count of 0, or above 4, returns without a value that the caller then uses: a fault.
unfoldable pub make_ack_get_io_status : Env → Buf → Buf → Option (ℕ × Buf)
unfolding make_ack_head make_crc_num get_levels
make_ack_get_io_status env cmdbuf b =
    let num = cmdbuf 4 in
    let r = get_levels num 0 0 env cmdbuf 0 (store (make_ack_head b 0x1c) 4 num) in
    if num == 0 || ltb io_out_num num
    then none
    else some (5 + 2 * num + 1, store r (5 + 2 * num) (make_crc_num r (5 + 2 * num)))

unfoldable pub make_ack_get_temp_num : Buf → ℕ × Buf
unfolding make_ack_head make_crc_num
make_ack_get_temp_num b =
    let b' = store (make_ack_head b 0x21) 4 temp_num in (6, store b' 5 (make_crc_num b' 5))

-- `SENSOR_TYPE_SINGLE_BUS` is 3. The guard never holds; the other entries keep what the local held.
unfoldable pub set_temp : Env → Buf → Client → Client
set_temp env cmdbuf c =
    let local = env.uninit in
    let s = record local {
      type = 3;
      num = cmdbuf 4;
      seq_num = set local.seq_num 0 (cmdbuf 5);
      attr = set local.attr 0 (cmdbuf 6);
    } in
    let conf = c.conf in
    if cmdbuf 4 == 0 && ltb temp_num (cmdbuf 4)
    then c
    else config_save (record c { conf = record conf { sensor_single_bus = s } })

-- Three digits of the sensor's text, as a `u16`: a character below `0` makes the sum wrap.
unfoldable pub three_digits : Buf → ℕ → ℕ → ℕ → ℕ
three_digits t i j k = u16 ((t i + 65488) * 100 + (t j + 65488) * 10 + (t k + 65488))

unfoldable pub make_ack_get_temp_status : Env → Buf → ℕ × Buf
unfolding make_ack_head make_crc_num three_digits
make_ack_get_temp_status env b =
    let hum = three_digits env.sensor 7 8 10 in
    let temp = three_digits env.sensor 0 1 3 in
    let b1 = store (store (make_ack_head b 0x24) 4 temp_num) 5 temp_num in
    let b2 = store (store b1 6 (hum / 0x100)) 7 (hum % 0x100) in
    let b3 = store (store b2 8 (temp / 0x100)) 9 (temp % 0x100) in
    (11, store b3 10 (make_crc_num b3 10))
