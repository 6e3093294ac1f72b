-- ===== src/Client/Frame.antt =====
-- The frames of the alarm protocol: identifiers of nc600-2.0/inc/client.h, and the checks and heads of
-- nc600-2.0/src/client.c.
use itertk.Base.{
  ℕ, ◌+◌, ◌≡◌, refl, arith, Bool, true, ◌&&◌, Option, none, some, Buf, store, ltb, ◌==◌,
  if◌then◌else◌, u8,
}

-- The commands that the server sends.
pub data Cmd : Type 0 where
  get_device_attr set_device_attr get_alarm_status get_time set_time set_heartbeat : Cmd
  get_uart_qty get_uart_attr set_uart_attr query_uart_sendbuf uart_send_data : Cmd
  set_uart_recv_attr query_uart_recv_data get_io_num set_io get_io_status : Cmd
  get_temp_num set_temp get_temp_status : Cmd

-- `enum protocol`: the identifier of a command
abbrev pub id_of : Cmd → ℕ
id_of Cmd.get_device_attr = 0x01
id_of Cmd.set_device_attr = 0x03
id_of Cmd.get_alarm_status = 0x05
id_of Cmd.get_time = 0x07
id_of Cmd.set_time = 0x08
id_of Cmd.set_heartbeat = 0x09
id_of Cmd.get_uart_qty = 0x0b
id_of Cmd.get_uart_attr = 0x0d
id_of Cmd.set_uart_attr = 0x0f
id_of Cmd.query_uart_sendbuf = 0x11
id_of Cmd.uart_send_data = 0x13
id_of Cmd.set_uart_recv_attr = 0x15
id_of Cmd.query_uart_recv_data = 0x16
id_of Cmd.get_io_num = 0x18
id_of Cmd.set_io = 0x1a
id_of Cmd.get_io_status = 0x1b
id_of Cmd.get_temp_num = 0x20
id_of Cmd.set_temp = 0x22
id_of Cmd.get_temp_status = 0x23

-- The identifier that an answer carries. SET_TIME is answered under its own one; GET_TIME,
-- SET_UART_RECV_ATTR, SET_IO and SET_TEMP have no answer.
abbrev pub ack_of : Cmd → ℕ
ack_of Cmd.set_time = 0x08
ack_of c = id_of c + 1

abbrev pub head_1 : ℕ
head_1 = 0x55

abbrev pub head_2 : ℕ
head_2 = 0xaa

abbrev pub alarm_device_id : ℕ
alarm_device_id = 0x01

-- The result of a check: 0 or one of the three error codes.
pub data Check : Type 0 where
  passed num_is_not_enough head_or_device_id crc_check : Check

unfoldable pub check_head : Buf → Bool
check_head b = b 0 == head_1 && b 1 == head_2

unfoldable pub check_protocol_head : Buf → ℕ → Bool
check_protocol_head b protocol_id =
    b 0 == head_1 && (b 1 == head_2 && (b 2 == protocol_id && b 3 == alarm_device_id))

unfoldable pub make_ack_head : Buf → ℕ → Buf
make_ack_head b protocol_id =
    store (store (store (store b 0 head_1) 1 head_2) 2 protocol_id) 3 alarm_device_id

-- The checksum is not computed: always 0, and every checksum is accepted.
unfoldable pub make_crc_num : Buf → ℕ → ℕ
make_crc_num b num = 0

unfoldable pub check_for_crc : Buf → ℕ → Bool
check_for_crc b num = true

-- The body that the `check_for_…` functions share. The number of bytes read is passed as a `u8`.
unfoldable pub check_frame : ℕ → Cmd → Buf → ℕ → Check
unfolding check_protocol_head check_for_crc
check_frame need cmd b num =
    if ltb (u8 num) need
    then Check.num_is_not_enough
    else if check_protocol_head b (id_of cmd)
    then (if check_for_crc b num then Check.passed else Check.crc_check)
    else Check.head_or_device_id

-- the label of the `switch` on `buf[2]` that a byte takes, none for `default`
unfoldable pub decode : ℕ → Option Cmd
decode b =
    if b == 0x01
    then some Cmd.get_device_attr
    else if b == 0x03
    then some Cmd.set_device_attr
    else if b == 0x05
    then some Cmd.get_alarm_status
    else if b == 0x07
    then some Cmd.get_time
    else if b == 0x08
    then some Cmd.set_time
    else if b == 0x09
    then some Cmd.set_heartbeat
    else if b == 0x0b
    then some Cmd.get_uart_qty
    else if b == 0x0d
    then some Cmd.get_uart_attr
    else if b == 0x0f
    then some Cmd.set_uart_attr
    else if b == 0x11
    then some Cmd.query_uart_sendbuf
    else if b == 0x13
    then some Cmd.uart_send_data
    else if b == 0x15
    then some Cmd.set_uart_recv_attr
    else if b == 0x16
    then some Cmd.query_uart_recv_data
    else if b == 0x18
    then some Cmd.get_io_num
    else if b == 0x1a
    then some Cmd.set_io
    else if b == 0x1b
    then some Cmd.get_io_status
    else if b == 0x20
    then some Cmd.get_temp_num
    else if b == 0x22
    then some Cmd.set_temp
    else if b == 0x23
    then some Cmd.get_temp_status
    else none

-- Each command is decoded from its own identifier.
pub decode-id_of : (c : Cmd) → decode (id_of c) ≡ some c
unfolding decode
decode-id_of Cmd.get_device_attr = refl
decode-id_of _ = refl

-- A byte is decoded to a command only if it is the command's identifier.
pub id_of-decode : (b : ℕ) (c : Cmd) → decode b ≡ some c → id_of c ≡ b
unfolding decode
id_of-decode b c h = ground arith
