-- ===== src/Client/Uart.antt =====
-- Attributes of the serial ports: the handlers of nc600-2.0/src/client.c for GET_UART_QTY,
-- GET_UART_ATTR and SET_UART_ATTR. The scratch arrays `get_com_attr_max` and `set_com_attr_max` are
-- filled from the configuration at each call, so they are local here. An index outside an array is a
-- fault, `none`.
pub mod Values
pub mod Ports
pub mod Refusals
use itertk.Base.{
  ℕ, zero, suc, ◌+◌, ◌-◌, ◌*◌, ◌/◌, ◌%◌, Bool, true, false, Option, none, some, List, [], ◌∷◌, Buf,
  store, ltb, leb, ◌==◌, ◌&&◌, ◌||◌, if◌then◌else◌, u8, u32, dec32, get_elem?, set, set?, bit_and,
  ◌>>=◌,
}
use itertk.Conf.{ConfigSensor, ConfigCom, ConfiData, max_com_port}
use itertk.Client.{Client, config_save, com_set}
use itertk.Client.Frame.{make_ack_head, make_crc_num}

unfoldable pub make_ack_get_uart_qty : Buf → ℕ × Buf
unfolding make_ack_head make_crc_num
make_ack_get_uart_qty b =
    let b' = store (make_ack_head b 0x0c) 4 max_com_port in (6, store b' 5 (make_crc_num b' 5))

-- `value & (~0x80)`, computed on a 32-bit integer
unfoldable pub reset_msb : ℕ → ℕ
reset_msb value = bit_and value 0xffff_ff7f

unfoldable pub calc_high_byte : ℕ → ℕ
calc_high_byte x = x / 0x10000

unfoldable pub calc_mid_byte : ℕ → ℕ
calc_mid_byte x = x % 0x10000 / 0x100

unfoldable pub calc_low_byte : ℕ → ℕ
calc_low_byte x = x % 0x10000 % 0x100

unfoldable pub calc_baud_rate : ℕ → ℕ → ℕ → ℕ
calc_baud_rate a b c = a * 0x10000 + b * 0x100 + c

-- `return -1` from a function of type `u8` is 255.
unfoldable pub return_local_odd_even : ℕ → ℕ
return_local_odd_even remote_oddeven =
    if remote_oddeven == 0
    then 3
    else if remote_oddeven == 1
    then 2
    else if remote_oddeven == 2
    then 1
    else 255

unfoldable pub return_remote_odd_even : ℕ → ℕ
return_remote_odd_even local_oddeven =
    if local_oddeven == 3
    then 0
    else if local_oddeven == 2
    then 1
    else if local_oddeven == 1
    then 2
    else 255

-- the case labels of the switch on `bps`
unfoldable pub is_good_bps : ℕ → Bool
is_good_bps bps =
    bps == 300
    || (bps == 600
        || (bps == 1200
            || (bps == 2400
                || (bps == 4800
                    || (bps == 9600
                        || (bps == 19200
                            || (bps == 38400
                                || (bps == 57600
                                    || (bps == 115200
                                        || (bps == 230400
                                            || (bps == 460800
                                                || (bps == 576000 || bps == 921600))))))))))))

-- `SET_UART_ATTR_PASS` is true.
unfoldable pub is_good_uart : ConfigCom → Bool
is_good_uart pcom =
    if is_good_bps pcom.bps
    then (if leb 5 pcom.dbit && leb pcom.dbit 8
        then (if leb 1 pcom.chk && leb pcom.chk 3
            then leb 1 pcom.sbit && leb pcom.sbit 2
            else false)
        else false)
    else false

-- The eight bytes of one port at `ackbuf + 5 + i`.
unfoldable pub put_uart : ℕ → ℕ → ℕ → ConfigCom → Buf → Buf
put_uart i seq attr con_com b =
    let b1 = store b (5 + i) (reset_msb seq) in
    let b2 = store b1 (6 + i) attr in
    let b3 = store b2 (7 + i) (u8 (calc_high_byte con_com.bps)) in
    let b4 = store b3 (8 + i) (u8 (calc_mid_byte con_com.bps)) in
    let b5 = store b4 (9 + i) (u8 (calc_low_byte con_com.bps)) in
    let b6 = store b5 (10 + i) con_com.dbit in
    let b7 = store b6 (11 + i) (u8 con_com.sbit) in
    store b7 (12 + i) (return_remote_odd_even con_com.chk)

-- `com_index` is a `u8`: the sequence number 0 gives 255.
abbrev com_index : ℕ → ℕ
com_index seq = u8 (reset_msb seq + 255)

pub get_uarts : ℕ → ℕ → ℕ → ConfigSensor → List ConfigCom → Buf → Option Buf
get_uarts zero i j uart coms b = some b
get_uarts (suc k) i j uart coms b = get_elem? uart.seq_num j >>= λ seq.
    get_elem? uart.attr j >>= λ attr. get_elem? coms (com_index seq) >>= λ con_com.
    get_uarts k (i + 8) (j + 1) uart coms (put_uart i seq attr con_com b)

-- zeros in `ackbuf[5]` to `ackbuf[12]`
abbrev zero_uart : Buf → Buf
zero_uart b =
    store (store (store (store (store (store (store (store b 5 0) 6 0) 7 0) 8 0) 9 0) 10 0) 11 0) 12
      0

-- One port and two ports differ only in the number of rounds.
unfoldable pub make_ack_get_uart_attr : ConfiData → Buf → Buf → Option (ℕ × Buf)
unfolding make_ack_head make_crc_num get_uarts
make_ack_get_uart_attr conf cmdbuf b =
    let uart = conf.sensor_uart in
    let b' = store (make_ack_head b 0x0e) 4 (cmdbuf 4) in
    if uart.num == 1 || uart.num == 2
    then (get_uarts uart.num 0 0 uart conf.con_com b' >>= λ r.
        some (5 + 8 * uart.num + 1, store r (5 + 8 * uart.num) (make_crc_num r (5 + 8 * uart.num))))
    else some (14, store (zero_uart b') 13 (make_crc_num b' 13))

-- the entry `set_com_attr_max[j]` after the assignments of one round
unfoldable pub read_uart : ℕ → Buf → ConfigCom → ConfigCom
read_uart i cmdbuf con_com = record con_com {
  id = reset_msb (cmdbuf (5 + i));
  bps = calc_baud_rate (cmdbuf (7 + i)) (cmdbuf (8 + i)) (cmdbuf (9 + i));
  dbit = cmdbuf (10 + i);
  sbit = cmdbuf (11 + i);
  chk = return_local_odd_even (cmdbuf (12 + i));
}

-- What one round stores: the port, the class with its new entry, and the two bytes of the answer.
unfoldable pub store_uart : ℕ → ConfigCom → ConfigSensor → Client → Option Client
store_uart j con_com uart c = set? c.conf.con_com (dec32 con_com.id) con_com >>= λ coms.
    let conf = c.conf in
    com_set (config_save (record c { conf = record conf { con_com = coms; sensor_uart = uart } }))
      con_com
    >>= λ c'. get_elem? uart.seq_num j >>= λ seq.
        some (record c' { buf_send = store (store c'.buf_send (5 + 2 * j) seq) (6 + 2 * j) 1 })

-- The rounds left; the Boolean is false after `goto error`.
pub set_uarts : ℕ → ℕ → ℕ → Buf → List ConfigCom → ConfigSensor → Client → Option (Bool × Client)
set_uarts zero i j cmdbuf coms uart c = some (true, c)
set_uarts (suc k) i j cmdbuf coms uart c = get_elem? coms j >>= λ old.
    let con_com = read_uart i cmdbuf old in
    set? uart.seq_num j (cmdbuf (5 + i)) >>= λ seq. set? uart.attr j (cmdbuf (6 + i)) >>= λ attr.
    let uart' = record uart { seq_num = seq; attr = attr } in
    let rest = store_uart j con_com uart' c >>= λ c'.
    set_uarts k (u8 (i + 8)) (j + 1) cmdbuf (set coms j con_com) uart' c' in
    if ltb 2 con_com.id
    then some (false, c)
    else if is_good_uart con_com
    then rest
    else some (false, c)

abbrev uart_error : Buf → Buf → ℕ × Buf
uart_error cmdbuf b = (8, store (store (store (store b 4 (cmdbuf 4)) 5 0x00) 6 0) 7 0)

unfoldable pub make_ack_set_uart_attr : Buf → Client → Option (ℕ × Client)
unfolding make_ack_head set_uarts
make_ack_set_uart_attr cmdbuf c =
    let num = cmdbuf 4 in
    let uart = c.conf.sensor_uart in
    let head = make_ack_head c.buf_send 0x10 in
    let rest =
      set_uarts num 0 0 cmdbuf c.conf.con_com (record uart { num = num })
        (record c { buf_send = store head 4 num }) in
    if leb 1 num && leb num max_com_port
    then (rest >>= λ r.
        let c' = r.1 in
        some (
          if r.0
          then (5 + 2 * num + 1, record c' { buf_send = store c'.buf_send (5 + 2 * num) 0 })
          else (8, record c' { buf_send = (uart_error cmdbuf c'.buf_send).1 })))
    else some (8, record c { buf_send = (uart_error cmdbuf head).1 })
