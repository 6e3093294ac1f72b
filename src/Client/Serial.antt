-- ===== src/Client/Serial.antt =====
-- Data of the serial ports: the handlers of nc600-2.0/src/client.c for QUERY_UART_SENDBUF,
-- UART_SEND_DATA, SET_UART_RECV_ATTR and QUERY_UART_RECV_DATA, and what the serial threads call for
-- received bytes. `SendNetDataToCom` is that of nc600-2.0/src/com.c.
pub mod Received
pub mod Sending
use itertk.Base.{
  ℕ, zero, suc, ◌+◌, ◌*◌, ◌/◌, ◌%◌, Bool, true, false, ◌||◌, ◌&&◌, Option, none, some, List, [],
  ◌∷◌, Buf, store, copy, bytes, ltb, leb, ◌==◌, if◌then◌else◌, u8, u16, u32, dec32, get_elem?, set,
  ◌>>=◌,
}
use itertk.System.Writen.{Sent, writen}
use itertk.Conf.{ConfigCom, ConfiData, max_com_port}
use itertk.Client.{Client, Env, Event, config_save, send, send_cap, uart_recv_buf_size}
use itertk.Client.Frame.{
  Cmd, Check, check_frame, check_protocol_head, check_for_crc, make_ack_head, make_crc_num,
}

-- `get_com_attr.id` is set before the checksum is looked at.
unfoldable pub check_for_query_uart_sendbuf : Buf → ℕ → Client → Check × Client
unfolding check_frame
check_for_query_uart_sendbuf b num c = elim (check_frame 6 Cmd.query_uart_sendbuf b num) [
  | Check.passed ↦ (Check.passed, record c { com_id = dec32 (b 4) })
  | other ↦ (other, c)
]

unfoldable pub make_ack_query_uart_sendbuf : ℕ → Buf → ℕ × Buf
unfolding make_ack_head make_crc_num
make_ack_query_uart_sendbuf com_id b =
    let b1 = store (make_ack_head b 0x12) 4 (u8 (com_id + 1)) in
    let b2 = store (store b1 5 0x08) 6 0x00 in (8, store b2 7 (make_crc_num b2 7))

unfoldable pub check_for_uart_send_data : Buf → ℕ → Client → Check × Client
unfolding check_frame
check_for_uart_send_data b num c = elim (check_frame 8 Cmd.uart_send_data b num) [
  | Check.passed ↦
      (Check.passed, record c { com_id = dec32 (b 4); send_cnt = u16 (b 5 * 0x100 + b 6) })
  | other ↦ (other, c)
]

-- `RS232` is 0, `RS485` is 1; any other type returns -1. The loop of `writen_rs485` is that of `writen`.
unfoldable pub send_net_data_to_com : Env → ℕ → List ℕ → Client → Option (Option ℕ × Client)
unfolding writen
send_net_data_to_com env id block c =
    if c.rs_type == 0 || c.rs_type == 1
    then (writen (env.com_write id) block [] >>= λ s.
        some (s.ret, record c { log = Event.to_com id s.taken ∷ c.log }))
    else some (none, c)

-- A negative result counts as 0 bytes. (The code compares with -1, the value that `write` returns.)
unfoldable pub uart_send_data : Env → Buf → Client → Option (ℕ × Client)
unfolding send_net_data_to_com
uart_send_data env buf c = send_net_data_to_com env c.com_id (bytes buf 7 c.send_cnt) c >>= λ r.
    some (elim (r.0) [ none ↦ 0 | some n ↦ n ], r.1)

-- The answer's bytes, with the number of bytes that the port took.
abbrev pub send_ack : ℕ → ℕ → Buf → Buf
send_ack com_id cnt b =
    store
      (store (store (store (make_ack_head b 0x14) 4 (u8 (com_id + 1))) 5 (cnt / 0x100)) 6
        (cnt % 0x100))
      7 0

unfoldable pub make_ack_uart_send_data : Env → Buf → Client → Option (ℕ × Client)
unfolding make_ack_head uart_send_data
make_ack_uart_send_data env buf c =
    if leb max_com_port c.com_id || (c.send_cnt == 0 || ltb 0x800 c.send_cnt)
    then some (8, record c { buf_send = send_ack c.com_id 0 c.buf_send })
    else uart_send_data env buf c >>= λ r.
        let c' = r.1 in some (8, record c' { buf_send = send_ack c'.com_id (u16 r.0) c'.buf_send })

-- `UART_RECV_POLL_MODE` is 0, `UART_RECV_INT_MODE` 1, and any other byte is the first.
abbrev recv_mode : ℕ → ℕ
recv_mode b = if b == 1 then 1 else 0

-- The print at the end reads `con_com[id]`; for an id above 1 that is an access outside the array.
unfoldable pub check_for_set_uart_recv_attr : Buf → ℕ → Client → Option (Check × Client)
unfolding check_frame
check_for_set_uart_recv_attr b num c = elim (check_frame 7 Cmd.set_uart_recv_attr b num) [
  | Check.passed ↦
      let conf = c.conf in
      get_elem? conf.con_com (dec32 (b 4)) >>= λ p.
      let p' = record p { rsvd = set p.rsvd 0 (recv_mode (b 5)) } in
      some (
        Check.passed,
        config_save
            (record c { conf = record conf { con_com = set conf.con_com (dec32 (b 4)) p' } }),
      )
  | other ↦ some (other, c)
]

-- the length bytes of an answer
abbrev counted : ℕ → Buf → Buf
counted n b = store (store b 5 (n / 0x100)) 6 (n % 0x100)

-- The frame of `n` data bytes, of which `m` were copied; both must fit the send buffer.
abbrev close_recv : ℕ → ℕ → Buf → Client → Option (ℕ × Client)
close_recv n m r c =
    if leb (n + 8) send_cap && leb (m + 7) send_cap
    then some (n + 7 + 1, record c { buf_send = store r (n + 7) 0 })
    else none

-- The bytes received from port 1, or from port 2: the copy for port 2 takes the length of port 1.
unfoldable pub make_ack_query_uart_recv_data : Buf → Client → Option (ℕ × Client)
unfolding make_ack_head make_crc_num
make_ack_query_uart_recv_data buf c =
    let id = dec32 (buf 4) in
    let b = store (make_ack_head c.buf_send 0x17) 4 (u8 (id + 1)) in
    if id == 0
    then close_recv c.uart1_cnt c.uart1_cnt
        (copy c.uart1_cnt (counted c.uart1_cnt b) 7 c.uart1_recv_buf 0) c
    else if id == 1
    then close_recv c.uart2_cnt c.uart1_cnt
        (copy c.uart1_cnt (counted c.uart2_cnt b) 7 c.uart2_recv_buf 0) c
    else close_recv 0 0 (counted 0 b) c

-- The `memcpy` of received bytes to offset `start`, under the test of the new count; none where it would
-- leave the array, which happens when the count has wrapped.
abbrev received_at : Buf → ℕ → Buf → ℕ → ℕ → Option Buf
received_at recv start block len cnt =
    if ltb cnt uart_recv_buf_size
    then (if leb (start + len) uart_recv_buf_size then some (copy len recv start block 0) else none)
    else some recv

-- What the thread of port `id` does with `len` received bytes at `data`. The count wraps at 2 ^ 16 and
-- grows also when the bytes do not fit. `cnt2` stays 0, so port 2 is always filled from its start.
unfoldable pub send_com_data_to_net_poll_mode : ℕ → Buf → ℕ → Client → Option Client
send_com_data_to_net_poll_mode id block len c =
    if id == 0
    then (let cnt = u16 (c.uart1_cnt + len) in
        received_at c.uart1_recv_buf c.uart1_cnt block len cnt >>= λ b.
        some (record c { uart1_cnt = cnt; uart1_recv_buf = b }))
    else if id == 1
    then (let cnt = u16 (c.uart2_cnt + len) in
        received_at c.uart2_recv_buf 0 block len cnt >>= λ b.
        some (record c { uart2_cnt = cnt; uart2_recv_buf = b }))
    else some c

-- The answer is built from whatever command stands in the global receive buffer.
unfoldable pub send_com_data_to_net_int_mode : ℕ → Buf → ℕ → Buf → Client → Option Client
unfolding send_com_data_to_net_poll_mode make_ack_query_uart_recv_data send
send_com_data_to_net_int_mode id block len buf c =
    send_com_data_to_net_poll_mode id block len c >>= λ c'.
    make_ack_query_uart_recv_data buf c' >>= λ r. send r.0 r.1
