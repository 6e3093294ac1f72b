-- ===== src/Client/Dispatch.antt =====
-- `client_process` of nc600-2.0/src/client.c: one handler for each command, and one round of the loop.
pub mod Refused
pub mod Accepted
pub mod Rounds
use itertk.Base.{
  ℕ, zero, suc, ◌+◌, Bool, true, false, Option, none, some, List, [], ◌∷◌, Buf, store, ltb, ◌==◌,
  if◌then◌else◌, ◌>>=◌,
}
use itertk.Client.{Client, Env, Event, send}
use itertk.Client.Frame.{Cmd, Check, check_head, check_frame, make_ack_head, make_crc_num, decode}
use itertk.Client.Checks.{
  check_for_get_device_attr, check_for_set_device_attr, check_for_get_alarm_status,
  check_for_set_time, check_for_get_uart_qty, check_for_get_uart_attr, check_for_set_uart_attr,
  check_for_query_uart_recv_data, check_for_get_io_num, check_for_set_io, check_for_get_io_status,
  check_for_get_temp_num, check_for_get_temp_status,
}
use itertk.Client.Sensors.{
  make_ack_get_device_attr, set_alarmin_device_attr, make_ack_set_device_attr,
  make_ack_get_alarm_status,
}
use itertk.Client.Uart.{make_ack_get_uart_qty, make_ack_get_uart_attr, make_ack_set_uart_attr}
use itertk.Client.Serial.{
  check_for_query_uart_sendbuf, make_ack_query_uart_sendbuf, check_for_uart_send_data,
  make_ack_uart_send_data, check_for_set_uart_recv_attr, make_ack_query_uart_recv_data,
}
use itertk.Client.Outputs.{
  make_ack_get_io_num, set_io_out, make_ack_get_io_status, make_ack_get_temp_num, set_temp,
  make_ack_get_temp_status,
}
use itertk.Client.Link.{
  Attempt, set_heartbeat, check_for_set_heartbeat, make_ack_set_heartbeat, led_ctrl, led_server,
  heartbeat_online, reconnect_on, tick, keep_connected, is_open,
}

unfoldable pub make_ack_set_time : Buf → ℕ × Buf
unfolding make_ack_head make_crc_num
make_ack_set_time b = let b' = make_ack_head b 0x08 in (5, store b' 4 (make_crc_num b' 4))

-- The answer that stands in the buffer is sent.
abbrev pub reply : ℕ × Buf → Client → Option Client
reply r c = send r.0 (record c { buf_send = r.1 })

abbrev pub when : Check → Option Client → Client → Option Client
when Check.passed r c = r
when _ r c = some c

unfoldable pub on_get_device_attr : Buf → ℕ → Client → Option Client
on_get_device_attr buf num c =
    when (check_for_get_device_attr buf num)
      (make_ack_get_device_attr c.conf c.buf_send >>= λ r. reply r c) c

unfoldable pub on_set_device_attr : Buf → ℕ → Client → Option Client
on_set_device_attr buf num c =
    when (check_for_set_device_attr buf num)
      (set_alarmin_device_attr buf c >>= λ c'.
        make_ack_set_device_attr c'.conf c'.buf_send >>= λ r. reply r c')
      c

unfoldable pub on_get_alarm_status : Buf → ℕ → Client → Option Client
on_get_alarm_status buf num c =
    when (check_for_get_alarm_status buf num)
      (make_ack_get_alarm_status c.conf c.alarm_in c.buf_send >>= λ r. reply r c) c

unfoldable pub on_set_time : Buf → ℕ → Client → Option Client
on_set_time buf num c = when (check_for_set_time buf num) (reply (make_ack_set_time c.buf_send) c) c

unfoldable pub on_set_heartbeat : Buf → ℕ → Client → Option Client
on_set_heartbeat buf num c =
    let r = check_for_set_heartbeat buf num c in
    let c1 = r.1 in
    when r.0
      (reply (make_ack_set_heartbeat c1.heartbeat_s c1.buf_send) c1 >>= λ c2.
        some (led_ctrl led_server 0 (set_heartbeat heartbeat_online (buf 4) c2)))
      c1

unfoldable pub on_get_uart_qty : Buf → ℕ → Client → Option Client
on_get_uart_qty buf num c =
    when (check_for_get_uart_qty buf num) (reply (make_ack_get_uart_qty c.buf_send) c) c

unfoldable pub on_get_uart_attr : Buf → ℕ → Client → Option Client
on_get_uart_attr buf num c =
    when (check_for_get_uart_attr buf num)
      (make_ack_get_uart_attr c.conf buf c.buf_send >>= λ r. reply r c) c

unfoldable pub on_set_uart_attr : Buf → ℕ → Client → Option Client
on_set_uart_attr buf num c =
    when (check_for_set_uart_attr buf num) (make_ack_set_uart_attr buf c >>= λ r. send r.0 r.1) c

unfoldable pub on_query_uart_sendbuf : Buf → ℕ → Client → Option Client
on_query_uart_sendbuf buf num c =
    let r = check_for_query_uart_sendbuf buf num c in
    let c1 = r.1 in when r.0 (reply (make_ack_query_uart_sendbuf c1.com_id c1.buf_send) c1) c1

unfoldable pub on_uart_send_data : Env → Buf → ℕ → Client → Option Client
on_uart_send_data env buf num c =
    let r = check_for_uart_send_data buf num c in
    let c1 = r.1 in when r.0 (make_ack_uart_send_data env buf c1 >>= λ s. send s.0 s.1) c1

unfoldable pub on_set_uart_recv_attr : Buf → ℕ → Client → Option Client
on_set_uart_recv_attr buf num c = check_for_set_uart_recv_attr buf num c >>= λ r. some r.1

unfoldable pub on_query_uart_recv_data : Buf → ℕ → Client → Option Client
on_query_uart_recv_data buf num c =
    when (check_for_query_uart_recv_data buf num)
      (make_ack_query_uart_recv_data buf c >>= λ r. send r.0 r.1) c

unfoldable pub on_get_io_num : Buf → ℕ → Client → Option Client
on_get_io_num buf num c =
    when (check_for_get_io_num buf num) (reply (make_ack_get_io_num c.buf_send) c) c

unfoldable pub on_set_io : Env → Buf → ℕ → Client → Option Client
on_set_io env buf num c = when (check_for_set_io buf num) (set_io_out env buf c) c

unfoldable pub on_get_io_status : Env → Buf → ℕ → Client → Option Client
on_get_io_status env buf num c =
    when (check_for_get_io_status buf num)
      (make_ack_get_io_status env buf c.buf_send >>= λ r. reply r c) c

unfoldable pub on_get_temp_num : Buf → ℕ → Client → Option Client
on_get_temp_num buf num c =
    when (check_for_get_temp_num buf num) (reply (make_ack_get_temp_num c.buf_send) c) c

unfoldable pub on_get_temp_status : Env → Buf → ℕ → Client → Option Client
on_get_temp_status env buf num c =
    when (check_for_get_temp_status buf num) (reply (make_ack_get_temp_status env c.buf_send) c) c

-- The cases of the `switch`. GET_TIME does nothing, SET_TEMP is not checked.
unfoldable pub handle : Cmd → Env → Buf → ℕ → Client → Option Client
handle Cmd.get_device_attr env buf num c = on_get_device_attr buf num c
handle Cmd.set_device_attr env buf num c = on_set_device_attr buf num c
handle Cmd.get_alarm_status env buf num c = on_get_alarm_status buf num c
handle Cmd.get_time env buf num c = some c
handle Cmd.set_time env buf num c = on_set_time buf num c
handle Cmd.set_heartbeat env buf num c = on_set_heartbeat buf num c
handle Cmd.get_uart_qty env buf num c = on_get_uart_qty buf num c
handle Cmd.get_uart_attr env buf num c = on_get_uart_attr buf num c
handle Cmd.set_uart_attr env buf num c = on_set_uart_attr buf num c
handle Cmd.query_uart_sendbuf env buf num c = on_query_uart_sendbuf buf num c
handle Cmd.uart_send_data env buf num c = on_uart_send_data env buf num c
handle Cmd.set_uart_recv_attr env buf num c = on_set_uart_recv_attr buf num c
handle Cmd.query_uart_recv_data env buf num c = on_query_uart_recv_data buf num c
handle Cmd.get_io_num env buf num c = on_get_io_num buf num c
handle Cmd.set_io env buf num c = on_set_io env buf num c
handle Cmd.get_io_status env buf num c = on_get_io_status env buf num c
handle Cmd.get_temp_num env buf num c = on_get_temp_num buf num c
handle Cmd.set_temp env buf num c = some (set_temp env buf c)
handle Cmd.get_temp_status env buf num c = on_get_temp_status env buf num c

-- What `read` delivered: `num` bytes at the start of the buffer.
unfoldable pub process_frame : Env → Buf → ℕ → Client → Option Client
process_frame env buf num c =
    let c' = record c { sockfd_status = 1 } in
    if check_head buf
    then elim (decode (buf 2)) [ none ↦ some c' | some cmd ↦ handle cmd env buf num c' ]
    else some c

-- What a round reads: nothing (`select` or `read` gives 0 or less), or bytes.
pub data Input : Type 0 where
  silent : Input
  received : Buf → ℕ → Input

unfoldable pub process_input : Env → Input → Client → Option Client
process_input env Input.silent c = some c
process_input env (Input.received buf num) c =
    if num == 0 then some c else process_frame env buf num c

-- One round of the loop, given how the attempts to connect go and what is read.
unfoldable pub process_round : Env → List Attempt → Input → Client → Option Client
process_round env tries input c = keep_connected tries (tick c) >>= λ c'.
    if is_open c'.sockfd
    then process_input env input c'
    else some (record c' { reconnect_flag = reconnect_on })
