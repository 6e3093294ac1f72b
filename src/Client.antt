-- ===== src/Client.antt =====
-- The state of the alarm client, the globals of nc600-2.0/src/client.c and nc600-2.0/src/com.c that
-- it uses, and what it exchanges with the outside.
pub mod Frame
pub mod Checks
pub mod Sensors
pub mod Uart
pub mod Serial
pub mod Outputs
pub mod Link
pub mod Dispatch
pub mod Dns
use itertk.Base.{
  ℕ, ◌+◌, Bool, true, false, Option, none, some, List, [], ◌∷◌, Buf, ltb, leb, if◌then◌else◌,
  get_elem?, dec32, bytes, ◌>>=◌,
}
use itertk.Conf.{ConfiData, ConfigCom, ConfigSensor}

-- A call that leaves the program, newest first in a log: bytes written to the server's socket, a
-- configuration saved, a serial port set up, a pin driven, bytes taken by a serial port.
pub data Event : Type 0 where
  written : List ℕ → Event
  saved : ConfiData → Event
  port_set : ConfigCom → Event
  gpio : ℕ → ℕ → Event
  to_com : ℕ → List ℕ → Event

-- `buf_send[1024]`
abbrev pub send_cap : ℕ
send_cap = 1024

-- `UART_RECV_BUF_SIZE`
abbrev pub uart_recv_buf_size : ℕ
uart_recv_buf_size = 2048

pub record Client : Type 0 where
  pub conf : ConfiData
  pub buf_send : Buf
  pub com_id : ℕ  -- get_com_attr.id
  pub send_cnt : ℕ  -- g_uart_send_cnt
  pub heartbeat_s : ℕ
  pub heartbeat_timeout : ℕ
  pub reconnect_flag : ℕ
  pub sockfd : Option ℕ  -- g_sockfd_client, none for -1
  pub sockfd_status : ℕ
  pub uart1_recv_buf : Buf
  pub uart1_cnt : ℕ
  pub uart2_recv_buf : Buf
  pub uart2_cnt : ℕ
  pub alarm_in : List ℕ  -- g_alarm_in
  pub gcomfd : List ℕ  -- 0 for a port that is not open
  pub rs_type : ℕ
  pub log : List Event

-- What the outside answers while one command is handled: the character that a pin's file gives (none
-- if it cannot be read), the text of the sensor, the results of the successive writes to a serial
-- port, and what a local variable without initialiser holds.
pub record Env : Type 0 where
  pub read_gpio : ℕ → Option ℕ
  pub sensor : Buf
  pub com_write : ℕ → List (Option ℕ)
  pub uninit : ConfigSensor

-- `config_save(&g_conf_info)`, the configuration as it is now
abbrev pub config_save : Client → Client
config_save c = record c { log = Event.saved c.conf ∷ c.log }

-- `com_set` with `com_para_set`: the descriptor of port `id - 1`, then the line's settings.
unfoldable pub com_set : Client → ConfigCom → Option Client
com_set c con_com = get_elem? c.gcomfd (dec32 con_com.id) >>= λ fd. some (
    if ltb 0 fd
    then record c { rs_type = con_com.type; log = Event.port_set con_com ∷ c.log }
    else c)

-- `write(g_sockfd_client, buf_send, num_to_send)`, whose result the callers only print. The fault is
-- a frame longer than the buffer.
unfoldable pub send : ℕ → Client → Option Client
send n c =
    if leb n send_cap
    then some (record c { log = Event.written (bytes c.buf_send 0 n) ∷ c.log })
    else none
