-- ===== src/Tests.antt =====
-- Concrete inputs, and each theorem at one of them.
pub mod Rounds
pub mod Frames
pub mod Ports
pub mod Pins
pub mod Accounts
pub mod Names
pub mod Wires
pub mod Packets
pub mod Sessions
pub mod Tools
pub mod Pages
use itertk.Base.{ℕ, List, [], ◌∷◌, ◌++◌, Option, none, some, Buf, get_or, replicate}
use itertk.Conf.{ConfiData, ConfigSensor}
use itertk.Conf.Defaults.{Build, config_makedefault}
use itertk.Client.{Client, Env, Event}

-- the bytes of a frame at the start of a buffer of zeros
abbrev pub frame : List ℕ → Buf
frame l k = get_or l k 0

abbrev pub demo_build : Build
demo_build = record { stamp = []; crypt = λ psw salt. salt ++ psw }

abbrev pub demo_conf : ConfiData
demo_conf = config_makedefault demo_build

abbrev pub demo_sensor : ConfigSensor
demo_sensor = record { type = 0; num = 0; seq_num = replicate 8 7; attr = replicate 8 9 }

-- All pins are high, the sensor reads 25.4 and 61.3, and the ports take a byte at each call.
abbrev pub demo_env : Env
demo_env = record {
  read_gpio = λ pin. some 49;
  sensor = frame (50 ∷ 53 ∷ 46 ∷ 52 ∷ 67 ∷ 32 ∷ 32 ∷ 54 ∷ 49 ∷ 46 ∷ 51 ∷ []);
  com_write = λ id. some 1 ∷ some 1 ∷ some 1 ∷ [];
  uninit = demo_sensor;
}

-- connected, 3 s into a period of 5 s
abbrev pub demo : Client
demo = record {
  conf = demo_conf;
  buf_send = λ k. 0;
  com_id = 0;
  send_cnt = 0;
  heartbeat_s = 5;
  heartbeat_timeout = 3;
  reconnect_flag = 0;
  sockfd = some 9;
  sockfd_status = 1;
  uart1_recv_buf = frame (65 ∷ 66 ∷ []);
  uart1_cnt = 2;
  uart2_recv_buf = frame (67 ∷ 68 ∷ 69 ∷ []);
  uart2_cnt = 3;
  alarm_in = replicate 8 0;
  gcomfd = 4 ∷ 5 ∷ [];
  rs_type = 0;
  log = [];
}
