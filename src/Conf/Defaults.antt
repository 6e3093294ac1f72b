-- ===== src/Conf/Defaults.antt =====
-- Default and recovery settings: `config_makedefault` and `reconfig` of nc600-2.0/src/config.c.
use itertk.Base.{ℕ, zero, suc, ◌+◌, List, [], ◌∷◌, ◌++◌, codes, replicate, set}
use itertk.System.Address.{sys_str2ip}
use itertk.Conf.{
  ConfigNet, ConfigCom, ConfigSession, ConfigMode, ConfigLimit, UsrInfo, ConfigServer, ConfigSensor,
  ConfiData, max_usr_num, max_session, max_com_port,
}

-- What the build and the C library supply: the stamp of date and time in `sw_ver`, and `crypt`.
pub record Build : Type 0 where
  pub stamp : List ℕ
  pub crypt : List ℕ → List ℕ → List ℕ

abbrev pub usr_normal : ℕ
usr_normal = 0

abbrev pub usr_root : ℕ
usr_root = 1

abbrev pub server_port_default : ℕ
server_port_default = 8888

abbrev pub product_name : List ℕ
product_name = codes "RTNS"

-- the eight writes `alarm_on_off[k] = 1`
unfoldable pub set_on_off : ℕ → List ℕ → List ℕ
set_on_off zero chars = chars
set_on_off (suc k) chars = set (set_on_off k chars) k 1

unfoldable pub default_net : List ℕ → ConfigNet
unfolding sys_str2ip
default_net mac = record {
  dev_ip = sys_str2ip (codes "192.168.1.166");
  dev_nm = sys_str2ip (codes "255.255.255.0");
  dev_gw = sys_str2ip (codes "192.168.1.1");
  dev_dhcp = 0;
  dhcp_id = 0;
  dns = sys_str2ip (codes "192.168.1.1") ∷ 0 ∷ [];
  dev_mac = mac;
}

unfoldable pub default_server : ConfigServer
unfolding sys_str2ip
default_server = record {
  server_ip = sys_str2ip [];
  server_port = server_port_default;
  dns_str = codes "192.168.1.108";
}

-- the configuration that `reconfig` saves before it reboots
unfoldable pub reconfig : ConfiData → ConfiData
unfolding default_net default_server set_on_off
reconfig conf = record conf {
  con_net = default_net conf.con_net.dev_mac;
  con_gpio = record { alarm = conf.con_gpio.alarm; chars = set_on_off 8 conf.con_gpio.chars };
  con_server = default_server;
}

abbrev default_com : ℕ → ConfigCom
default_com i = record {
  id = i + 1;
  bps = 9600;
  sbit = 1;
  dbit = 8;
  chk = 3;
  bctrl = 0;
  rts = 0;
  dtr = 0;
  all = 0;
  type = 0;
  isloop = 0;
  rsvd = replicate 4 0;
  alive = 0;
}

abbrev default_session : ConfigSession
default_session = record {
  protocol = 0;
  ip = 0;
  lport = 0;
  dport = 0;
  conn = 0;
  dis_conn = 0;
  time_out = 0;
  max_num = 0;
  rsvd = replicate 4 0;
}

-- `WORK_NO`, `TCP_RAW` and `TO_CR` are 0, `TO_LF` is 1.
abbrev default_mode : ℕ → ConfigMode
default_mode i = record {
  id = i + 1;
  mode = 0;
  tcp_mode = 0;
  cr = 0;
  lf = 1;
  is_null = 0;
  attestation = 0;
  att = 0;
  reg = 0;
  session = replicate max_session default_session;
}

abbrev default_limit : ℕ → ConfigLimit
default_limit i = record {
  id = i + 1;
  enable = 0;
  read = replicate max_usr_num 0;
  modify = replicate max_usr_num 0;
}

-- the users from index `i` on, none of them in use
unfoldable pub default_usrs : ℕ → ℕ → List UsrInfo
default_usrs i zero = []
default_usrs i (suc n) =
    record { usr_id = i + 1; usr_name = []; usr_passwd = []; usr_auth = usr_normal }
    ∷ default_usrs (i + 1) n

-- two bytes for each sensor in use, the rest of the eight left 0
abbrev sensor_of : ℕ → ℕ → List ℕ → List ℕ → ConfigSensor
sensor_of type num seq attr = record { type = type; num = num; seq_num = seq; attr = attr }

-- `alarm_on_off[0..7] = 1`, then `output[0..2] = 1`, over bytes that `bzero` cleared
abbrev default_chars : List ℕ
default_chars = set (set (set (set_on_off 8 (replicate 37 0)) 3 1) 4 1) 5 1

unfoldable pub config_makedefault : Build → ConfiData
unfolding default_net default_server set_on_off default_usrs
config_makedefault b = record {
  con_sys = record {
    host_name = product_name;
    host_pos = [];
    host_sn = codes "RTNS2D1I3S2K-XX****X";
    sw_ver = codes "v4.00  " ++ b.stamp;
    hw_ver = codes "v1.5";
    host_id = [];
    description = [];
  };
  con_net = default_net (0x88 ∷ 0x5c ∷ 0x47 ∷ 0x00 ∷ 0x00 ∷ 0x00 ∷ []);
  con_vlan = record { enable = 0; id = 0 };
  con_com = default_com 0 ∷ default_com 1 ∷ [];
  con_mode = default_mode 0 ∷ default_mode 1 ∷ [];
  con_lim = default_limit 0 ∷ default_limit 1 ∷ [];
  con_usr =
      record {
        usr_id = 1;
        usr_name = codes "root";
        usr_passwd = b.crypt (codes "123456") (codes "NC616");
        usr_auth = usr_root;
      }
      ∷ default_usrs 1 15;
  con_server = default_server;
  con_gpio = record { alarm = replicate 3 0; chars = default_chars };
  sensor_uart = sensor_of 0 max_com_port (1 ∷ 2 ∷ replicate 6 0) (0 ∷ 1 ∷ replicate 6 0);
  sensor_io_in = sensor_of 1 3 (1 ∷ 2 ∷ 3 ∷ replicate 5 0) (replicate 8 0);
  sensor_io_out = sensor_of 2 2 (1 ∷ 2 ∷ replicate 6 0) (replicate 8 0);
  sensor_single_bus = sensor_of 3 1 (1 ∷ replicate 7 0) (replicate 8 0);
}
