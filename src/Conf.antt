-- ===== src/Conf.antt =====
-- The configuration `g_conf_info`: nc600-2.0/inc/config.h and nc600-2.0/inc/user.h.
pub mod Defaults
pub mod Users
use itertk.Base.{ℕ, List, Buf}

-- Names of arrays' lengths and of the sensor classes.
abbrev pub max_com_port : ℕ
max_com_port = 2

abbrev pub max_usr_num : ℕ
max_usr_num = 16

abbrev pub max_session : ℕ
max_session = 6

abbrev pub single_sensor_max_num : ℕ
single_sensor_max_num = 8

abbrev pub sensor_type_num : ℕ
sensor_type_num = 4

-- `CONFIG_SYS`; a fixed `char` array is the string that it holds.
pub record ConfigSys : Type 0 where
  pub host_name : List ℕ
  pub host_pos : List ℕ
  pub host_sn : List ℕ
  pub sw_ver : List ℕ
  pub hw_ver : List ℕ
  pub host_id : List ℕ
  pub description : List ℕ

pub record ConfigNet : Type 0 where
  pub dev_ip : ℕ
  pub dev_nm : ℕ
  pub dev_gw : ℕ
  pub dev_dhcp : ℕ
  pub dhcp_id : ℕ
  pub dns : List ℕ
  pub dev_mac : List ℕ

pub record ConfigVlan : Type 0 where
  pub enable : ℕ
  pub id : ℕ

pub record ConfigCom : Type 0 where
  pub id : ℕ
  pub bps : ℕ
  pub sbit : ℕ
  pub dbit : ℕ
  pub chk : ℕ
  pub bctrl : ℕ
  pub rts : ℕ
  pub dtr : ℕ
  pub all : ℕ
  pub type : ℕ
  pub isloop : ℕ
  pub rsvd : List ℕ
  pub alive : ℕ

-- `rsvd` is the last four bytes: the three of that name, and one that pads the structure.
pub record ConfigSession : Type 0 where
  pub protocol : ℕ
  pub ip : ℕ
  pub lport : ℕ
  pub dport : ℕ
  pub conn : ℕ
  pub dis_conn : ℕ
  pub time_out : ℕ
  pub max_num : ℕ
  pub rsvd : List ℕ

pub record ConfigMode : Type 0 where
  pub id : ℕ
  pub mode : ℕ
  pub tcp_mode : ℕ
  pub cr : ℕ
  pub lf : ℕ
  pub is_null : ℕ
  pub attestation : ℕ
  pub att : ℕ
  pub reg : ℕ
  pub session : List ConfigSession

pub record ConfigLimit : Type 0 where
  pub id : ℕ
  pub enable : ℕ
  pub read : List ℕ
  pub modify : List ℕ

pub record UsrInfo : Type 0 where
  pub usr_id : ℕ
  pub usr_name : List ℕ
  pub usr_passwd : List ℕ
  pub usr_auth : ℕ

-- `alarm_on_off[3]`, `output[4]` and `sensor[30]` are adjacent `char` arrays: one run of 37 bytes,
-- so that a write past the end of the first lands where the compiled program puts it.
pub record ConfigGpio : Type 0 where
  pub alarm : List ℕ
  pub chars : List ℕ

pub record ConfigServer : Type 0 where
  pub server_ip : ℕ
  pub server_port : ℕ
  pub dns_str : List ℕ

-- `seq_num` and `attr` are arrays of `SINGLE_SENSOR_MAX_NUM` bytes.
pub record ConfigSensor : Type 0 where
  pub type : ℕ
  pub num : ℕ
  pub seq_num : List ℕ
  pub attr : List ℕ

-- `con_sensor[SENSOR_TYPE_NUM]` is only indexed by the four constants: a field for each.
pub record ConfiData : Type 0 where
  pub con_sys : ConfigSys
  pub con_net : ConfigNet
  pub con_vlan : ConfigVlan
  pub con_com : List ConfigCom
  pub con_mode : List ConfigMode
  pub con_lim : List ConfigLimit
  pub con_usr : List UsrInfo
  pub con_server : ConfigServer
  pub con_gpio : ConfigGpio
  pub sensor_uart : ConfigSensor
  pub sensor_io_in : ConfigSensor
  pub sensor_io_out : ConfigSensor
  pub sensor_single_bus : ConfigSensor

-- `con_server.server_ip` takes another address.
abbrev pub with_address : ConfiData → ℕ → ConfiData
with_address conf ip = record conf { con_server = record conf.con_server { server_ip = ip } }
