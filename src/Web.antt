-- ===== src/Web.antt =====
-- The command server for the web pages: the state that the commands of nc600-2.0/src/web_net.c work
-- on, and what the outside supplies.
pub mod Query
pub mod Set
pub mod Command
pub mod Table
pub mod Receiving
pub mod Store
pub mod Rights
pub mod Effects
use itertk.Base.{
  ℕ, Bool, true, false, Option, none, some, List, [], ◌++◌, Buf, ltb, ◌==◌, ◌&&◌, if◌then◌else◌,
  get_elem?, get_or, drop, ◌∷◌,
}
use itertk.Conf.{ConfiData, ConfigLimit, ConfigServer, ConfigNet, max_usr_num}
use itertk.Conf.Users.{CmdCode, get_usr_id, code_number}
use itertk.Client.{Client, config_save}
use itertk.Wire.{NetConn, Step, Action, ◌>>=◌}
use itertk.Wire.Packet.{Itsip, ItsCmd, its_ack, Abi, c_string, itsip_pack}
use itertk.Wire.Receive.{Received, web_conn_recv}
use itertk.Wire.Send.{net_conn_send}

-- The globals that the server shares with the alarm client, the connection that a command came
-- over, and the settings that `config_net_set` was called with, newest first.
pub record Web : Type 0 where
  pub client : Client
  pub conn : NetConn
  pub net_set : List ConfigNet

-- What the build and the outside supply while one command is handled: the layout of the objects, the
-- bytes behind an object that is sent, the program's version, the text of the sensor (none if it
-- cannot be read), and what local variables without initialiser hold.
pub record Board : Type 0 where
  pub abi : Abi
  pub memory : Buf
  pub program_version : List ℕ
  pub sensor : Option (List ℕ)
  pub uninit_head : Itsip
  pub uninit_chars : List ℕ
  pub uninit_server : ConfigServer
  pub uninit_extdat : List ℕ

abbrev pub set_conf : ConfiData → Client → Client
set_conf conf c = record c { conf = conf }

-- A transfer over the command's connection.
abbrev pub lift_conn : {A : Type 0} → Step (A × NetConn) → Web → Step (A × Web)
lift_conn (Step.done r) w = Step.done (r.0, record w { conn = r.1 })
lift_conn Step.pending w = Step.pending
lift_conn Step.fault w = Step.fault

abbrev pub on_conn : {A : Type 0} → Action NetConn A → Action Web A
on_conn m w = lift_conn (m w.conn) w

abbrev pub change_conf : (ConfiData → ConfiData) → Web → Web
change_conf f w = let c = w.client in record w { client = record c { conf = f c.conf } }

abbrev pub save_conf : Web → Web
save_conf w = record w { client = config_save w.client }

-- The user whom the head names: the field runs on into `itsip_data`.
abbrev pub user_of : Itsip → List ℕ
user_of head = c_string (head.itsip_user ++ head.itsip_data)

abbrev pub data_at : Itsip → ℕ → ℕ
data_at head i = get_or head.itsip_data i 0

abbrev pub enabled : ℕ
enabled = 1

abbrev pub disabled : ℕ
disabled = 0

abbrev id_allowed : List ℕ → ℕ → Bool
id_allowed rights id = ltb id max_usr_num && (get_or rights id 0 == enabled)

-- The test of `con_lim[itsip_data[1]]` against one of its arrays of rights, as it stands in
-- `sys_conf_query` and `sys_conf_set`.
unfoldable pub allowed : ConfigLimit → List ℕ → ConfiData → List ℕ → Bool
allowed limit rights conf user =
    if limit.enable == disabled
    then true
    else if limit.enable == enabled
    then id_allowed rights (get_usr_id conf.con_usr user)
    else false

-- A head with a result in its first data byte.
unfoldable pub result_head : ItsCmd → ℕ → ℕ → Itsip → Itsip
unfolding itsip_pack its_ack
result_head cmd extlen result uninit =
    let pak = itsip_pack (its_ack cmd) extlen uninit in
    record pak { itsip_data = result ∷ drop 1 pak.itsip_data }

-- The answer of a head only, with a result.
unfoldable pub send_result : Board → ItsCmd → ℕ → Action Web Bool
unfolding result_head net_conn_send
send_result b cmd result =
    on_conn (net_conn_send (b.abi.head.store (result_head cmd 0 result b.uninit_head)) [] b.memory)

-- The answer of a head and an object.
unfoldable pub send_object : Board → Itsip → List ℕ → Action Web Bool
unfolding net_conn_send
send_object b head own = on_conn (net_conn_send (b.abi.head.store head) own b.memory)
