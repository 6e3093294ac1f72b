-- ===== src/Web/Set.antt =====
-- The commands that change the configuration: the `sys_..._set` functions of nc600-2.0/src/web_net.c.
use itertk.Base.{
  ℕ, ◌+◌, none, some, List, [], ◌∷◌, ◌++◌, ◌==◌, if◌then◌else◌, get_elem?, get_or, set, drop,
  length, ltb,
}
use itertk.Conf.{
  ConfiData, ConfigSys, ConfigNet, ConfigVlan, ConfigCom, ConfigMode, ConfigLimit, ConfigGpio,
  ConfigServer,
}
use itertk.Conf.Users.{
  CmdCode, Users, UserSet, Extdat, get_usr_info, get_usr_id, set_usr_name, set_usr_psw, sys_usr_set,
  is_free,
}
use itertk.Conf.Defaults.{usr_root, reconfig}
use itertk.Client.{Client, com_set}
use itertk.Client.Outputs.{drive, output_pin}
use itertk.Wire.{Step, Action, ◌>>=◌, pure, or_fault}
use itertk.Wire.Packet.{Itsip, Layout}
use itertk.Wire.Receive.{web_conn_recv}
use itertk.Web.{Web, Board, on_conn, change_conf, save_conf, user_of, data_at, allowed}

-- An object is received into a local; without all of it the command ends with the code `failed`.
unfoldable pub receive_object :
    {A : Type 0} → Layout A → CmdCode → (A → Action Web CmdCode) → Action Web CmdCode
unfolding web_conn_recv
receive_object layout failed k =
    on_conn (web_conn_recv layout.size) >>= λ r. if r.ok then k (layout.load r.got) else pure failed

unfoldable pub store_sys : ConfigSys → ConfiData → ConfiData
store_sys v conf = record conf { con_sys = v }

unfoldable pub store_net : ConfigNet → ConfiData → ConfiData
store_net v conf = record conf { con_net = v }

unfoldable pub store_vlan : ConfigVlan → ConfiData → ConfiData
store_vlan v conf = record conf { con_vlan = v }

unfoldable pub store_server : ConfigServer → ConfiData → ConfiData
store_server v conf = record conf { con_server = v }

unfoldable pub store_gpio : ConfigGpio → ConfiData → ConfiData
store_gpio v conf = record conf { con_gpio = v }

abbrev pub net_reset : Web → Web
net_reset w = record w { net_set = w.client.conf.con_net ∷ w.net_set }

unfoldable pub sys_sysinfo_set : Board → Action Web CmdCode
unfolding receive_object store_sys
sys_sysinfo_set b =
    receive_object b.abi.sys CmdCode.sys_set_failed
      λ v w. Step.done (CmdCode.sys_set_ok, save_conf (change_conf (store_sys v) w))

unfoldable pub sys_server_set : Board → Action Web CmdCode
unfolding receive_object store_server
sys_server_set b =
    receive_object b.abi.server CmdCode.server_set_failed
      λ v w. Step.done (CmdCode.server_set_ok, save_conf (change_conf (store_server v) w))

unfoldable pub sys_netinfo_set : Board → Action Web CmdCode
unfolding receive_object store_net
sys_netinfo_set b =
    receive_object b.abi.net CmdCode.net_set_failed
      λ v w. Step.done (CmdCode.net_set_ok, net_reset (save_conf (change_conf (store_net v) w)))

unfoldable pub sys_vlan_set : Board → Action Web CmdCode
unfolding receive_object store_vlan
sys_vlan_set b =
    receive_object b.abi.vlan CmdCode.vlan_set_failed
      λ v w. Step.done (CmdCode.vlan_set_ok, save_conf (change_conf (store_vlan v) w))

-- `set_gpio` of the four outputs with the four characters of `output`
unfoldable pub drive_outputs : ℕ → List ℕ → Client → Client
unfolding output_pin
drive_outputs seq [] c = c
drive_outputs seq (v ∷ vs) c = drive_outputs (seq + 1) vs (drive (output_pin seq) v c)

unfoldable pub output_of : ConfigGpio → List ℕ
output_of g = get_or g.chars 3 0 ∷ get_or g.chars 4 0 ∷ get_or g.chars 5 0 ∷ get_or g.chars 6 0 ∷ []

-- A failure answers the code of the network settings.
unfoldable pub sys_gpio_set : Board → Action Web CmdCode
unfolding receive_object store_gpio drive_outputs output_of
sys_gpio_set b = receive_object b.abi.gpio CmdCode.net_set_failed λ v w.
    let stored = change_conf (store_gpio v) w in
    let driven = record stored { client = drive_outputs 1 (output_of v) stored.client } in
    Step.done (CmdCode.gpio_set_ok, save_conf driven)

-- `reconfig` saves, then asks for a reboot and returns.
unfoldable pub sys_factory_set : Action Web CmdCode
unfolding reconfig
sys_factory_set w =
    Step.done (CmdCode.factory_set_ok, net_reset (save_conf (change_conf reconfig w)))

-- `all` of one takes six settings over to every port.
unfoldable pub copy_line : ConfigCom → List ConfigCom → List ConfigCom
copy_line v [] = []
copy_line v (p ∷ ps) =
    record p {
      bps = v.bps;
      dbit = v.dbit;
      chk = v.chk;
      sbit = v.sbit;
      type = v.type;
      isloop = v.isloop;
    }
    ∷ copy_line v ps

unfoldable pub store_com : ℕ → ConfigCom → List ConfigCom → List ConfigCom
unfolding copy_line
store_com i v ports = if v.all == 1 then copy_line v ports else set ports i v

-- The limit's entry is read first: an index behind the arrays is a fault.
unfoldable pub put_com : Itsip → ConfigCom → Action Web CmdCode
unfolding allowed store_com com_set
put_com head v w =
    let i = data_at head 1 in
    let conf = w.client.conf in
    let w' =
      save_conf (change_conf (λ conf. record conf { con_com = store_com i v conf.con_com }) w) in
    (or_fault (get_elem? conf.con_lim i) >>= λ limit.
    if allowed limit limit.modify conf (user_of head)
    then (or_fault (get_elem? w'.client.conf.con_com i) >>= λ port.
        or_fault (com_set w'.client port) >>= λ c.
        λ _. Step.done (CmdCode.com_set_ok, record w' { client = c }))
    else pure CmdCode.com_set_ok)
      w

unfoldable pub conf_com_set : Board → Itsip → Action Web CmdCode
unfolding receive_object put_com
conf_com_set b head = receive_object b.abi.port CmdCode.recv_failed (put_com head)

unfoldable pub put_mode : Itsip → ConfigMode → Action Web CmdCode
unfolding allowed
put_mode head v w =
    let i = data_at head 1 in
    let conf = w.client.conf in
    (or_fault (get_elem? conf.con_lim i) >>= λ limit.
    if allowed limit limit.modify conf (user_of head)
    then (or_fault (get_elem? conf.con_mode i) >>= λ _ w. Step.done (
      CmdCode.mode_set_ok,
      save_conf (change_conf (λ conf. record conf { con_mode = set conf.con_mode i v }) w),
    ))
    else pure CmdCode.mode_set_failed)
      w

unfoldable pub conf_mode_set : Board → Itsip → Action Web CmdCode
unfolding receive_object put_mode
conf_mode_set b head = receive_object b.abi.mode CmdCode.recv_failed (put_mode head)

-- The index of an unknown user is behind the table.
unfoldable pub put_limit : Itsip → ConfigLimit → Action Web CmdCode
put_limit head v w =
    let i = data_at head 1 in
    let conf = w.client.conf in
    (or_fault (get_elem? conf.con_usr (get_usr_id conf.con_usr (user_of head))) >>= λ usr.
    if usr.usr_auth == usr_root
    then (or_fault (get_elem? conf.con_lim i) >>= λ _ w. Step.done (
      CmdCode.limit_set_ok,
      save_conf (change_conf (λ conf. record conf { con_lim = set conf.con_lim i v }) w),
    ))
    else pure CmdCode.limit_set_failed)
      w

unfoldable pub conf_limit_set : Board → Itsip → Action Web CmdCode
unfolding receive_object put_limit
conf_limit_set b head = receive_object b.abi.limit CmdCode.recv_failed (put_limit head)

unfoldable pub sys_conf_set : Board → Itsip → Action Web CmdCode
unfolding conf_com_set conf_mode_set conf_limit_set
sys_conf_set b head =
    if data_at head 0 == 0
    then conf_com_set b head
    else if data_at head 0 == 1
    then conf_mode_set b head
    else if data_at head 0 == 2
    then conf_limit_set b head
    else pure CmdCode.com_set_failed

-- What a function over the user table leaves: the table, saved where it has changed it.
unfoldable pub keep_users : CmdCode × Users → Web → Web
keep_users r w =
    let w' = change_conf (λ conf. record conf { con_usr = r.1 }) w in
    elim r.0 [
      | CmdCode.usr_add_ok ↦ save_conf w'
      | CmdCode.usr_del_ok ↦ save_conf w'
      | CmdCode.usr_modify_ok ↦ save_conf w'
      | _ ↦ w'
    ]

unfoldable pub user_set_of : ℕ → UserSet
user_set_of flag =
    if flag == 0
    then UserSet.user_add
    else if flag == 1
    then UserSet.user_del
    else if flag == 2
    then UserSet.user_modify
    else UserSet.other

-- Each of the two functions that USER_MODIFY calls saves on its own; its answer is fixed.
unfoldable pub user_modify : Extdat → Web → Web
unfolding keep_users
user_modify x w =
    let renamed =
      if is_free x.name1
      then w
      else keep_users (set_usr_name w.client.conf.con_usr x.name0 x.name1) w in
    keep_users
      (set_usr_psw renamed.client.conf.con_usr (if is_free x.name1 then x.name0 else x.name1)
        x.passwd1)
      renamed

-- The command on the two entries that were received.
unfoldable pub user_change : UserSet → List ℕ → Extdat → Web → CmdCode × Web
unfolding user_modify keep_users sys_usr_set
user_change UserSet.user_modify user x w = (CmdCode.usr_modify_ok, user_modify x w)
user_change flag user x w =
    let r = sys_usr_set w.client.conf.con_usr user flag x in (r.0, keep_users r w)

-- `sys_usr_set`: a user without root's authority is refused before the data are received. What the
-- transfer returns is not looked at; more data than the local holds overrun it.
unfoldable pub user_set : Board → Itsip → Action Web CmdCode
unfolding user_change user_set_of web_conn_recv
user_set b head w = elim (get_usr_info w.client.conf.con_usr (user_of head)) [
  | none ↦ Step.done (CmdCode.rc_nousr, w)
  | some u ↦
      if u.usr_auth == usr_root
      then (on_conn (web_conn_recv head.itsip_extlen) >>= λ r w.
            if ltb b.abi.extdat.size (length r.got)
            then Step.fault
            else Step.done (
                user_change (user_set_of (data_at head 0)) (user_of head)
                  (b.abi.extdat.load (r.got ++ drop (length r.got) b.uninit_extdat)) w))
          w
      else Step.done (CmdCode.rc_noright, w)
]
