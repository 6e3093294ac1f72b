-- ===== src/Web/Command.antt =====
-- `web_cmd_proc` and `web_svr_proc` of nc600-2.0/src/web_net.c: one command over one connection.
use itertk.Base.{ℕ, Bool, Option, none, some, [], ◌∷◌, ◌==◌, if◌then◌else◌, drop}
use itertk.Conf.Users.{CmdCode, code_number, sys_usr_login}
use itertk.Client.Link.{is_open, reconnect_on}
use itertk.Wire.{Step, Action, ◌>>=◌, pure, modify}
use itertk.Wire.Packet.{Itsip, ItsCmd, its_head, c_string}
use itertk.Wire.Receive.{web_conn_recv}
use itertk.Web.{Web, Board, on_conn, user_of, send_result, send_object}
use itertk.Web.Query.{
  sys_usr_query, sysinfo_query, netinfo_query, vlan_query, server_query, gpio_query, sys_conf_query,
}
use itertk.Web.Set.{
  sys_sysinfo_set, sys_server_set, sys_netinfo_set, sys_vlan_set, sys_gpio_set, sys_factory_set,
  sys_conf_set, user_set,
}

-- the labels of the switch
unfoldable pub its_cmd_of : ℕ → Option ItsCmd
its_cmd_of n =
    if n == 0xa0
    then some ItsCmd.login
    else if n == 0xae
    then some ItsCmd.user_query
    else if n == 0xa5
    then some ItsCmd.user_set
    else if n == 0xa1
    then some ItsCmd.sysinfo_query
    else if n == 0xaf
    then some ItsCmd.sysinfo_set
    else if n == 0xa2
    then some ItsCmd.conf_query
    else if n == 0xa3
    then some ItsCmd.conf_set
    else if n == 0xc0
    then some ItsCmd.netinfo_query
    else if n == 0xc1
    then some ItsCmd.netinfo_set
    else if n == 0xc2
    then some ItsCmd.vlan_query
    else if n == 0xc3
    then some ItsCmd.vlan_set
    else if n == 0xc4
    then some ItsCmd.factory_set
    else if n == 0xc5
    then some ItsCmd.server_query
    else if n == 0xc6
    then some ItsCmd.server_set
    else if n == 0xc7
    then some ItsCmd.gpio_query
    else if n == 0xc8
    then some ItsCmd.gpio_set
    else none

abbrev pub ignore : Action Web Bool → Action Web Unit
ignore m = m >>= λ _. pure tt

-- A setting is made, then its code is sent as the result.
unfoldable pub acknowledge : Board → ItsCmd → Action Web CmdCode → Action Web CmdCode
unfolding send_result code_number
acknowledge b cmd m = m >>= λ code. send_result b cmd (code_number code) >>= λ _. pure code

abbrev pub done_with : Action Web CmdCode → Action Web Unit
done_with m = m >>= λ _. pure tt

unfoldable pub on_login : Board → Itsip → Action Web Unit
unfolding send_result sys_usr_login code_number
on_login b head w =
    let ret = sys_usr_login w.client.conf.con_usr (user_of head) (c_string head.itsip_data) in
    ignore (send_result b ItsCmd.login (code_number ret)) w

-- The head of this answer is not packed: all but the result is what the local held.
unfoldable pub on_user_set : Board → Itsip → Action Web Unit
unfolding user_set send_object code_number
on_user_set b head = user_set b head >>= λ code.
    let pak = b.uninit_head in
    ignore (send_object b (record pak { itsip_data = code_number code ∷ drop 1 pak.itsip_data }) [])

abbrev reconnect_after : CmdCode → Web → Web
reconnect_after CmdCode.server_set_ok w =
    let c = w.client in record w { client = record c { reconnect_flag = reconnect_on } }
reconnect_after _ w = w

-- New settings of the alarm server make the client reconnect.
unfoldable pub on_server_set : Board → Action Web Unit
unfolding acknowledge sys_server_set
on_server_set b =
    acknowledge b ItsCmd.server_set (sys_server_set b) >>= λ code. modify (reconnect_after code)

unfoldable pub on_cmd : Board → Itsip → ItsCmd → Action Web Unit
unfolding on_login on_user_set on_server_set acknowledge
on_cmd b head ItsCmd.login = on_login b head
on_cmd b head ItsCmd.user_query = ignore (sys_usr_query b)
on_cmd b head ItsCmd.user_set = on_user_set b head
on_cmd b head ItsCmd.sysinfo_query = ignore (sysinfo_query b)
on_cmd b head ItsCmd.sysinfo_set = done_with (acknowledge b ItsCmd.sysinfo_set (sys_sysinfo_set b))
on_cmd b head ItsCmd.conf_query = ignore (sys_conf_query b head)
on_cmd b head ItsCmd.conf_set = done_with (acknowledge b ItsCmd.conf_set (sys_conf_set b head))
on_cmd b head ItsCmd.netinfo_query = ignore (netinfo_query b)
on_cmd b head ItsCmd.netinfo_set = done_with (acknowledge b ItsCmd.netinfo_set (sys_netinfo_set b))
on_cmd b head ItsCmd.vlan_query = ignore (vlan_query b)
on_cmd b head ItsCmd.vlan_set = done_with (acknowledge b ItsCmd.vlan_set (sys_vlan_set b))
on_cmd b head ItsCmd.factory_set = done_with (acknowledge b ItsCmd.factory_set sys_factory_set)
on_cmd b head ItsCmd.server_query = ignore (server_query b)
on_cmd b head ItsCmd.server_set = on_server_set b
on_cmd b head ItsCmd.gpio_query = ignore (gpio_query b)
on_cmd b head ItsCmd.gpio_set = done_with (acknowledge b ItsCmd.gpio_set (sys_gpio_set b))

unfoldable pub web_cmd_proc : Board → Itsip → Action Web Unit
unfolding its_cmd_of on_cmd
web_cmd_proc b head w =
    if is_open w.conn.client_conn
    then (if head.itsip_head == its_head
        then elim (its_cmd_of head.itsip_cmd) [
          | none ↦ Step.done (tt, w)
          | some cmd ↦ on_cmd b head cmd w
        ]
        else Step.done (tt, w))
    else Step.done (tt, w)

-- A head is received; without all of it nothing is done.
unfoldable pub web_svr_proc : Board → Action Web Unit
web_svr_proc b w =
    if is_open w.conn.client_conn
    then (on_conn (web_conn_recv b.abi.head.size) >>= λ r.
          if r.ok then web_cmd_proc b (b.abi.head.load r.got) else pure tt)
        w
    else Step.done (tt, w)
