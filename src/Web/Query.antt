-- ===== src/Web/Query.antt =====
-- The commands that answer with an object: `sys_usr_query` and `sys_conf_query` of
-- nc600-2.0/src/web_net.c, and the queries that stand in `web_cmd_proc`.
use itertk.Base.{
  ℕ, ◌+◌, Bool, true, Option, none, some, List, [], ◌∷◌, ◌++◌, ◌==◌, if◌then◌else◌, get_elem?, take,
  drop, length,
}
use itertk.Conf.{ConfigGpio}
use itertk.Conf.Users.{get_usr_id}
use itertk.Conf.Defaults.{usr_root}
use itertk.Wire.{Step, Action, ◌>>=◌, or_fault}
use itertk.Wire.Packet.{Itsip, ItsCmd, its_ack, itsip_pack}
use itertk.Web.{
  Web, Board, change_conf, user_of, data_at, allowed, result_head, send_result, send_object,
}

-- The queries of an object with no test: the head says the object's length.
unfoldable pub answer_object : Board → ItsCmd → ℕ → List ℕ → Action Web Bool
unfolding send_object itsip_pack its_ack
answer_object b cmd size own = send_object b (itsip_pack (its_ack cmd) size b.uninit_head) own

unfoldable pub sys_usr_query : Board → Action Web Bool
unfolding answer_object
sys_usr_query b w =
    answer_object b ItsCmd.user_query b.abi.users.size (b.abi.users.store w.client.conf.con_usr) w

-- `sprintf` of the version into `sw_ver` comes first.
unfoldable pub sysinfo_query : Board → Action Web Bool
unfolding answer_object
sysinfo_query b w =
    let conf = w.client.conf in
    let sys = conf.con_sys in
    let sys' = record sys { sw_ver = b.program_version } in
    answer_object b ItsCmd.sysinfo_query b.abi.sys.size (b.abi.sys.store sys')
      (change_conf (λ conf. record conf { con_sys = sys' }) w)

unfoldable pub netinfo_query : Board → Action Web Bool
unfolding answer_object
netinfo_query b w =
    answer_object b ItsCmd.netinfo_query b.abi.net.size (b.abi.net.store w.client.conf.con_net) w

unfoldable pub vlan_query : Board → Action Web Bool
unfolding answer_object
vlan_query b w =
    answer_object b ItsCmd.vlan_query b.abi.vlan.size (b.abi.vlan.store w.client.conf.con_vlan) w

unfoldable pub server_query : Board → Action Web Bool
unfolding answer_object
server_query b w =
    answer_object b ItsCmd.server_query b.abi.server.size
      (b.abi.server.store w.client.conf.con_server) w

abbrev pub later_ints : List ℕ → List ℕ
later_ints [] = []
later_ints (v ∷ vs) = v ∷ 0 ∷ 0 ∷ 0 ∷ later_ints vs

-- `alarm[i] = g_alarm_in[i]` for the eight inputs, into an array of three `int`: the last five land,
-- with the lowest byte first, in the 37 characters behind it.
unfoldable pub store_alarms : List ℕ → ConfigGpio → ConfigGpio
store_alarms inputs g = record {
  alarm = take 3 inputs;
  chars = later_ints (drop 3 inputs) ++ drop 20 g.chars;
}

-- `get_sensor(con_gpio.sensor)`: at most 30 characters from offset 7 on
unfoldable pub store_sensor : Option (List ℕ) → ConfigGpio → ConfigGpio
store_sensor none g = g
store_sensor (some text) g = record g {
  chars = take 7 g.chars ++ (take 30 text ++ drop (7 + length (take 30 text)) g.chars);
}

unfoldable pub gpio_query : Board → Action Web Bool
unfolding answer_object store_alarms store_sensor
gpio_query b w =
    let g = store_sensor b.sensor (store_alarms w.client.alarm_in w.client.conf.con_gpio) in
    answer_object b ItsCmd.gpio_query b.abi.gpio.size (b.abi.gpio.store g)
      (change_conf (λ conf. record conf { con_gpio = g }) w)

-- The answer with an object and the result 0, and without the right only the result 1.
unfoldable pub answer_ok : Board → ℕ → List ℕ → Action Web Bool
unfolding result_head send_object
answer_ok b size own = send_object b (result_head ItsCmd.conf_query size 0 b.uninit_head) own

conf_com_query : Board → Itsip → Action Web Bool
unfolding answer_ok send_result allowed
conf_com_query b head w =
    let conf = w.client.conf in
    (or_fault (get_elem? conf.con_lim (data_at head 1)) >>= λ limit.
    if allowed limit limit.read conf (user_of head)
    then (or_fault (get_elem? conf.con_com (data_at head 1)) >>= λ con_com.
        answer_ok b b.abi.port.size (b.abi.port.store con_com))
    else send_result b ItsCmd.conf_query 1)
      w

conf_mode_query : Board → Itsip → Action Web Bool
unfolding answer_ok send_result allowed
conf_mode_query b head w =
    let conf = w.client.conf in
    (or_fault (get_elem? conf.con_lim (data_at head 1)) >>= λ limit.
    if allowed limit limit.read conf (user_of head)
    then (or_fault (get_elem? conf.con_mode (data_at head 1)) >>= λ con_mode.
        answer_ok b b.abi.mode.size (b.abi.mode.store con_mode))
    else send_result b ItsCmd.conf_query 1)
      w

-- Root reads the limits; the first data byte of that answer is not set. The index of an unknown user
-- is behind the table.
conf_limit_query : Board → Itsip → Action Web Bool
unfolding answer_object send_result get_usr_id
conf_limit_query b head w =
    let conf = w.client.conf in
    (or_fault (get_elem? conf.con_usr (get_usr_id conf.con_usr (user_of head))) >>= λ usr.
    if usr.usr_auth == usr_root
    then (or_fault (get_elem? conf.con_lim (data_at head 1)) >>= λ limit.
        answer_object b ItsCmd.conf_query b.abi.limit.size (b.abi.limit.store limit))
    else send_result b ItsCmd.conf_query 1)
      w

-- A local copy: the first three alarms, `alarm_on_off` and `output`, and a sensor text that nothing
-- sets.
conf_gpio_query : Board → Action Web Bool
unfolding answer_ok
conf_gpio_query b w =
    let mygpio : ConfigGpio = record {
      alarm = take 3 w.client.alarm_in;
      chars = take 7 w.client.conf.con_gpio.chars ++ b.uninit_chars;
    } in
    answer_ok b b.abi.gpio.size (b.abi.gpio.store mygpio) w

-- The server's settings are a local that nothing sets.
conf_server_query : Board → Action Web Bool
unfolding answer_ok
conf_server_query b = answer_ok b b.abi.server.size (b.abi.server.store b.uninit_server)

unfoldable pub sys_conf_query : Board → Itsip → Action Web Bool
unfolding conf_com_query conf_mode_query conf_limit_query conf_gpio_query conf_server_query
sys_conf_query b head =
    if data_at head 0 == 0
    then conf_com_query b head
    else if data_at head 0 == 1
    then conf_mode_query b head
    else if data_at head 0 == 2
    then conf_limit_query b head
    else if data_at head 0 == 3
    then conf_gpio_query b
    else if data_at head 0 == 4
    then conf_server_query b
    else (λ w. Step.done (true, w))
