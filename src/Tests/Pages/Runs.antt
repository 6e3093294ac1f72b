-- ===== src/Tests/Pages/Runs.antt =====
-- Whole runs of pages against answers of the command server.
use itertk.Base.{
  ℕ, ◌≡◌, refl, true, Option, none, some, List, [], ◌∷◌, ◌++◌, arith, codes, length, str_eq,
  replicate, if◌then◌else◌,
}
use itertk.Conf.{ConfigVlan, ConfigServer, ConfigCom}
use itertk.Conf.Users.{CmdCode, code_number}
use itertk.Conf.Defaults.{config_makedefault}
use itertk.Client.Uart.{is_good_uart, is_good_bps}
use itertk.Client.Dns.{
  change_dn, change_dn_loop, dns_packet, set_query, set_head, resolve, resolve_loop,
}
use itertk.Client.Dns.Lookup.{ip_check, ip_loop, its_dns}
use itertk.System.Address.{digits_from, sys_str2ip, print_dotted, print_byte}
use itertk.Wire.{Step, Poll, net_conn_close}
use itertk.Wire.Send.{net_conn_send}
use itertk.Wire.Packet.{Itsip, ItsCmd, its_id, itsip_pack, c_string}
use itertk.Itslib.{
  Page, Dial, Result, net_conn_connect, net_conn_recv, put_string, packed, fetch, submit, talk,
  receive_head,
}
use itertk.Itslib.Settings.{
  its_vlan_query, its_vlan_set, its_conf_server_query, its_conf_server_set, its_netinfo_query,
}
use itertk.Itslib.Ports.{its_conf_com_query}
use itertk.Itslib.Users.{user_login}
use itertk.Pages.{
  Cgi, View, Reading, Runs, session_read, atoi_dword, queried, submit_form, take_form, cgi_main,
  if_clicked,
}
use itertk.Pages.Controls.{unchanged}
use itertk.Pages.Outcome.{Made, cgi_main-Made}
use itertk.Pages.Host.{read_vlan, vlan_page}
use itertk.Pages.Port.{show_com, zero_com, com_page, com_main}
use itertk.Pages.Port.Unchanged.{com_main-unchanged}
use itertk.Pages.Port.Cleared.{cleared_query_faults}
use itertk.Web.Query.{sys_conf_query}
use itertk.Pages.Server.{
  read_server_port, read_server_name, read_server, server_page, server_form, server_main,
}
use itertk.Pages.Server.Accepted.{ServerMade, server_main-ServerMade}
use itertk.Pages.Session.{Frame, main_frame, main_frame-session_read}
use itertk.Tests.Packets.Login.{no_nul-NoNul}
use itertk.Tests.Packets.{demo_abi, demo_head, head_layout, demo_payload, demo_board, demo_web}
use itertk.Tests.Sessions.{demo_resolver}
use itertk.Tests.Pages.{form_cgi, form_cgi-Reads}

-- one turn that sends or brings so many bytes
abbrev at_once : ℕ → ℕ × List Poll
at_once n = (0, Poll.moved n 0 0 ∷ [])

-- a page that the server does not let in
abbrev pub silent : Page
silent = record {
  abi = demo_abi;
  memory = λ k. 0;
  crypt = λ psw. codes "NC616" ++ psw;
  dial = Dial.refused 4;
  uninit = demo_head 0;
}

-- A page whose query is answered by an object.
abbrev answering : List ℕ → Page
answering object =
    let head = demo_head 0 in
    record silent {
      dial =
          Dial.connected 4
            (head_layout.store (record head { itsip_extlen = length object }) ++ object)
            (at_once 56 ∷ at_once 56 ∷ at_once (length object) ∷ []);
    }

-- A page whose setting is answered by a code; all of its 1024 bytes go at once.
abbrev confirming : CmdCode → Page
unfolding code_number
confirming code =
    let head = demo_head 0 in
    record silent {
      dial =
          Dial.connected 4
            (head_layout.store (record head { itsip_data = code_number code ∷ replicate 23 0 }))
            (at_once 56 ∷ at_once 1024 ∷ at_once 56 ∷ []);
    }

abbrev outcome : {A : Type 0} → A → Step A → A
outcome other (Step.done a) = a
outcome other Step.pending = other
outcome other Step.fault = other

abbrev no_view : {A : Type 0} → View A
no_view = record { alerts = []; shown = none; talks = [] }

-- VLAN 5 is switched on.
abbrev vlan_form : List ℕ → Option (List ℕ)
vlan_form name =
    if str_eq name (codes "id")
    then some (codes "5")
    else if str_eq name (codes "enable")
    then some (0xca ∷ 0xc7 ∷ [])
    else none

abbrev vlan_runs : Runs
vlan_runs = record {
  first = answering (0 ∷ 1 ∷ []);
  second = confirming CmdCode.vlan_set_ok;
  third = silent;
}

abbrev vlan_reading : ConfigVlan → Option (Reading ConfigVlan)
vlan_reading =
    if_clicked (form_cgi vlan_form (codes "vlan") []) (codes "vlan")
      (λ c. Reading.accepted (read_vlan (form_cgi vlan_form (codes "vlan") []) c))

abbrev vlan_view : View ConfigVlan
vlan_view =
    outcome no_view (cgi_main (vlan_page silent) (some (codes "root")) vlan_runs vlan_reading)

cgi_main-Made_example :
    Made (vlan_page silent) (some (codes "root")) vlan_runs vlan_reading vlan_view
unfolding cgi_main vlan_page session_read take_form submit_form its_vlan_query its_vlan_set fetch
    submit talk receive_head net_conn_connect net_conn_recv net_conn_send net_conn_close put_string
    itsip_pack its_id code_number c_string
cgi_main-Made_example =
    cgi_main-Made (vlan_page silent) (some (codes "root")) vlan_runs vlan_reading vlan_view refl
      refl

-- The server a.b at port 9000; the name resolves to 10.0.0.7.
abbrev server_sent : List ℕ → Option (List ℕ)
server_sent name = if str_eq name (codes "dns_str") then some (codes "a.b") else none

abbrev server_runs : Runs
server_runs = record {
  first = answering demo_payload;
  second = confirming CmdCode.server_set_ok;
  third = silent;
}

abbrev server_run : Step (View ConfigServer)
server_run =
    server_main demo_resolver (some (codes "root")) server_runs (answering (0 ∷ 0 ∷ 0 ∷ 0 ∷ []))
      (form_cgi server_sent (codes "server") [])

server_main-ServerMade_example :
    ServerMade demo_resolver
      (some (codes "root"))
      server_runs
      (form_cgi server_sent (codes "server") [])
      (outcome no_view server_run)
unfolding server_main server_form server_page read_server read_server_name read_server_port queried
    session_read take_form submit_form its_conf_server_query its_conf_server_set its_netinfo_query
    fetch submit talk receive_head net_conn_connect net_conn_recv net_conn_send net_conn_close
    put_string itsip_pack its_id code_number c_string ip_check ip_loop its_dns resolve resolve_loop
    dns_packet change_dn change_dn_loop set_query set_head print_dotted print_byte sys_str2ip
    digits_from
server_main-ServerMade_example =
    server_main-ServerMade demo_resolver (some (codes "root")) server_runs
      (answering (0 ∷ 0 ∷ 0 ∷ 0 ∷ [])) (form_cgi server_sent (codes "server") [])
      (outcome no_view server_run) refl refl

-- Port 1 as the page shows it, clicked.
abbrev demo_com : ConfigCom
demo_com = demo_abi.port.load []

abbrev com_cgi : Cgi
com_cgi = form_cgi (unchanged (show_com demo_com)) (codes "com") (codes "1")

abbrev com_runs : Runs
com_runs = record {
  first = answering (0 ∷ 0 ∷ 0 ∷ 0 ∷ []);
  second = confirming CmdCode.com_set_ok;
  third = silent;
}

abbrev no_result : Result
no_result = record { code = 0; object = []; conn = none }

abbrev com_query : Step Result
com_query =
    its_conf_com_query com_runs.first (codes "root")
      (record zero_com { id = atoi_dword com_cgi.query_string })

com_main-unchanged_example :
    com_main (some (codes "root")) com_runs com_cgi
    ≡ submit_form
        (com_page com_runs.first com_cgi)
        com_runs
        (codes "root")
        (record demo_com { all = 0 })
        (outcome no_result com_query ∷ [])
unfolding queried atoi_dword is_good_uart is_good_bps session_read its_conf_com_query fetch talk
    receive_head net_conn_connect net_conn_recv net_conn_send net_conn_close put_string itsip_pack
    its_id code_number c_string
com_main-unchanged_example =
    com_main-unchanged (some (codes "root")) com_runs com_cgi (codes "root")
      (outcome no_result com_query) demo_com refl refl refl refl refl
      (form_cgi-Reads (unchanged (show_com demo_com)) (codes "com") (codes "1")) refl (omega arith)
      (omega arith)

abbrev asking : Itsip
unfolding itsip_pack its_id
asking =
    let head = packed silent ItsCmd.conf_query 0 in
    record head { itsip_user = codes "root" ++ replicate 20 0 }

cleared_query_faults_example :
    (asked : Itsip) × (its_conf_com_query silent (codes "root") (com_page silent com_cgi).cleared
      ≡ fetch silent (some asked) (code_number CmdCode.recv_failed) silent.abi.port.size)
    × (sys_conf_query demo_board asked (demo_web []) ≡ Step.fault)
unfolding put_string itsip_pack its_id config_makedefault
cleared_query_faults_example =
    cleared_query_faults silent silent com_cgi demo_board (demo_web []) (codes "root") asking refl
      (omega arith)

-- ann logs in where administrator was before
abbrev login_sent : List ℕ → Option (List ℕ)
login_sent name =
    if str_eq name (codes "username")
    then some (codes "ann")
    else if str_eq name (codes "password")
    then some (codes "secret")
    else none

abbrev letting_in : Page
unfolding code_number
letting_in =
    let head = demo_head 0 in
    record silent {
      dial =
          Dial.connected 4
            (head_layout.store
              (record head { itsip_data = code_number CmdCode.login_ok ∷ replicate 23 0 }))
            (at_once 56 ∷ at_once 56 ∷ []);
    }

abbrev ann_login : Step Result
ann_login = user_login letting_in (codes "ann") (codes "secret")

main_frame-session_read_example :
    (file : Option (List ℕ)) × (main_frame letting_in
        (form_cgi login_sent [] [])
        true
        (some (codes "administrator"))
      ≡ Step.done (Frame.frames (codes "ann"), file))
    × (session_read file ≡ some (codes "anninistrator"))
unfolding user_login fetch submit talk receive_head net_conn_connect net_conn_recv net_conn_send
    net_conn_close put_string itsip_pack its_id code_number c_string
main_frame-session_read_example =
    main_frame-session_read letting_in (form_cgi login_sent [] []) (some (codes "administrator"))
      b'a' (codes "nn") (outcome no_result ann_login) refl refl refl
      (no_nul-NoNul (codes "ann") refl) (no_nul-NoNul (codes "administrator") refl) (omega arith)
      (omega arith)
