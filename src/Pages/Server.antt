-- ===== src/Pages/Server.antt =====
-- The page of the alarm server: web/src/server/server.c. Its `ip_check` has the text of the one of the
-- alarm client, and the `its_dns` of itslib/src/itscmd.c is that of the client (it returns -1, not
-- DNS_FAILED, without an answer, and both are not DNS_OK).
pub mod Accepted
pub mod Reach
use itertk.Base.{
  ℕ, zero, suc, Bool, true, false, Option, none, some, List, [], ◌∷◌, ◌++◌, ltb, leb, ◌==◌, ◌||◌,
  if◌then◌else◌, codes, length, get_or,
}
use itertk.Conf.{ConfigNet, ConfigServer}
use itertk.Conf.Users.{CmdCode, code_number}
use itertk.Wire.{Step}
use itertk.System.Address.{sys_str2ip}
use itertk.Client.Dns.Lookup.{IpCheck, ip_check, Resolver, its_dns}
use itertk.Itslib.{Page, Result}
use itertk.Itslib.Settings.{its_netinfo_query, its_conf_server_query, its_conf_server_set}
use itertk.Pages.{
  ℤ, pos, negsuc, Cgi, View, Alert, Reading, SettingsPage, Runs, session_read, queried, take_form,
}
use itertk.Pages.Controls.{Control}
use itertk.Pages.Decimal.{print_int}
use itertk.Pages.Network.{zero_net}

unfoldable pub show_server : ConfigServer → List (List ℕ × Control)
unfolding print_int
show_server con_server =
    (codes "dns_str", Control.text con_server.dns_str)
    ∷ (codes "server_port", Control.text (print_int con_server.server_port))
    ∷ []

-- The port of the form, refused at 0 and below and from 0xffff on.
unfoldable pub read_server_port : Cgi → ConfigServer → Reading ConfigServer
read_server_port cgi con_server = elim (cgi.form_integer (codes "server_port") 8888) [
  | pos port ↦
      if port == 0 || leb 65535 port
      then Reading.refused (codes "server_port")
      else Reading.accepted (record con_server { server_port = port })
  | negsuc n ↦ Reading.refused (codes "server_port")
]

abbrev pub with_server_ip : List ℕ → ConfigServer → List ℕ → ConfigServer
with_server_ip ip_str con_server text = record con_server {
  server_ip = sys_str2ip text;
  dns_str = ip_str;
}

-- A name: `ip_dest` has 14 bytes for the text of the address and its end, and a longer one overruns it.
unfoldable pub read_server_name : Resolver → Cgi → ℕ → ConfigServer → Step (Reading ConfigServer)
unfolding its_dns read_server_port
read_server_name r cgi dns con_server =
    let ip_str = cgi.form_string (codes "dns_str") 50 in
    elim (its_dns r ip_str dns) [
      | none ↦ Step.pending
      | some none ↦ Step.done (Reading.refused (codes "dns_str"))
      | some (some text) ↦
          if leb 14 (length text)
          then Step.fault
          else Step.done (read_server_port cgi (with_server_ip ip_str con_server text))
    ]

-- The form, with `config_net.dns[0]`. The answer of `gethostbyname` is used unseen: a null pointer is
-- read.
unfoldable pub read_server : Resolver → Cgi → ℕ → ConfigServer → Step (Reading ConfigServer)
unfolding ip_check read_server_name read_server_port
read_server r cgi dns con_server =
    let ip_str = cgi.form_string (codes "dns_str") 50 in
    elim (ip_check ip_str) [
      | IpCheck.is_ip ↦ elim (r.host ip_str) [
        | none ↦ Step.fault
        | some text ↦ Step.done (read_server_port cgi (with_server_ip ip_str con_server text))
      ]
      | other ↦ read_server_name r cgi dns con_server
    ]

abbrev pub zero_server : ConfigServer
zero_server = record { server_ip = 0; server_port = 0; dns_str = [] }

unfoldable pub server_page : Page → SettingsPage ConfigServer
unfolding its_conf_server_query its_conf_server_set
server_page page = record {
  query = λ p name c. its_conf_server_query p name;
  set = its_conf_server_set;
  set_ok = CmdCode.server_set_ok;
  layout = page.abi.server;
  start = zero_server;
  cleared = zero_server;
}

-- The branch of the clicked button: the network settings are queried first, for their name server, and
-- what comes of that is not tested.
unfoldable pub server_form :
    Resolver → Runs → Page → Cgi → List ℕ → ConfigServer → List Result → Step (View ConfigServer)
unfolding its_netinfo_query queried read_server take_form server_page
server_form r runs net cgi name con_server talks = elim (its_netinfo_query net name) [
  | Step.pending ↦ Step.pending
  | Step.fault ↦ Step.fault
  | Step.done n ↦
      let config_net = queried net.abi.net zero_net n in
      elim (read_server r cgi (get_or config_net.dns 0 0) con_server) [
        | Step.pending ↦ Step.pending
        | Step.fault ↦ Step.fault
        | Step.done form ↦ take_form (server_page runs.first) runs name form (talks ++ (n ∷ []))
      ]
]

-- `cgiMain`; `net` is what the query of the network settings meets.
unfoldable pub server_main :
    Resolver → Option (List ℕ) → Runs → Page → Cgi → Step (View ConfigServer)
unfolding session_read its_conf_server_query code_number server_form
server_main r session runs net cgi = elim (session_read session) [
  | none ↦ Step.done (record { alerts = Alert.not_logged_in ∷ []; shown = none; talks = [] })
  | some name ↦ elim (its_conf_server_query runs.first name) [
    | Step.pending ↦ Step.pending
    | Step.fault ↦ Step.fault
    | Step.done q ↦
        let object = queried runs.first.abi.server zero_server q in
        if q.code == code_number CmdCode.query_ok
        then if cgi.clicked (codes "server")
          then server_form r runs net cgi name object (q ∷ [])
          else Step.done (record { alerts = []; shown = some object; talks = q ∷ [] })
        else Step.done (record {
          alerts = Alert.query_failed q.code ∷ [];
          shown = some object;
          talks = q ∷ [];
        })
  ]
]
