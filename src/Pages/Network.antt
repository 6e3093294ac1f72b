-- ===== src/Pages/Network.antt =====
-- The page of the network settings: web/src/net/net.c. Its `str2hex` has the text of the one of the tool
-- on the PC, and its `ip_check` that of the alarm client.
pub mod Unchanged
use itertk.Base.{
  ℕ, zero, suc, ◌+◌, Bool, true, false, Option, none, some, List, [], ◌∷◌, leb, ◌==◌, ◌&&◌, ◌||◌,
  if◌then◌else◌, u8, codes, length, get_or, set, replicate,
}
use itertk.Conf.{ConfigNet}
use itertk.Conf.Users.{CmdCode}
use itertk.Wire.{Step}
use itertk.System.Address.{is_digit, sys_str2ip, sys_ip2str_static}
use itertk.Client.Dns.Lookup.{IpCheck, ip_check}
use itertk.PcTool.{strtok, str2hex}
use itertk.PcTool.Report.{print_mac}
use itertk.Itslib.{Page}
use itertk.Itslib.Settings.{its_netinfo_query, its_netinfo_set}
use itertk.Pages.{Cgi, View, Reading, SettingsPage, Runs, cgi_main, if_clicked}
use itertk.Pages.Controls.{Control}
use itertk.Pages.Port.{yes_no_texts, indices}

unfoldable pub show_net : ConfigNet → List (List ℕ × Control)
unfolding sys_ip2str_static print_mac
show_net con_net =
    (codes "host_ip", Control.text (sys_ip2str_static con_net.dev_ip))
    ∷ (codes "host_netmask", Control.text (sys_ip2str_static con_net.dev_nm))
    ∷ (codes "host_dev_gw", Control.text (sys_ip2str_static con_net.dev_gw))
    ∷ (codes "host_dns0", Control.text (sys_ip2str_static (get_or con_net.dns 0 0)))
    ∷ (codes "host_dns1", Control.text (sys_ip2str_static (get_or con_net.dns 1 0)))
    ∷ (codes "dev_dhcp", indices yes_no_texts con_net.dev_dhcp)
    ∷ (codes "dev_mac", Control.text (print_mac con_net.dev_mac))
    ∷ []

-- `is_mac`, a hexadecimal digit
abbrev pub is_mac : ℕ → Bool
is_mac c = is_digit c || (leb b'a' c && leb c b'f' || leb b'A' c && leb c b'F')

abbrev pub mac_place : ℕ → ℕ → Bool
mac_place i c =
    if i == 2 || (i == 5 || (i == 8 || (i == 11 || i == 14))) then c == b':' else is_mac c

abbrev pub mac_loop : ℕ → List ℕ → Bool
mac_loop i [] = true
mac_loop i (c ∷ s) = mac_place i c && mac_loop (i + 1) s

-- `mac_str_check`, true for 0
unfoldable pub mac_str_check : List ℕ → Bool
mac_str_check mac_str = length mac_str == 17 && mac_loop 0 mac_str

-- the tokens for the bytes from `i` on; a missing one is a null pointer, for which `str2hex` gives -1
unfoldable pub get_mac_loop : ℕ → ℕ → List (List ℕ) → List ℕ → Option (List ℕ)
unfolding str2hex
get_mac_loop zero i ps mac = some mac
get_mac_loop (suc k) i [] mac = none
get_mac_loop (suc k) i (p ∷ ps) mac = elim (str2hex p) [
  | none ↦ none
  | some v ↦ get_mac_loop k (i + 1) ps (set mac i (u8 v))
]

-- `get_mac`: `dev_mac` after it, none for -1
unfoldable pub get_mac : List ℕ → List ℕ → Option (List ℕ)
unfolding strtok get_mac_loop
get_mac str mac = get_mac_loop 6 0 (strtok b':' str) mac

-- A field of an address. The test asks for FALSE only, so that the -1 of `ip_check` passes.
unfoldable pub read_address : Cgi → List ℕ → Option ℕ
unfolding ip_check sys_str2ip
read_address cgi name =
    let str = cgi.form_string name 30 in
    elim (ip_check str) [ IpCheck.not_ip ↦ none | other ↦ some (sys_str2ip str) ]

-- The hardware address
unfoldable pub read_hardware : Cgi → List ℕ → Option (List ℕ)
unfolding mac_str_check get_mac
read_hardware cgi mac =
    let str = cgi.form_string (codes "dev_mac") 30 in
    if mac_str_check str then get_mac str mac else none

abbrev pub or_refused : {A B : Type 0} → List ℕ → Option A → (A → Reading B) → Reading B
or_refused field none k = Reading.refused field
or_refused field (some a) k = k a

-- The form, field by field up to the first that is refused.
unfoldable pub read_net : Cgi → ConfigNet → Reading ConfigNet
unfolding read_address read_hardware
read_net cgi con_net = or_refused (codes "host_ip") (read_address cgi (codes "host_ip")) λ dev_ip.
    or_refused (codes "host_netmask") (read_address cgi (codes "host_netmask")) λ dev_nm.
      or_refused (codes "host_dev_gw") (read_address cgi (codes "host_dev_gw")) λ dev_gw.
        or_refused (codes "host_dns0") (read_address cgi (codes "host_dns0")) λ dns0.
          or_refused (codes "host_dns1") (read_address cgi (codes "host_dns1")) λ dns1.
            or_refused (codes "dev_mac") (read_hardware cgi con_net.dev_mac) λ dev_mac.
              Reading.accepted (record con_net {
                dev_ip = dev_ip;
                dev_nm = dev_nm;
                dev_gw = dev_gw;
                dns = set (set con_net.dns 0 dns0) 1 dns1;
                dev_dhcp = cgi.select_single (codes "dev_dhcp") yes_no_texts 0;
                dev_mac = dev_mac;
              })

abbrev pub zero_net : ConfigNet
zero_net = record {
  dev_ip = 0;
  dev_nm = 0;
  dev_gw = 0;
  dev_dhcp = 0;
  dhcp_id = 0;
  dns = 0 ∷ 0 ∷ [];
  dev_mac = replicate 6 0;
}

unfoldable pub net_page : Page → SettingsPage ConfigNet
unfolding its_netinfo_query its_netinfo_set
net_page page = record {
  query = λ p name c. its_netinfo_query p name;
  set = its_netinfo_set;
  set_ok = CmdCode.net_set_ok;
  layout = page.abi.net;
  start = zero_net;
  cleared = zero_net;
}

unfoldable pub net_main : Option (List ℕ) → Runs → Cgi → Step (View ConfigNet)
unfolding cgi_main net_page read_net
net_main session runs cgi =
    cgi_main (net_page runs.first) session runs (if_clicked cgi (codes "net") (read_net cgi))
