-- ===== src/PcTool.antt =====
-- The tool on the PC that finds and configures devices: `str2hex`, `pc_set_dev_info`,
-- and in Report `pc_get_dev_info` and the loop of `report_proc`, of nc600-2.0/src/mode.c.
pub mod Text
pub mod Report
pub mod Addresses
pub mod Mac
pub mod Port
pub mod Roundtrip
use itertk.Base.{
  ℕ, zero, suc, ◌+◌, ◌-◌, ◌*◌, ◌/◌, ◌%◌, Bool, true, false, Option, none, some, List, [], ◌∷◌, ◌++◌,
  ltb, leb, ◌==◌, ◌&&◌, ◌||◌, if◌then◌else◌, u8, u16, u32, codes, str_eq, length, get_elem?, get_or,
  set, set?, ◌>>=◌,
}
use itertk.Conf.{ConfiData, ConfigNet, ConfigServer, ConfigSys}
use itertk.Client.{Client, config_save}
use itertk.Client.Dns.Lookup.{Resolver, dns_resolution}
use itertk.System.Address.{is_digit, is_space, digits_from, sys_str2ip, sys_ip2str_static}
use itertk.Wire.Packet.{c_string}

-- All tokens that `strtok` gives for one separator: the parts that are not empty.
abbrev pub close_token : List ℕ → List (List ℕ) → List (List ℕ)
close_token [] rest = rest
close_token (c ∷ s) rest = (c ∷ s) ∷ rest

unfoldable pub tokens_from : ℕ → List ℕ → List ℕ → List (List ℕ)
tokens_from sep cur [] = close_token cur []
tokens_from sep cur (c ∷ s) =
    let next = close_token cur (tokens_from sep [] s) in
    let more = tokens_from sep (cur ++ (c ∷ [])) s in if c == sep then next else more

unfoldable pub strtok : ℕ → List ℕ → List (List ℕ)
unfolding tokens_from
strtok sep s = tokens_from sep [] s

-- one digit of `str2hex`
unfoldable pub hex_value : ℕ → Option ℕ
hex_value c =
    if is_digit c
    then some (c - b'0')
    else if leb b'A' c && leb c b'F'
    then some (c - b'A' + 10)
    else if leb b'a' c && leb c b'f'
    then some (c - b'a' + 10)
    else none

unfoldable pub str2hex_loop : List ℕ → ℕ → Option ℕ
unfolding hex_value
str2hex_loop [] result = some result
str2hex_loop (c ∷ s) result = hex_value c >>= λ tmp. str2hex_loop s (u32 (result * 16 + tmp))

-- `str2hex`: none is the result -1, also for a null pointer. The `int` wraps.
unfoldable pub str2hex : List ℕ → Option ℕ
unfolding str2hex_loop
str2hex s = str2hex_loop s 0

-- `(WORD)atoi(s)`
abbrev pub port_sign : List ℕ → ℕ
port_sign [] = 0
port_sign (c ∷ s) =
    if c == b'-'
    then (65536 - u16 (digits_from 0 s)) % 65536
    else if c == b'+'
    then u16 (digits_from 0 s)
    else u16 (digits_from 0 (c ∷ s))

unfoldable pub atoi_port : List ℕ → ℕ
atoi_port [] = 0
atoi_port (c ∷ s) = let rest = atoi_port s in if is_space c then rest else port_sign (c ∷ s)

-- The result -1 is stored in a `BYTE`.
abbrev pub hex_byte : Option ℕ → ℕ
hex_byte none = 255
hex_byte (some n) = u8 n

unfoldable pub store_mac : List (List ℕ) → ℕ → List ℕ → Option (List ℕ)
unfolding str2hex
store_mac [] i mac = some mac
store_mac (q ∷ qs) i mac = set? mac i (hex_byte (str2hex q)) >>= λ m. store_mac qs (i + 1) m

-- The block "mac here": without a token the first byte becomes that of -1.
unfoldable pub read_mac : List ℕ → List ℕ → Option (List ℕ)
unfolding strtok store_mac
read_mac text mac = elim (strtok b':' text) [
  | [] ↦ set? mac 0 255
  | q ∷ qs ↦ store_mac (q ∷ qs) 0 mac
]

-- The copies that `pc_set_dev_info` fills.
pub record Settings : Type 0 where
  pub con_net : ConfigNet
  pub con_server : ConfigServer
  pub con_sys : ConfigSys

-- A field that is missing leaves what was there.
abbrev pub number_field : (List ℕ → ℕ) → List (List ℕ) → ℕ → ℕ → ℕ
number_field read ps i old = elim (get_elem? ps i) [ none ↦ old | some p ↦ read p ]

-- `strcpy` into an array of `cap` bytes
abbrev pub text_field : List (List ℕ) → ℕ → ℕ → List ℕ → Option (List ℕ)
text_field ps i cap old = elim (get_elem? ps i) [
  | none ↦ some old
  | some p ↦ if ltb (length p) cap then some p else none
]

-- The fields behind the device's own address, in order.
unfoldable pub fill_settings : List (List ℕ) → Settings → Option Settings
unfolding read_mac sys_str2ip atoi_port
fill_settings ps old =
    let net = old.con_net in
    let server = old.con_server in
    text_field ps 5 50 server.dns_str >>= λ dns_str. text_field ps 7 20 [] >>= λ mac.
    text_field ps 8 32 old.con_sys.host_sn >>= λ host_sn. read_mac mac net.dev_mac >>= λ dev_mac.
    some (record {
      con_net = record net {
        dev_ip = number_field sys_str2ip ps 0 net.dev_ip;
        dev_nm = number_field sys_str2ip ps 1 net.dev_nm;
        dev_gw = number_field sys_str2ip ps 2 net.dev_gw;
        dns =
            set (set net.dns 0 (number_field sys_str2ip ps 3 (get_or net.dns 0 0))) 1
              (number_field sys_str2ip ps 4 (get_or net.dns 1 0));
        dev_mac = dev_mac;
      };
      con_server = record server {
        server_port = number_field atoi_port ps 6 server.server_port;
        dns_str = dns_str;
      };
      con_sys = record old.con_sys { host_sn = host_sn };
    })

-- The end of `pc_set_dev_info`: a reboot, with the settings that `config_net_set` was called with.
pub data ToolStep : Type 0 where
  not_me quiet updating : ToolStep
  rebooted : Client → ConfigNet → ToolStep
  answered : List ℕ → ToolStep

unfoldable pub put_settings : Resolver → Settings → Client → Option ToolStep
unfolding dns_resolution
put_settings r new c =
    let conf = record c.conf { con_net = new.con_net; con_server = new.con_server } in
    dns_resolution r new.con_server.dns_str conf >>= λ d. some (
      ToolStep.rebooted (config_save (record c { conf = record d.1 { con_sys = new.con_sys } }))
        new.con_net)

abbrev pub settings_of : ConfiData → Settings
settings_of conf = record {
  con_net = conf.con_net;
  con_server = conf.con_server;
  con_sys = conf.con_sys;
}

abbrev rest_of : List (List ℕ) → List (List ℕ)
rest_of [] = []
rest_of (p ∷ ps) = ps

-- The first field is tested only if there is one.
abbrev for_me : List (List ℕ) → ℕ → Bool
for_me [] ip = true
for_me (p ∷ ps) ip = ip == sys_str2ip p

unfoldable pub pc_set_dev_info : Resolver → List ℕ → Client → Option ToolStep
unfolding strtok fill_settings put_settings sys_str2ip
pc_set_dev_info r recv_str c =
    let ps = strtok b'|' recv_str in
    if for_me ps c.conf.con_net.dev_ip
    then (fill_settings (rest_of ps) (settings_of c.conf) >>= λ new. put_settings r new c)
    else some ToolStep.not_me
