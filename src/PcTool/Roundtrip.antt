-- ===== src/PcTool/Roundtrip.antt =====
-- Settings that the tool sends to a device.
use itertk.Base.{
  ℕ, ◌^◌, ◌<◌, ◌≡◌, refl, true, some, List, [], ◌∷◌, arith, ltb, ◌==◌, length, get_or, set, set?,
  set?-some, Option, none, false, get_elem?, get_elem?-eq-get_or,
}
use itertk.Conf.{ConfiData, with_address}
use itertk.Client.{Client, config_save}
use itertk.Client.Dns.Lookup.{Resolver, IpCheck, ip_check, dns_resolution}
use itertk.Client.Dns.Looked.{Looked, dns_resolution-Looked}
use itertk.System.Address.{sys_ip2str_static}
use itertk.System.Address.Roundtrip.{str2ip-ip2str}
use itertk.PcTool.Report.{join, print_mac, print_port}
use itertk.PcTool.{
  Settings, ToolStep, settings_of, tokens_from, read_mac, fill_settings, put_settings,
  pc_set_dev_info,
}
use itertk.PcTool.Text.{Token, Tokens, strtok-join}
use itertk.PcTool.Addresses.{ip2str-Token}
use itertk.PcTool.Mac.{AllBytes, print_mac-Token, length-print_mac, read_mac-print_mac}
use itertk.PcTool.Port.{print_port-Token, atoi_port-print_port}

-- The settings that the tool can set, in the order of the message.
pub record Sent : Type 0 where
  pub dev_ip : ℕ
  pub dev_nm : ℕ
  pub dev_gw : ℕ
  pub dns_1 : ℕ
  pub dns_2 : ℕ
  pub dns_str : List ℕ
  pub server_port : ℕ
  pub mac_first : ℕ
  pub mac_rest : List ℕ
  pub host_sn : List ℕ

abbrev pub fields : Sent → List (List ℕ)
fields s =
    sys_ip2str_static s.dev_ip
    ∷ sys_ip2str_static s.dev_nm
    ∷ sys_ip2str_static s.dev_gw
    ∷ sys_ip2str_static s.dns_1
    ∷ sys_ip2str_static s.dns_2
    ∷ s.dns_str
    ∷ print_port s.server_port
    ∷ print_mac (s.mac_first ∷ s.mac_rest)
    ∷ s.host_sn
    ∷ []

-- The message for the device at an address.
abbrev pub request : ℕ → Sent → List ℕ
request ip s = join b'|' (sys_ip2str_static ip ∷ fields s)

-- What the message can carry: numbers in range, a hardware address of six bytes, and texts that are not
-- empty, have no separator and fit their arrays.
pub record Sendable (s : Sent) : Type 0 where
  pub ip_range : s.dev_ip < 2 ^ 32
  pub nm_range : s.dev_nm < 2 ^ 32
  pub gw_range : s.dev_gw < 2 ^ 32
  pub dns_1_range : s.dns_1 < 2 ^ 32
  pub dns_2_range : s.dns_2 < 2 ^ 32
  pub name : Token b'|' s.dns_str
  pub name_fits : ltb (length s.dns_str) 50 ≡ true
  pub port_range : s.server_port < 65536
  pub mac : AllBytes (s.mac_first ∷ s.mac_rest)
  pub six : length s.mac_rest ≡ 5
  pub sn : Token b'|' s.host_sn
  pub sn_fits : ltb (length s.host_sn) 32 ≡ true

-- The device's settings with those of the message in place of its own.
abbrev pub with_sent : Sent → Settings → Settings
with_sent s old = record {
  con_net = record old.con_net {
    dev_ip = s.dev_ip;
    dev_nm = s.dev_nm;
    dev_gw = s.dev_gw;
    dns = s.dns_1 ∷ s.dns_2 ∷ [];
    dev_mac = s.mac_first ∷ s.mac_rest;
  };
  con_server = record old.con_server { server_port = s.server_port; dns_str = s.dns_str };
  con_sys = record old.con_sys { host_sn = s.host_sn };
}

set-both : (l : List ℕ) (a b : ℕ) → length l ≡ 2 → set (set l 0 a) 1 b ≡ a ∷ b ∷ []
set-both [] a b h = absurd (omega (arith, h))
set-both (x ∷ []) a b h = absurd (omega (arith, h))
set-both (x ∷ y ∷ []) a b h = refl
set-both (x ∷ y ∷ z ∷ l) a b h = absurd (omega (arith, h))

fields-Tokens : (s : Sent) → Sendable s → Tokens b'|' (fields s)
fields-Tokens s h = (
  ip2str-Token s.dev_ip,
  (
    ip2str-Token s.dev_nm,
    (
      ip2str-Token s.dev_gw,
      (
        ip2str-Token s.dns_1,
        (
          ip2str-Token s.dns_2,
          (
            h.name,
            (
              print_port-Token s.server_port h.port_range,
              (print_mac-Token s.mac_first s.mac_rest h.mac, (h.sn, tt)),
            ),
          ),
        ),
      ),
    ),
  ),
)

-- Filling in the fields gives back the settings that were printed.
fill_settings-fields :
    (s : Sent) (old : Settings)
    → Sendable s
    → length old.con_net.dns ≡ 2
    → length old.con_net.dev_mac ≡ 6
    → fill_settings (fields s) old ≡ some (with_sent s old)
unfolding fill_settings
fill_settings-fields s old h d m =
    let len = length-print_mac s.mac_first s.mac_rest in
    let mac_fits : ltb (length (print_mac (s.mac_first ∷ s.mac_rest))) 20 ≡ true =
      ground (arith, len, h.six) in
    let six : length old.con_net.dev_mac ≡ length (s.mac_first ∷ s.mac_rest) =
      omega (arith, m, h.six) in
    rw
      (
        h.name_fits,
        mac_fits,
        h.sn_fits,
        read_mac-print_mac s.mac_first s.mac_rest old.con_net.dev_mac h.mac six,
        str2ip-ip2str s.dev_ip h.ip_range,
        str2ip-ip2str s.dev_nm h.nm_range,
        str2ip-ip2str s.dev_gw h.gw_range,
        str2ip-ip2str s.dns_1 h.dns_1_range,
        str2ip-ip2str s.dns_2 h.dns_2_range,
        set-both old.con_net.dns s.dns_1 s.dns_2 d,
        atoi_port-print_port s.server_port h.port_range,
      )
      refl

-- A message that starts with the device's own address makes the device go on with its settings in which
-- exactly those that the message was printed from are replaced.
pub pc_set_dev_info-request :
    (r : Resolver) (s : Sent) (c : Client)
    → Sendable s
    → c.conf.con_net.dev_ip < 2 ^ 32
    → length c.conf.con_net.dns ≡ 2
    → length c.conf.con_net.dev_mac ≡ 6
    → pc_set_dev_info r (request c.conf.con_net.dev_ip s) c
      ≡ put_settings r (with_sent s (settings_of c.conf)) c
unfolding pc_set_dev_info
pc_set_dev_info-request r s c h ip d m =
    let own = c.conf.con_net.dev_ip in
    let parts =
      strtok-join b'|' (sys_ip2str_static own ∷ fields s) (ip2str-Token own, fields-Tokens s h) in
    let me : (own == own) ≡ true = ground arith in
    rw (parts, str2ip-ip2str own ip, me, fill_settings-fields s (settings_of c.conf) h d m) refl

set-same : (l : List ℕ) → length l ≡ 2 → set (set l 0 (get_or l 0 0)) 1 (get_or l 1 0) ≡ l
set-same [] h = refl
set-same (x ∷ []) h = refl
set-same (x ∷ y ∷ l) h = refl

abbrev pub with_mac : List ℕ → ConfiData → ConfiData
with_mac mac conf = record conf { con_net = record conf.con_net { dev_mac = mac } }

-- The device saves such a configuration and reboots, with its network settings set up.
abbrev pub reboots : ConfiData → Client → Option ToolStep
reboots conf c = some (ToolStep.rebooted (config_save (record c { conf = conf })) conf.con_net)

-- How the taking over of a configuration ends: it is saved with the address that the lookup of its
-- server finds; or as it is, when the lookup fails; or a null pointer is read in the lookup.
pub data TakenOver (r : Resolver) (conf : ConfiData) (c : Client) : Option ToolStep → Type 0 where
  found :
      (ip : ℕ)
      → dns_resolution r conf.con_server.dns_str conf ≡ some (true, with_address conf ip)
      → TakenOver r conf c (reboots (with_address conf ip) c)
  lost :
      dns_resolution r conf.con_server.dns_str conf ≡ some (false, conf)
      → TakenOver r conf c (reboots conf c)
  crashed :
      ip_check conf.con_server.dns_str ≡ IpCheck.is_ip
      → r.host conf.con_server.dns_str ≡ none
      → TakenOver r conf c none

put_settings-TakenOver :
    (r : Resolver) (mac : List ℕ) (c : Client) (dns : ℕ)
    → get_elem? c.conf.con_net.dns 0 ≡ some dns
    → TakenOver r (with_mac mac c.conf) c (put_settings r (settings_of (with_mac mac c.conf)) c)
unfolding put_settings
put_settings-TakenOver r mac c dns d =
    let conf = with_mac mac c.conf in
    elim (dns_resolution-Looked r conf dns d) [
      | Looked.found ip e ↦ rw e (TakenOver.found ip e)
      | Looked.lost e ↦ rw e (TakenOver.lost e)
      | Looked.crashed q h e ↦ rw e (TakenOver.crashed q h)
    ]

-- A message that holds the device's own address and nothing else is taken too: the device saves its
-- configuration with the first byte of the hardware address replaced by 255 and reboots with such
-- network settings. Nothing else of the configuration is changed, except for the address of the alarm
-- server where the lookup of its name finds one. Only where that name is an address that
-- gethostbyname does not know does it read a null pointer instead.
pub short_message_breaks_mac :
    (r : Resolver) (c : Client) (b : ℕ) (bs : List ℕ)
    → c.conf.con_net.dev_ip < 2 ^ 32
    → length c.conf.con_net.dns ≡ 2
    → c.conf.con_net.dev_mac ≡ b ∷ bs
    → TakenOver r
        (with_mac (255 ∷ bs) c.conf)
        c
        (pc_set_dev_info r (sys_ip2str_static c.conf.con_net.dev_ip) c)
unfolding pc_set_dev_info fill_settings read_mac tokens_from
short_message_breaks_mac r c b bs ip d m =
    let own = c.conf.con_net.dev_ip in
    let parts = strtok-join b'|' (sys_ip2str_static own ∷ []) (ip2str-Token own, tt) in
    let me : (own == own) ≡ true = ground arith in
    let first : set? c.conf.con_net.dev_mac 0 255 ≡ some (255 ∷ bs) =
      rw m (set?-some (b ∷ bs) 0 255 (omega arith)) in
    let server : get_elem? c.conf.con_net.dns 0 ≡ some (get_or c.conf.con_net.dns 0 0) =
      get_elem?-eq-get_or c.conf.con_net.dns 0 0 (omega (arith, d)) in
    rw (parts, str2ip-ip2str own ip, me, first, set-same c.conf.con_net.dns d)
      (put_settings-TakenOver r (255 ∷ bs) c (get_or c.conf.con_net.dns 0 0) server)
