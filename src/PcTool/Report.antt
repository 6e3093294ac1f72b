-- ===== src/PcTool/Report.antt =====
-- What a device answers to the tool, and the loop of `report_proc`.
use itertk.Base.{
  ℕ, ◌+◌, ◌-◌, ◌/◌, ◌%◌, Bool, true, false, Option, none, some, List, [], ◌∷◌, ◌++◌, ltb, ◌==◌,
  ◌&&◌, ◌||◌, if◌then◌else◌, codes, str_eq, get_or,
}
use itertk.Conf.{ConfiData}
use itertk.Client.{Client}
use itertk.Client.Dns.Lookup.{Resolver}
use itertk.System.Address.{sys_ip2str_static}
use itertk.Wire.Packet.{c_string}
use itertk.PcTool.{ToolStep, pc_set_dev_info}

abbrev pub hex_digit : ℕ → ℕ
hex_digit d = if ltb d 10 then b'0' + d else b'a' + (d - 10)

-- `%02x` of a byte
abbrev pub print_hex : ℕ → List ℕ
print_hex n = hex_digit (n / 16) ∷ hex_digit (n % 16) ∷ []

-- `%d` of a `WORD`
unfoldable pub print_port : ℕ → List ℕ
print_port n =
    let d1 = (b'0' + n % 10) ∷ [] in
    let d2 = (b'0' + n / 10 % 10) ∷ d1 in
    let d3 = (b'0' + n / 100 % 10) ∷ d2 in
    let d4 = (b'0' + n / 1000 % 10) ∷ d3 in
    if ltb n 10
    then d1
    else if ltb n 100
    then d2
    else if ltb n 1000
    then d3
    else if ltb n 10000
    then d4
    else (b'0' + n / 10000) ∷ d4

-- texts with a separator between them
abbrev pub join : ℕ → List (List ℕ) → List ℕ
join sep [] = []
join sep (s ∷ []) = s
join sep (s ∷ t ∷ ts) = s ++ (sep ∷ join sep (t ∷ ts))

abbrev pub print_bytes : List ℕ → List (List ℕ)
print_bytes [] = []
print_bytes (b ∷ bs) = print_hex b ∷ print_bytes bs

unfoldable pub print_mac : List ℕ → List ℕ
print_mac mac = join b':' (print_bytes mac)

unfoldable pub pc_get_dev_info : ConfiData → List ℕ
unfolding sys_ip2str_static print_port print_mac
pc_get_dev_info conf =
    let net = conf.con_net in
    join b'|' (
      sys_ip2str_static net.dev_ip
      ∷ sys_ip2str_static net.dev_nm
      ∷ sys_ip2str_static net.dev_gw
      ∷ sys_ip2str_static (get_or net.dns 0 0)
      ∷ sys_ip2str_static (get_or net.dns 1 0)
      ∷ conf.con_server.dns_str
      ∷ print_port conf.con_server.server_port
      ∷ print_mac net.dev_mac
      ∷ codes "v4.00"
      ∷ conf.con_sys.host_sn
      ∷ [])

abbrev starts_with : List ℕ → List ℕ → Bool
starts_with [] s = true
starts_with (c ∷ p) [] = false
starts_with (c ∷ p) (d ∷ s) = c == d && starts_with p s

-- `strstr(s, p) != NULL`
abbrev contains : List ℕ → List ℕ → Bool
contains [] p = starts_with p []
contains (c ∷ s) p = starts_with p (c ∷ s) || contains s p

-- One turn of `report_proc`. A failed `recvfrom` gives -1, which is not below 1 as an unsigned number:
-- the byte at that offset is written, which is the outer none.
unfoldable pub report_turn : Resolver → Option (List ℕ) → Client → Option ToolStep
unfolding pc_set_dev_info pc_get_dev_info c_string
report_turn r none c = none
report_turn r (some []) c = some ToolStep.quiet
report_turn r (some (b ∷ bs)) c =
    let recmsg = c_string (b ∷ bs) in
    if str_eq recmsg (codes "hello")
    then some (ToolStep.answered (pc_get_dev_info c.conf))
    else if contains recmsg (codes "update")
    then some ToolStep.updating
    else pc_set_dev_info r recmsg c
