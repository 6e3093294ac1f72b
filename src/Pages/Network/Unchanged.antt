-- ===== src/Pages/Network/Unchanged.antt =====
-- The network page, sent back as it is shown.
use itertk.Base.{
  ℕ, ◌/◌, ◌%◌, ◌^◌, ◌<◌, ◌≡◌, refl, true, Option, some, List, [], ◌∷◌, arith, u8, codes, length,
}
use itertk.Conf.{ConfigNet}
use itertk.System.Address.{sys_ip2str_static, ip_byte}
use itertk.System.Address.Roundtrip.{str2ip-ip2str}
use itertk.Client.Dns.Lookup.{IpCheck, ip_check}
use itertk.Client.Dns.Dotted.{ip_check-print_dotted}
use itertk.PcTool.Report.{join, hex_digit, print_bytes, print_mac}
use itertk.PcTool.Text.{strtok-join}
use itertk.PcTool.Mac.{AllBytes, print_bytes-Tokens, str2hex-print_hex}
use itertk.Pages.{Cgi, Reading}
use itertk.Pages.Controls.{sent_value, unchanged, choice_of, Reads, OneLine}
use itertk.Pages.Each.{each_same}
use itertk.Pages.Texts.{ip2str-Line}
use itertk.Pages.Port.{yes_no_texts, indices}
use itertk.Pages.Network.{
  show_net, is_mac, mac_str_check, get_mac_loop, get_mac, read_address, read_hardware, read_net,
}

ip_check-ip2str : (ip : ℕ) → ip_check (sys_ip2str_static ip) ≡ IpCheck.is_ip
unfolding sys_ip2str_static
ip_check-ip2str ip =
    ip_check-print_dotted (ip_byte ip 0) (ip_byte ip 1) (ip_byte ip 2) (ip_byte ip 3) (omega arith)
      (omega arith) (omega arith) (omega arith)

-- A field that shows an address gives it back.
read_address-shown :
    (cgi : Cgi) (form : List ℕ → Option (List ℕ)) (name : List ℕ) (ip : ℕ)
    → Reads cgi form
    → form name ≡ some (sys_ip2str_static ip)
    → ip < 2 ^ 32
    → read_address cgi name ≡ some ip
unfolding read_address
read_address-shown cgi form name ip r f h =
    let line = ip2str-Line ip in
    let e = r.string name (sys_ip2str_static ip) 30 f line.plain (omega (arith, line.short)) in
    rw (e, ip_check-ip2str ip, e, str2ip-ip2str ip h, read_address) refl

is_mac-hex_digit : (d : ℕ) → d < 16 → is_mac (hex_digit d) ≡ true
is_mac-hex_digit d h = ground arith

-- Two digits of a byte at a place of digits.
byte-is_mac :
    (n : ℕ) → n < 256 → (is_mac (hex_digit (n / 16)) ≡ true) × (is_mac (hex_digit (n % 16)) ≡ true)
byte-is_mac n h = (is_mac-hex_digit (n / 16) (omega arith), is_mac-hex_digit (n % 16) (omega arith))

mac_str_check-print_mac :
    (a b c d e f : ℕ)
    → AllBytes (a ∷ b ∷ c ∷ d ∷ e ∷ f ∷ [])
    → mac_str_check (print_mac (a ∷ b ∷ c ∷ d ∷ e ∷ f ∷ [])) ≡ true
unfolding mac_str_check print_mac
mac_str_check-print_mac a b c d e f (ha, (hb, (hc, (hd, (he, (hf, _)))))) =
    let (a1, a2) = byte-is_mac a ha in
    let (b1, b2) = byte-is_mac b hb in
    let (c1, c2) = byte-is_mac c hc in
    let (d1, d2) = byte-is_mac d hd in
    let (e1, e2) = byte-is_mac e he in
    let (f1, f2) = byte-is_mac f hf in rw (a1, a2, b1, b2, c1, c2, d1, d2, e1, e2, f1, f2) refl

get_mac-print_mac :
    (a b c d e f : ℕ)
    → AllBytes (a ∷ b ∷ c ∷ d ∷ e ∷ f ∷ [])
    → get_mac (print_mac (a ∷ b ∷ c ∷ d ∷ e ∷ f ∷ [])) (a ∷ b ∷ c ∷ d ∷ e ∷ f ∷ [])
      ≡ some (a ∷ b ∷ c ∷ d ∷ e ∷ f ∷ [])
unfolding get_mac print_mac
get_mac-print_mac a b c d e f h =
    let low : (n : ℕ) → n < 256 → u8 n ≡ n = λ n k. omega (arith, k) in
    let (ha, (hb, (hc, (hd, (he, (hf, _)))))) = h in
    rw
      (
        strtok-join b':' (print_bytes (a ∷ b ∷ c ∷ d ∷ e ∷ f ∷ []))
            (print_bytes-Tokens (a ∷ b ∷ c ∷ d ∷ e ∷ f ∷ []) h),
        str2hex-print_hex a ha,
        str2hex-print_hex b hb,
        str2hex-print_hex c hc,
        str2hex-print_hex d hd,
        str2hex-print_hex e he,
        str2hex-print_hex f hf,
        low a ha,
        low b hb,
        low c hc,
        low d hd,
        low e he,
        low f hf,
        get_mac_loop,
      )
      refl

-- Yes and no, read back.
pub yes_no-back :
    (n : ℕ) → n < 2 → choice_of (sent_value (indices yes_no_texts n)) yes_no_texts 0 ≡ n
yes_no-back n h =
    each_same (λ k. choice_of (sent_value (indices yes_no_texts k)) yes_no_texts 0) (0 ∷ 1 ∷ []) n
      (ground arith) refl

OneLine-hex_digit : (d : ℕ) → 13 < hex_digit d
OneLine-hex_digit d = ground arith

print_bytes-OneLine : (mac : List ℕ) → OneLine (join b':' (print_bytes mac))
print_bytes-OneLine [] = tt
print_bytes-OneLine (b ∷ []) = (OneLine-hex_digit (b / 16), (OneLine-hex_digit (b % 16), tt))
print_bytes-OneLine (b ∷ c ∷ mac) = (
  OneLine-hex_digit (b / 16),
  (OneLine-hex_digit (b % 16), (omega arith, print_bytes-OneLine (c ∷ mac))),
)

print_mac-OneLine : (mac : List ℕ) → OneLine (print_mac mac)
unfolding print_mac
print_mac-OneLine mac = print_bytes-OneLine mac

print_mac-short : (a b c d e f : ℕ) → length (print_mac (a ∷ b ∷ c ∷ d ∷ e ∷ f ∷ [])) < 30
unfolding print_mac
print_mac-short a b c d e f = omega arith

read_hardware-shown :
    (cgi : Cgi) (form : List ℕ → Option (List ℕ)) (a b c d e f : ℕ)
    → Reads cgi form
    → form (codes "dev_mac") ≡ some (print_mac (a ∷ b ∷ c ∷ d ∷ e ∷ f ∷ []))
    → AllBytes (a ∷ b ∷ c ∷ d ∷ e ∷ f ∷ [])
    → read_hardware cgi (a ∷ b ∷ c ∷ d ∷ e ∷ f ∷ []) ≡ some (a ∷ b ∷ c ∷ d ∷ e ∷ f ∷ [])
unfolding read_hardware
read_hardware-shown cgi form a b c d e f r shows h =
    let eq =
      r.string (codes "dev_mac") (print_mac (a ∷ b ∷ c ∷ d ∷ e ∷ f ∷ [])) 30 shows
        (print_mac-OneLine (a ∷ b ∷ c ∷ d ∷ e ∷ f ∷ [])) (print_mac-short a b c d e f) in
    rw (eq, mac_str_check-print_mac a b c d e f h, get_mac-print_mac a b c d e f h) refl

-- The network page's form, sent back as it is shown, changes nothing.
pub read_net-show_net :
    (cgi : Cgi) (n : ConfigNet) (d0 d1 a b c d e f : ℕ)
    → Reads cgi (
        unchanged
          (show_net (record n { dns = d0 ∷ d1 ∷ []; dev_mac = a ∷ b ∷ c ∷ d ∷ e ∷ f ∷ [] })))
    → n.dev_ip < 2 ^ 32
    → n.dev_nm < 2 ^ 32
    → n.dev_gw < 2 ^ 32
    → d0 < 2 ^ 32
    → d1 < 2 ^ 32
    → n.dev_dhcp < 2
    → AllBytes (a ∷ b ∷ c ∷ d ∷ e ∷ f ∷ [])
    → read_net cgi (record n { dns = d0 ∷ d1 ∷ []; dev_mac = a ∷ b ∷ c ∷ d ∷ e ∷ f ∷ [] })
      ≡ Reading.accepted (record n { dns = d0 ∷ d1 ∷ []; dev_mac = a ∷ b ∷ c ∷ d ∷ e ∷ f ∷ [] })
unfolding read_net show_net
read_net-show_net cgi n d0 d1 a b c d e f r ip nm gw h0 h1 dhcp bytes =
    let net : ConfigNet = record n { dns = d0 ∷ d1 ∷ []; dev_mac = a ∷ b ∷ c ∷ d ∷ e ∷ f ∷ [] } in
    let form = unchanged (show_net net) in
    rw
      (
        read_address-shown cgi form (codes "host_ip") n.dev_ip r refl ip,
        read_address-shown cgi form (codes "host_netmask") n.dev_nm r refl nm,
        read_address-shown cgi form (codes "host_dev_gw") n.dev_gw r refl gw,
        read_address-shown cgi form (codes "host_dns0") d0 r refl h0,
        read_address-shown cgi form (codes "host_dns1") d1 r refl h1,
        r.select (codes "dev_dhcp") yes_no_texts 0,
        yes_no-back n.dev_dhcp dhcp,
        read_hardware-shown cgi form a b c d e f r refl bytes,
      )
      refl
