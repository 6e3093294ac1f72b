-- ===== src/Client/Dns/Lookup.antt =====
-- The lookup of the alarm server's name: `ip_check`, `its_dns` and `dns_resolution` of
-- nc600-2.0/src/client.c.
use itertk.Base.{
  ◌≡◌, ◌⊎◌, inl, inr, refl, ℕ, ◌+◌, ◌-◌, ◌*◌, Bool, true, false, Option, none, some, List, [], ◌∷◌,
  Buf, ltb, ◌==◌, if◌then◌else◌, get_elem?,
}
use itertk.System.Address.{is_digit, sys_str2ip, print_dotted}
use itertk.Conf.{ConfiData}
use itertk.Client.Dns.{dns_packet, resolve}

-- TRUE, FALSE, and the -1 that one branch returns.
pub data IpCheck : Type 0 where
  is_ip not_ip minus_one : IpCheck

pub IpCheck-cases :
    (c : IpCheck) → (c ≡ IpCheck.is_ip) ⊎ ((c ≡ IpCheck.not_ip) ⊎ (c ≡ IpCheck.minus_one))
IpCheck-cases IpCheck.is_ip = inl refl
IpCheck-cases IpCheck.not_ip = inr (inl refl)
IpCheck-cases IpCheck.minus_one = inr (inr refl)

-- The loop: the number read so far, the dots, the digits, and the digits since the last dot.
unfoldable pub ip_loop : List ℕ → ℕ → ℕ → ℕ → ℕ → IpCheck
ip_loop [] d dots digits since =
    if dots == 3 then (if since == 0 then IpCheck.not_ip else IpCheck.is_ip) else IpCheck.not_ip
ip_loop (c ∷ s) d dots digits since =
    let digit = ip_loop s (10 * d + (c - b'0')) dots (digits + 1) (since + 1) in
    let dot = ip_loop s 0 (dots + 1) digits 0 in
    if is_digit c
    then (if ltb 255 (10 * d + (c - b'0')) then IpCheck.not_ip else digit)
    else if c == b'.'
    then (if ltb digits (dots + 1)
        then IpCheck.not_ip
        else if since == 0
        then IpCheck.minus_one
        else dot)
    else IpCheck.not_ip

unfoldable pub ip_check : List ℕ → IpCheck
unfolding ip_loop
ip_check ip = ip_loop ip 0 0 0 0

-- What the C library and the name server answer: the text of the first address of `gethostbyname` (a
-- null pointer is none), and the message to a packet, with its length; and what the two local buffers
-- hold before they are filled.
pub record Resolver : Type 0 where
  pub host : List ℕ → Option (List ℕ)
  pub ask : ℕ → ℕ × Buf → Buf × ℕ
  pub uninit_name : Buf
  pub uninit_packet : Buf

-- `its_dns`: the text that it writes for the address, none for DNS_FAILED; the outer none is a walk
-- over the answer that does not end.
unfoldable pub its_dns : Resolver → List ℕ → ℕ → Option (Option (List ℕ))
unfolding dns_packet resolve
its_dns r www dns =
    let packet = dns_packet www r.uninit_name r.uninit_packet in
    let answer = r.ask dns packet in
    elim (resolve answer.0 packet.0 answer.1) [
      | none ↦ none
      | some none ↦ some none
      | some (some q) ↦ some (some (print_dotted q.part_1 q.part_2 q.part_3 q.part_4))
    ]

-- The branch for a name. The test for an empty one looks at the configuration's name.
unfoldable pub dns_by_name : Resolver → List ℕ → ConfiData → Option (Bool × ConfiData)
unfolding its_dns sys_str2ip
dns_by_name r dns_str conf =
    let server = conf.con_server in
    elim server.dns_str [
      | [] ↦ some (false, conf)
      | _ ∷ _ ↦ elim (get_elem? conf.con_net.dns 0) [
        | none ↦ none
        | some dns ↦ elim (its_dns r dns_str dns) [
          | none ↦ none
          | some none ↦ some (false, conf)
          | some (some text) ↦
              some
                (true, record conf { con_server = record server { server_ip = sys_str2ip text } })
        ]
      ]
    ]

-- `dns_resolution`: true for DNS_OK. None is a null pointer, or a walk that does not end.
unfoldable pub dns_resolution : Resolver → List ℕ → ConfiData → Option (Bool × ConfiData)
unfolding ip_check dns_by_name sys_str2ip
dns_resolution r dns_str conf =
    let server = conf.con_server in
    elim (ip_check dns_str) [
      | IpCheck.is_ip ↦ elim (r.host dns_str) [
        | none ↦ none
        | some text ↦ some (
          true,
          record conf {
            con_server = record server { server_ip = sys_str2ip text; dns_str = dns_str };
          },
        )
      ]
      | other ↦ dns_by_name r dns_str conf
    ]
