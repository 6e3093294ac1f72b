-- ===== src/Client/Dns/Resolution.antt =====
-- What `dns_resolution` does with a name, from the query to the stored address.
use itertk.Base.{ℕ, ◌+◌, ◌*◌, ◌<◌, ◌≡◌, ap, true, Option, some, List, ◌∷◌, get_elem?}
use itertk.Conf.{ConfiData, with_address}
use itertk.System.Address.Roundtrip.{str2ip-print_dotted}
use itertk.Client.Dns.{Quad, dns_packet, resolve}
use itertk.Client.Dns.Lookup.{IpCheck, ip_check, Resolver, its_dns, dns_by_name, dns_resolution}

-- The message that the name server gives for a name, and the length of the packet.
abbrev pub resolved : Resolver → List ℕ → ℕ → Option (Option Quad)
resolved r name dns =
    let packet = dns_packet name r.uninit_name r.uninit_packet in
    let answer = r.ask dns packet in resolve answer.0 packet.0 answer.1

abbrev pub address_of : Quad → ℕ
address_of q = q.part_1 + q.part_2 * 256 + q.part_3 * 65536 + q.part_4 * 16777216

-- A name that is no address, while the configuration holds a name: when the first name server's answer
-- resolves to a quad of bytes, exactly the server's address changes, to the word of these bytes.
pub dns_resolution-resolve :
    (r : Resolver) (name : List ℕ) (conf : ConfiData) (c : ℕ) (held : List ℕ) (dns : ℕ) (q : Quad)
    → ip_check name ≡ IpCheck.not_ip
    → conf.con_server.dns_str ≡ c ∷ held
    → get_elem? conf.con_net.dns 0 ≡ some dns
    → resolved r name dns ≡ some (some q)
    → q.part_1 < 256
    → q.part_2 < 256
    → q.part_3 < 256
    → q.part_4 < 256
    → dns_resolution r name conf ≡ some (true, with_address conf (address_of q))
unfolding dns_resolution dns_by_name its_dns
dns_resolution-resolve r name conf c held dns q n h d a h1 h2 h3 h4 =
    let text = str2ip-print_dotted q.part_1 q.part_2 q.part_3 q.part_4 h1 h2 h3 h4 in
    rw (n, h, d, a, dns_resolution, dns_by_name, its_dns, text)
      (ap
        (λ s. some (
          true,
          record conf {
            con_server = record conf.con_server { server_ip = address_of q; dns_str = s };
          },
        ))
        h)
