-- ===== src/Client/Dns/Looked.antt =====
-- How the lookup of the configured server ends: `dns_resolution` of nc600-2.0/src/client.c.
use itertk.Base.{
  ℕ, ◌≡◌, refl, ap, Bool, true, false, Option, none, some, List, [], ◌∷◌, get_elem?, Option-cases,
  inl, inr, ◌⊎◌,
}
use itertk.Conf.{ConfiData, with_address}
use itertk.System.Address.{sys_str2ip, print_dotted}
use itertk.Client.Dns.{dns_packet}
use itertk.Client.Dns.Answers.{resolve_total}
use itertk.Client.Dns.Lookup.{
  IpCheck, IpCheck-cases, ip_check, Resolver, its_dns, dns_by_name, dns_resolution,
}

-- What a lookup of the configured name leaves: the server has an address; it has failed and changed
-- nothing; or the name is an address that gethostbyname does not know, and a null pointer is read.
pub data Looked (r : Resolver) (conf : ConfiData) (d : Option (Bool × ConfiData)) : Type 0 where
  found : (ip : ℕ) → d ≡ some (true, with_address conf ip) → Looked r conf d
  lost : d ≡ some (false, conf) → Looked r conf d
  crashed :
      ip_check conf.con_server.dns_str ≡ IpCheck.is_ip
      → r.host conf.con_server.dns_str ≡ none
      → d ≡ none
      → Looked r conf d

-- The walk over the name server's answer ends.
its_dns-returns :
    (r : Resolver) (name : List ℕ) (dns : ℕ) → (a : Option (List ℕ)) × (its_dns r name dns ≡ some a)
unfolding its_dns
its_dns-returns r name dns =
    let packet = dns_packet name r.uninit_name r.uninit_packet in
    let answer = r.ask dns packet in
    let (q, e) = resolve_total answer.0 packet.0 answer.1 in
    elim (Option-cases q) [
      | inl unresolved ↦ (none, rw (e, unresolved, its_dns) refl)
      | inr (quad, f) ↦ (
        some (print_dotted quad.part_1 quad.part_2 quad.part_3 quad.part_4),
        rw (e, f, its_dns) refl,
      )
    ]

List-cases : (s : List ℕ) → (s ≡ []) ⊎ ((c : ℕ) × (t : List ℕ) × (s ≡ c ∷ t))
List-cases [] = inl refl
List-cases (c ∷ t) = inr (c, t, refl)

dns_by_name-Looked :
    (r : Resolver) (name : List ℕ) (conf : ConfiData) (dns : ℕ)
    → get_elem? conf.con_net.dns 0 ≡ some dns
    → Looked r conf (dns_by_name r name conf)
unfolding dns_by_name
dns_by_name-Looked r name conf dns d = elim (List-cases conf.con_server.dns_str) [
  | inl empty ↦ Looked.lost (
      rw (empty, dns_by_name)
        (ap (λ l. some (false, record conf { con_server = record conf.con_server { dns_str = l } }))
          empty))
  | inr (c, held, h) ↦
      let (answer, a) = its_dns-returns r name dns in
      elim (Option-cases answer) [
        | inl unresolved ↦ Looked.lost (
            rw (h, d, a, unresolved, dns_by_name)
              (ap
                (λ l.
                  some (false, record conf { con_server = record conf.con_server { dns_str = l } }))
                h))
        | inr (text, t) ↦ Looked.found (sys_str2ip text) (
            rw (h, d, a, t, dns_by_name)
              (ap
                (λ l. some (
                  true,
                  record conf {
                    con_server = record conf.con_server {
                      server_ip = sys_str2ip text;
                      dns_str = l;
                    };
                  },
                ))
                h))
      ]
]

-- A lookup of the configured name ends in one of the three ways, if there is a first name server.
pub dns_resolution-Looked :
    (r : Resolver) (conf : ConfiData) (dns : ℕ)
    → get_elem? conf.con_net.dns 0 ≡ some dns
    → Looked r conf (dns_resolution r conf.con_server.dns_str conf)
unfolding dns_resolution
dns_resolution-Looked r conf dns d =
    let name = conf.con_server.dns_str in
    elim (IpCheck-cases (ip_check name)) [
      | inl q ↦ elim (Option-cases (r.host name)) [
        | inl h ↦ Looked.crashed q h (rw (q, h, dns_resolution) refl)
        | inr (text, h) ↦ Looked.found (sys_str2ip text) (rw (q, h, dns_resolution) refl)
      ]
      | inr (inl q) ↦ rw (q, dns_resolution) (dns_by_name-Looked r name conf dns d)
      | inr (inr q) ↦ rw (q, dns_resolution) (dns_by_name-Looked r name conf dns d)
    ]
