-- ===== src/Pages/Server/Accepted.antt =====
-- What the server page has checked when it reports success.
use itertk.Base.{
  ℕ, ◌<◌, ◌≡◌, ◌⊎◌, refl, subst, ap, ◌∙◌, Option, some, List, [], ◌∷◌, ◌++◌, leb, ◌==◌, ◌||◌, arith,
  codes, length, get_or, Bool-cases, Option-cases, inl, inr,
}
use itertk.Conf.{ConfigServer}
use itertk.Conf.Users.{CmdCode, code_number}
use itertk.Wire.{Step}
use itertk.System.Address.{sys_str2ip}
use itertk.Client.Dns.Lookup.{IpCheck-cases, ip_check, Resolver, its_dns}
use itertk.Itslib.{Page, Result}
use itertk.Itslib.Settings.{its_netinfo_query, its_conf_server_query, its_conf_server_set}
use itertk.Pages.{ℤ, pos, negsuc, Cgi, View, Alert, Reading, Runs, session_read, queried}
use itertk.Pages.Network.{zero_net}
use itertk.Pages.Server.{
  zero_server, read_server_port, with_server_ip, read_server_name, read_server, server_page,
  server_form, server_main,
}
use itertk.Pages.Outcome.{
  Step-cases, Step-done, pending-ne-done, fault-ne-done, take_form-Delivered, other_alerts,
  not_logged_in-ne-submitted, query_failed-ne-submitted, no_alert-ne-submitted,
}

-- A server that the page accepts: the name of the form, and a port that a server can have; its address
-- stands in the answer for the name's text or, for a name, in the name server's.
pub record Acceptable (r : Resolver) (cgi : Cgi) (s : ConfigServer) : Type 0 where
  pub name : s.dns_str ≡ cgi.form_string (codes "dns_str") 50
  pub port : cgi.form_integer (codes "server_port") 8888 ≡ pos s.server_port
  pub least : 0 < s.server_port
  pub most : s.server_port < 65535
  pub text : List ℕ
  pub address : s.server_ip ≡ sys_str2ip text
  pub found :
      (r.host s.dns_str ≡ some text)
      ⊎ ((dns : ℕ) × ((its_dns r s.dns_str dns ≡ some (some text)) × (length text < 14)))

ℤ-cases : (z : ℤ) → ((n : ℕ) × (z ≡ pos n)) ⊎ ((n : ℕ) × (z ≡ negsuc n))
ℤ-cases (pos n) = inl (n, refl)
ℤ-cases (negsuc n) = inr (n, refl)

refused-ne-accepted : {A : Type 0} {f : List ℕ} {a : A} → Reading.refused f ≡ Reading.accepted a → ⊥
refused-ne-accepted e = cc

accepted-inj : {A : Type 0} {a b : A} → Reading.accepted a ≡ Reading.accepted b → a ≡ b
accepted-inj e = cc

-- An accepted port is that of the form, from 1 to 65534.
record PortRead (cgi : Cgi) (c s : ConfigServer) : Type 0 where
  port : ℕ
  sent : cgi.form_integer (codes "server_port") 8888 ≡ pos port
  least : 0 < port
  most : port < 65535
  same : record c { server_port = port } ≡ s

read_server_port-PortRead :
    (cgi : Cgi) (c s : ConfigServer)
    → read_server_port cgi c ≡ Reading.accepted s
    → PortRead cgi c s
unfolding read_server_port
read_server_port-PortRead cgi c s e = elim (ℤ-cases (cgi.form_integer (codes "server_port") 8888)) [
  | inr (n, q) ↦ absurd (refused-ne-accepted (rw (q, read_server_port) at e))
  | inl (port, q) ↦ elim (Bool-cases (port == 0 || leb 65535 port)) [
    | inl bad ↦ absurd (refused-ne-accepted (rw (q, bad, read_server_port) at e))
    | inr good ↦ record {
      port = port;
      sent = q;
      least = ground arith;
      most = ground arith;
      same = accepted-inj (rw (q, good, read_server_port) at e);
    }
  ]
]

-- a port that was read, with the address
with_port :
    (r : Resolver) (cgi : Cgi) (c s : ConfigServer) (text : List ℕ)
    → let ip_str = cgi.form_string (codes "dns_str") 50 in
      (r.host ip_str ≡ some text)
        ⊎ ((dns : ℕ) × ((its_dns r ip_str dns ≡ some (some text)) × (length text < 14)))
      → read_server_port cgi (with_server_ip ip_str c text) ≡ Reading.accepted s
      → Acceptable r cgi s
with_port r cgi c s text found e =
    let ip_str = cgi.form_string (codes "dns_str") 50 in
    let p = read_server_port-PortRead cgi (with_server_ip ip_str c text) s e in
    subst (Acceptable r cgi) p.same (record {
      name = refl;
      port = p.sent;
      least = p.least;
      most = p.most;
      text = text;
      address = refl;
      found = found;
    })

read_server_name-Acceptable :
    (r : Resolver) (cgi : Cgi) (dns : ℕ) (c s : ConfigServer)
    → read_server_name r cgi dns c ≡ Step.done (Reading.accepted s)
    → Acceptable r cgi s
unfolding read_server_name
read_server_name-Acceptable r cgi dns c s e =
    let ip_str = cgi.form_string (codes "dns_str") 50 in
    elim (Option-cases (its_dns r ip_str dns)) [
      | inl endless ↦ absurd (pending-ne-done (rw (endless, read_server_name) at e))
      | inr (answer, a) ↦ elim (Option-cases answer) [
        | inl failed ↦
            absurd (refused-ne-accepted (Step-done (rw (a, failed, read_server_name) at e)))
        | inr (text, t) ↦ elim (Bool-cases (leb 14 (length text))) [
          | inl long ↦ absurd (fault-ne-done (rw (a, t, long, read_server_name) at e))
          | inr fits ↦
              with_port r cgi c s text (inr (dns, (a ∙ ap some t, ground arith)))
                (Step-done (rw (a, t, fits, read_server_name) at e))
        ]
      ]
    ]

read_server-Acceptable :
    (r : Resolver) (cgi : Cgi) (dns : ℕ) (c s : ConfigServer)
    → read_server r cgi dns c ≡ Step.done (Reading.accepted s)
    → Acceptable r cgi s
unfolding read_server
read_server-Acceptable r cgi dns c s e =
    let ip_str = cgi.form_string (codes "dns_str") 50 in
    elim (IpCheck-cases (ip_check ip_str)) [
      | inr (inl q) ↦ read_server_name-Acceptable r cgi dns c s (rw (q, read_server) at e)
      | inr (inr q) ↦ read_server_name-Acceptable r cgi dns c s (rw (q, read_server) at e)
      | inl q ↦ elim (Option-cases (r.host ip_str)) [
        | inl null ↦ absurd (fault-ne-done (rw (q, null, read_server) at e))
        | inr (text, h) ↦ with_port r cgi c s text (inl h) (Step-done (rw (q, h, read_server) at e))
      ]
    ]

-- A server page's success: the server that was sent is acceptable, and was acknowledged.
pub record ServerMade (r : Resolver) (session : Option (List ℕ)) (runs : Runs) (cgi : Cgi)
    (v : View ConfigServer) : Type 0 where
  pub name : List ℕ
  pub logged_in : session_read session ≡ some name
  pub server : ConfigServer
  pub acceptable : Acceptable r cgi server
  pub setting : Result
  pub sent : its_conf_server_set runs.second server ≡ Step.done setting
  pub success : setting.code ≡ code_number CmdCode.server_set_ok
  pub shown : v.shown ≡ some server

server_form-ServerMade :
    (r : Resolver) (session : Option (List ℕ)) (runs : Runs) (net : Page) (cgi : Cgi)
    (name : List ℕ) (c : ConfigServer) (talks : List Result) (v : View ConfigServer)
    → session_read session ≡ some name
    → server_form r runs net cgi name c talks ≡ Step.done v
    → v.alerts ≡ Alert.submitted ∷ []
    → ServerMade r session runs cgi v
unfolding server_form server_page
server_form-ServerMade r session runs net cgi name c talks v logged e a =
    elim (Step-cases (its_netinfo_query net name)) [
      | inr (inl q) ↦ absurd (pending-ne-done (rw (q, server_form) at e))
      | inr (inr q) ↦ absurd (fault-ne-done (rw (q, server_form) at e))
      | inl (n, q) ↦
          let dns = get_or (queried net.abi.net zero_net n).dns 0 0 in
          elim (Step-cases (read_server r cgi dns c)) [
            | inr (inl f) ↦ absurd (pending-ne-done (rw (q, f, server_form) at e))
            | inr (inr f) ↦ absurd (fault-ne-done (rw (q, f, server_form) at e))
            | inl (form, f) ↦
                let (server, taken, s) =
                  take_form-Delivered (server_page runs.first) runs name form (talks ++ (n ∷ [])) v
                    (rw (q, f, server_form) at e) a in
                record {
                  name = name;
                  logged_in = logged;
                  server = server;
                  acceptable = read_server-Acceptable r cgi dns c server (f ∙ ap Step.done taken);
                  setting = s.setting;
                  sent = s.sent;
                  success = s.success;
                  shown = ap (λ (w : View _). w.shown) s.view;
                }
          ]
    ]

-- The server page reports success only with a session, with a server whose port is from 1 to 65534 and
-- whose address was found for the name of the form, and if the command server has acknowledged it.
pub server_main-ServerMade :
    (r : Resolver) (session : Option (List ℕ)) (runs : Runs) (net : Page) (cgi : Cgi)
    (v : View ConfigServer)
    → server_main r session runs net cgi ≡ Step.done v
    → v.alerts ≡ Alert.submitted ∷ []
    → ServerMade r session runs cgi v
unfolding server_main
server_main-ServerMade r session runs net cgi v e a = elim (Option-cases (session_read session)) [
  | inl out ↦ absurd (other_alerts (rw (out, server_main) at e) not_logged_in-ne-submitted a)
  | inr (name, logged) ↦ elim (Step-cases (its_conf_server_query runs.first name)) [
    | inr (inl q) ↦ absurd (pending-ne-done (rw (logged, q, server_main) at e))
    | inr (inr q) ↦ absurd (fault-ne-done (rw (logged, q, server_main) at e))
    | inl (n, q) ↦ elim (Bool-cases (n.code == code_number CmdCode.query_ok)) [
      | inr bad ↦
          absurd (other_alerts (rw (logged, q, bad, server_main) at e) query_failed-ne-submitted a)
      | inl ok ↦ elim (Bool-cases (cgi.clicked (codes "server"))) [
        | inr still ↦
            absurd
              (other_alerts (rw (logged, q, ok, still, server_main) at e) no_alert-ne-submitted a)
        | inl button ↦
            server_form-ServerMade r session runs net cgi name
              (queried runs.first.abi.server zero_server n) (n ∷ []) v logged
              (rw (logged, q, ok, button, server_main) at e) a
      ]
    ]
  ]
]
