-- ===== src/Client/Link/Connect.antt =====
-- The steps of `client_connect_server` of nc600-2.0/src/client.c, and that an attempt says all about them.
use itertk.Base.{
  ℕ, arith, ◌≡◌, ◌≢◌, refl, sym, ◌∙◌, ap, Bool, true, false, ◌&&◌, Option, none, some, List, ◌==◌,
  if◌then◌else◌, get_elem?, Bool-cases, inl, inr, ◌⊎◌,
}
use itertk.Conf.{with_address}
use itertk.Client.{Client}
use itertk.Client.Link.{Attempt, attempt_result, reconnect_on, drop_socket}
use itertk.Client.Dns.Looked.{Looked, dns_resolution-Looked}
use itertk.Client.Dns.Lookup.{IpCheck, ip_check, Resolver, dns_resolution}

-- `connect` on the non-blocking socket, and one `poll`.
pub data Connecting : Type 0 where
  stands in_progress failed : Connecting

pub data Polled : Type 0 where
  timeout failed : Polled
  ready : Bool → Polled

-- What the calls answer: the second `fcntl` (true unless it fails), `connect`, `poll` (with whether one
-- of the three error events is set), and `getsockopt` with the socket's error (none for -1).
pub record Calls : Type 0 where
  pub nonblocking : Bool
  pub connecting : Connecting
  pub polled : Polled
  pub socket_error : Option ℕ

abbrev connected_by : Calls → Bool
connected_by calls =
    calls.nonblocking
    && (elim calls.connecting [ Connecting.failed ↦ false | other ↦ true ]
        && (elim calls.polled [ Polled.ready event ↦ if event then false else true | other ↦ false ]
            && (elim calls.socket_error [ none ↦ false | some error ↦ error == 0 ])))

-- `client_connect_server`, where `socket` gives a descriptor or fails; none where the lookup does not
-- return or reads a null pointer. The Boolean is true for SUCCESS.
unfoldable pub client_connect_server : Resolver → Option ℕ → Calls → Client → Option (Bool × Client)
unfolding dns_resolution
client_connect_server r none calls c = some (false, record c { sockfd = none })
client_connect_server r (some fd) calls c =
    let c1 = record c { sockfd = some fd } in
    elim (dns_resolution r c.conf.con_server.dns_str c.conf) [
      | none ↦ none
      | some (false, conf) ↦ some (false, record c1 { conf = conf })
      | some (true, conf) ↦
          let c2 = record c1 { conf = conf } in
          if connected_by calls
          then some (true, c2)
          else some (false, drop_socket (record c2 { reconnect_flag = reconnect_on }))
    ]

true-ne-false : true ≡ false → ⊥
true-ne-false e = cc

-- What the calls have to answer for a connection.
pub record Succeeds (calls : Calls) : Type 0 where
  pub set_up : calls.nonblocking ≡ true
  pub started : calls.connecting ≢ Connecting.failed
  pub writable : calls.polled ≡ Polled.ready false
  pub no_error : calls.socket_error ≡ some 0

-- The test of the results one by one is the test that they are those of a connection.
started-cases :
    (c : Connecting)
    → ((c ≢ Connecting.failed) × (elim c [ Connecting.failed ↦ false | other ↦ true ] ≡ true))
      ⊎ ((c ≡ Connecting.failed) × (elim c [ Connecting.failed ↦ false | other ↦ true ] ≡ false))
started-cases Connecting.failed = inr (refl, refl)
started-cases Connecting.stands = inl ((λ e. cc), refl)
started-cases Connecting.in_progress = inl ((λ e. cc), refl)

polled-ready :
    (p : Polled)
    → elim p [ Polled.ready event ↦ if event then false else true | other ↦ false ] ≡ true
    → p ≡ Polled.ready false
polled-ready Polled.timeout e = cc
polled-ready Polled.failed e = cc
polled-ready (Polled.ready true) e = cc
polled-ready (Polled.ready false) e = refl

error-none : (s : Option ℕ) → elim s [ none ↦ false | some error ↦ error == 0 ] ≡ true → s ≡ some 0
error-none none e = cc
error-none (some n) e = let z : n ≡ 0 = ground arith in ap some z

connected_by→Succeeds : (calls : Calls) → connected_by calls ≡ true → Succeeds calls
connected_by→Succeeds calls e = elim (started-cases calls.connecting) [
  | inl (s, t) ↦ record {
    set_up = ground (arith, e, t);
    started = s;
    writable = polled-ready calls.polled (ground (arith, e, t));
    no_error = error-none calls.socket_error (ground (arith, e, t));
  }
  | inr (s, t) ↦ absurd (ground (arith, e, t))
]

Succeeds→connected_by : (calls : Calls) → Succeeds calls → connected_by calls ≡ true
Succeeds→connected_by calls h = elim (started-cases calls.connecting) [
  | inl (s, t) ↦ rw (h.set_up, t, h.writable, h.no_error) refl
  | inr (s, t) ↦ absurd (h.started s)
]

-- Which attempt a call is: by the socket, by what the lookup leaves, and by what the calls answer.
pub data IsAttempt (r : Resolver) (sock : Option ℕ) (calls : Calls) (c : Client)
    : Attempt → Type 0 where
  no_socket : sock ≡ none → IsAttempt r sock calls c Attempt.no_socket
  dns_failed :
      (fd : ℕ)
      → sock ≡ some fd
      → dns_resolution r c.conf.con_server.dns_str c.conf ≡ some (false, c.conf)
      → IsAttempt r sock calls c (Attempt.dns_failed fd)
  refused :
      (fd ip : ℕ)
      → sock ≡ some fd
      → dns_resolution r c.conf.con_server.dns_str c.conf ≡ some (true, with_address c.conf ip)
      → ¬ Succeeds calls
      → IsAttempt r sock calls c (Attempt.refused fd ip)
  connected :
      (fd ip : ℕ)
      → sock ≡ some fd
      → dns_resolution r c.conf.con_server.dns_str c.conf ≡ some (true, with_address c.conf ip)
      → Succeeds calls
      → IsAttempt r sock calls c (Attempt.connected fd ip)

-- A name that is an address which gethostbyname does not know: a null pointer is read.
pub record Crashes (r : Resolver) (sock : Option ℕ) (name : List ℕ) : Type 0 where
  pub fd : ℕ
  pub opened : sock ≡ some fd
  pub address : ip_check name ≡ IpCheck.is_ip
  pub unknown : r.host name ≡ none

-- With a first name server, a call of `client_connect_server` does exactly what one attempt of the
-- reconnection loop says. That is the one without a socket if there is none; else the one whose lookup
-- failed if the lookup gives no address; else the one that connected, to the address found, if the
-- socket was made non-blocking, connect did not fail, poll reported it ready without an error event and
-- getsockopt the error 0; and else the refused one. Or the configured name is an address that
-- gethostbyname does not know, and a null pointer is read.
pub client_connect_server-attempt_result :
    (r : Resolver) (sock : Option ℕ) (calls : Calls) (c : Client) (dns : ℕ)
    → get_elem? c.conf.con_net.dns 0 ≡ some dns
    → ((a : Attempt) × IsAttempt r sock calls c a
        × (client_connect_server r sock calls c ≡ some (attempt_result c a)))
      ⊎ (Crashes r sock c.conf.con_server.dns_str × (client_connect_server r sock calls c ≡ none))
unfolding client_connect_server attempt_result
client_connect_server-attempt_result r none calls c dns d =
    inl (Attempt.no_socket, IsAttempt.no_socket refl, refl)
client_connect_server-attempt_result r (some fd) calls c dns d =
    elim (dns_resolution-Looked r c.conf dns d) [
      | Looked.lost e ↦ inl (
        Attempt.dns_failed fd,
        IsAttempt.dns_failed fd refl e,
        rw (e, client_connect_server) refl,
      )
      | Looked.found ip e ↦ elim (Bool-cases (connected_by calls)) [
        | inl good ↦ inl (
          Attempt.connected fd ip,
          IsAttempt.connected fd ip refl e (connected_by→Succeeds calls good),
          rw (e, good, client_connect_server) refl,
        )
        | inr bad ↦ inl (
          Attempt.refused fd ip,
          IsAttempt.refused fd ip refl e
              (λ s. true-ne-false (sym (Succeeds→connected_by calls s) ∙ bad)),
          rw (e, bad, client_connect_server) refl,
        )
      ]
      | Looked.crashed q h e ↦ inr (
        record { fd = fd; opened = refl; address = q; unknown = h },
        rw (e, client_connect_server) refl,
      )
    ]
