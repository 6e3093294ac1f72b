-- ===== src/Client/Link/Reconnect.antt =====
-- When the client gives the server up, and how it gets a connection again.
use itertk.Base.{
  ℕ, ◌+◌, ◌≤◌, ◌≡◌, refl, ap, inl, inr, true, false, none, some, List, [], ◌∷◌, ◌++◌, arith, ltb,
  if◌then◌else◌, u16, Bool-cases,
}
use itertk.Conf.{with_address}
use itertk.Client.{Client, Event}
use itertk.Client.Link.{
  Attempt, tick, heartbeat_offline, heartbeat_default, drop_socket, attempt_result, reconnect_loop,
  client_reconnect, led_ctrl, resolved_to,
}

-- The silence so far does not exceed the period, and the period is a byte.
pub record Alive (c : Client) : Type 0 where
  pub within : c.heartbeat_timeout ≤ c.heartbeat_s
  pub byte : c.heartbeat_s ≤ 255

-- A second of silence keeps the count within the period, so its 16 bits never wrap.
pub tick-Alive : (c : Client) → Alive c → Alive (tick c)
unfolding tick
tick-Alive c a = ground arith

-- Within the period a second only counts; at its end the client is offline, with the default period
-- and a count of 0.
pub tick_lem :
    (c : Client)
    → Alive c
    → tick c ≡ (
        if ltb c.heartbeat_timeout c.heartbeat_s
        then record c { heartbeat_timeout = c.heartbeat_timeout + 1 }
        else record c {
          reconnect_flag = heartbeat_offline;
          heartbeat_s = heartbeat_default;
          heartbeat_timeout = 0;
        })
unfolding tick
tick_lem c a = elim (Bool-cases (ltb c.heartbeat_timeout c.heartbeat_s)) [
  | inl e ↦
      let f : ltb c.heartbeat_s (u16 (c.heartbeat_timeout + 1)) ≡ false = ground arith in
      let g : u16 (c.heartbeat_timeout + 1) ≡ c.heartbeat_timeout + 1 = ground arith in
      rw (e, f) (ap (λ t. record c { heartbeat_timeout = t }) g)
  | inr e ↦
      let f : ltb c.heartbeat_s (u16 (c.heartbeat_timeout + 1)) ≡ true = ground arith in rw (e, f)
]

-- An attempt that does not end with a connection.
abbrev pub Fails : Attempt → Type 0
Fails (Attempt.connected fd ip) = ⊥
Fails _ = Unit

abbrev pub AllFail : List Attempt → Type 0
AllFail [] = Unit
AllFail (a ∷ tries) = Fails a × AllFail tries

fail-result : (c : Client) (a : Attempt) → Fails a → (attempt_result c a).0 ≡ false
unfolding attempt_result
fail-result c Attempt.no_socket h = refl
fail-result c (Attempt.dns_failed fd) h = refl
fail-result c (Attempt.refused fd ip) h = refl
fail-result c (Attempt.connected fd ip) h = absurd h

-- A connection with descriptor `fd` to the server at `ip`, and what no attempt touches.
pub record Connected (fd ip : ℕ) (c c' : Client) : Type 0 where
  pub socket : c'.sockfd ≡ some fd
  pub conf : c'.conf ≡ with_address c.conf ip
  pub count_kept : c'.heartbeat_timeout ≡ c.heartbeat_timeout
  pub period_kept : c'.heartbeat_s ≡ c.heartbeat_s
  pub log_kept : c'.log ≡ c.log

connect-kept :
    (a : Attempt) (c : Client) (fd ip : ℕ) (c' : Client)
    → Connected fd ip (drop_socket (attempt_result c a).1) c'
    → Connected fd ip c c'
unfolding attempt_result
connect-kept Attempt.no_socket c fd ip c' h = ground arith
connect-kept (Attempt.dns_failed n) c fd ip c' h = ground arith
connect-kept (Attempt.refused n m) c fd ip c' h = ground arith
connect-kept (Attempt.connected n m) c fd ip c' h = ground arith

loop-connects :
    (tries rest : List Attempt) (fd ip : ℕ) (c : Client)
    → AllFail tries
    → (c' : Client) × (reconnect_loop (tries ++ (Attempt.connected fd ip ∷ rest)) c ≡ some c')
      × Connected fd ip c c'
unfolding reconnect_loop
loop-connects [] rest fd ip c h = (
  resolved_to ip (record c { sockfd = some fd }),
  unfold attempt_result in refl,
  record { socket = refl; conf = refl; count_kept = refl; period_kept = refl; log_kept = refl },
)
loop-connects (a ∷ tries) rest fd ip c h =
    let next = drop_socket (attempt_result c a).1 in
    let (c', e, k) = loop-connects tries rest fd ip next h.1 in
    (c', rw (fail-result c a h.0) e, connect-kept a c fd ip c' k)

loop-waits : (tries : List Attempt) (c : Client) → AllFail tries → reconnect_loop tries c ≡ none
unfolding reconnect_loop
loop-waits [] c h = refl
loop-waits (a ∷ tries) c h =
    rw (fail-result c a h.0) (loop-waits tries (drop_socket (attempt_result c a).1) h.1)

-- `client_reconnect` returns after the first attempt that connects, however many fail before it, with
-- that attempt's descriptor, the LED switched off, the address that the attempt's lookup gave stored,
-- and the rest of the configuration and the heartbeat as they were; while all attempts fail it does
-- not return.
pub client_reconnect_lem :
    (tries rest : List Attempt) (fd ip : ℕ) (c : Client)
    → AllFail tries
    → (client_reconnect tries c ≡ none)
      × ((c' : Client) × (client_reconnect (tries ++ (Attempt.connected fd ip ∷ rest)) c ≡ some c')
          × Connected fd ip (record c { log = Event.gpio 34 1 ∷ c.log }) c')
unfolding client_reconnect
client_reconnect_lem tries rest fd ip c h =
    let start = led_ctrl 34 1 (drop_socket c) in
    let (c', e, k) = loop-connects tries rest fd ip start h in
    (loop-waits tries start h, (c', e, ground (arith, k)))
