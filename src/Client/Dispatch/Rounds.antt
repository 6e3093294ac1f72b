-- ===== src/Client/Dispatch/Rounds.antt =====
-- Rounds of the loop in which nothing is received.
use itertk.Base.{
  ℕ, zero, suc, ◌+◌, ◌-◌, ◌≤◌, ◌<◌, ◌≡◌, ◌≢◌, refl, ◌∙◌, ap, true, false, Option, some, List, ◌∷◌,
  ◌++◌, arith, ltb, ◌==◌, ◌>>=◌,
}
use itertk.Client.{Client, Env}
use itertk.Client.Link.{
  Attempt, is_open, keep_connected, reconnect_on, reconnect_off, heartbeat_offline,
  heartbeat_default,
}
use itertk.Client.Link.Reconnect.{Alive, AllFail, tick_lem, client_reconnect_lem}
use itertk.Client.Dispatch.{Input, process_input, process_round}

-- `n` rounds with nothing to read
abbrev pub silent_rounds : ℕ → Env → List Attempt → Client → Option Client
silent_rounds zero env tries c = some c
silent_rounds (suc n) env tries c =
    process_round env tries Input.silent c >>= λ c'. silent_rounds n env tries c'

-- The client has an open socket and no reason to reconnect.
pub record Online (c : Client) : Type 0 where
  pub alive : Alive c
  pub open_socket : is_open c.sockfd ≡ true
  pub not_on : c.reconnect_flag ≢ reconnect_on
  pub not_offline : c.reconnect_flag ≢ heartbeat_offline

quiet_round :
    (env : Env) (tries : List Attempt) (c : Client)
    → Online c
    → c.heartbeat_timeout < c.heartbeat_s
    → process_round env tries Input.silent c
      ≡ some (record c { heartbeat_timeout = c.heartbeat_timeout + 1 })
unfolding process_round keep_connected process_input
quiet_round env tries c o h =
    let under : ltb c.heartbeat_timeout c.heartbeat_s ≡ true = ground arith in
    let a : (c.reconnect_flag == reconnect_on) ≡ false = ground (arith, o.not_on) in
    let b : (c.reconnect_flag == heartbeat_offline) ≡ false = ground (arith, o.not_offline) in
    rw (tick_lem c o.alive) (rw under (rw (a, b, o.open_socket)))

count-Online :
    (c : Client)
    → Online c
    → (k : ℕ) → k ≤ c.heartbeat_s
    → Online (record c { heartbeat_timeout = k })
count-Online c o k h = record {
  alive = record { within = h; byte = o.alive.byte };
  open_socket = o.open_socket;
  not_on = o.not_on;
  not_offline = o.not_offline;
}

-- Silent rounds within the period only count them.
silent_rounds_count :
    (n : ℕ) (env : Env) (tries : List Attempt) (c : Client)
    → Online c
    → c.heartbeat_timeout + n ≤ c.heartbeat_s
    → silent_rounds n env tries c ≡ some (record c { heartbeat_timeout = c.heartbeat_timeout + n })
silent_rounds_count zero env tries c o h =
    ap (λ k. some (record c { heartbeat_timeout = k })) (omega arith)
silent_rounds_count (suc n) env tries c o h =
    let under : c.heartbeat_timeout < c.heartbeat_s = omega arith in
    let c1 = record c { heartbeat_timeout = c.heartbeat_timeout + 1 } in
    rw (quiet_round env tries c o under) (
      silent_rounds_count n env tries c1 (count-Online c o (c.heartbeat_timeout + 1) (omega arith))
        (omega arith)
      ∙ ap (λ k. some (record c { heartbeat_timeout = k })) (omega arith))

within_lem :
    {c : Client}
    → Alive c
    → c.heartbeat_timeout + (c.heartbeat_s - c.heartbeat_timeout) ≡ c.heartbeat_s
within_lem a = ground (arith, a.within)

≡→≤ : {m n : ℕ} → m ≡ n → m ≤ n
≡→≤ e = omega arith

-- A client that is connected and was heard `heartbeat_timeout` seconds ago does nothing but count for
-- as long as the period lasts. In the first silent round after it the client gives the connection up:
-- it falls back to a period of 10 seconds and reconnects with the first attempt that succeeds, after
-- which the count starts from 0 and no reconnection is due.
pub silence_reconnects :
    (env : Env) (tries before after : List Attempt) (fd ip : ℕ) (c : Client)
    → Online c
    → AllFail before
    → 0 < fd
    → (silent_rounds (c.heartbeat_s - c.heartbeat_timeout) env tries c
        ≡ some (record c { heartbeat_timeout = c.heartbeat_s }))
      × ((c' : Client) × (process_round env
              (before ++ (Attempt.connected fd ip ∷ after))
              Input.silent
              (record c { heartbeat_timeout = c.heartbeat_s })
            ≡ some c')
          × (c'.sockfd ≡ some fd)
          × (c'.heartbeat_s ≡ 10)
          × (c'.heartbeat_timeout ≡ 0)
          × Online c')
unfolding process_round keep_connected process_input
silence_reconnects env tries before after fd ip c o fails pos =
    let c0 = record c { heartbeat_timeout = c.heartbeat_s } in
    let off = record c0 {
      reconnect_flag = heartbeat_offline;
      heartbeat_s = heartbeat_default;
      heartbeat_timeout = 0;
    } in
    let a : Alive c0 = record { within = omega arith; byte = o.alive.byte } in
    let over : ltb c.heartbeat_s c.heartbeat_s ≡ false = ground arith in
    let (waits, (c1, e, k)) = client_reconnect_lem before after fd ip off fails in
    let open1 : is_open c1.sockfd ≡ true = rw k.socket (ground arith) in
    let c2 = record c1 { reconnect_flag = reconnect_off } in
    let count : c.heartbeat_timeout + (c.heartbeat_s - c.heartbeat_timeout) ≡ c.heartbeat_s =
      within_lem o.alive in
    let all = silent_rounds_count (c.heartbeat_s - c.heartbeat_timeout) env tries c o (≡→≤ count) in
    let round : process_round env (before ++ (Attempt.connected fd ip ∷ after)) Input.silent c0
        ≡ some c2 =
      rw (tick_lem c0 a) (rw over (rw e (rw open1 refl))) in
    (
      all ∙ ap (λ k. some (record c { heartbeat_timeout = k })) count,
      (
        c2,
        round,
        k.socket,
        k.period_kept,
        k.count_kept,
        record {
          alive = record {
            within = rw (k.count_kept, k.period_kept) (omega arith);
            byte = rw (k.period_kept) (omega arith);
          };
          open_socket = open1;
          not_on = ground arith;
          not_offline = ground arith;
        },
      ),
    )
