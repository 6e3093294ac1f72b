-- ===== src/Tests/Rounds.antt =====
-- Silence, reconnection and heartbeats.
use itertk.Base.{◌≡◌, refl, [], ◌∷◌, none, some, arith}
use itertk.Client.{Client, Event}
use itertk.Client.Frame.{Cmd}
use itertk.Client.Link.{Attempt, client_reconnect}
use itertk.Client.Link.Reconnect.{Connected, client_reconnect_lem}
use itertk.Client.Dispatch.{Input, process_round, process_frame}
use itertk.Client.Dispatch.Rounds.{Online, silent_rounds, silence_reconnects}
use itertk.Client.Dispatch.Accepted.{Valid, set_heartbeat_answered}
use itertk.Tests.{frame, demo_env, demo}

demo-Online : Online demo
demo-Online = record {
  alive = record { within = omega arith; byte = omega arith };
  open_socket = refl;
  not_on = λ q. omega (arith, q);
  not_offline = λ q. omega (arith, q);
}

silence_reconnects_example :
    (silent_rounds 2 demo_env [] demo ≡ some (record demo { heartbeat_timeout = 5 }))
    × ((c' : Client) × (process_round demo_env
            (Attempt.no_socket ∷ Attempt.refused 6 9 ∷ Attempt.connected 7 9 ∷ [])
            Input.silent
            (record demo { heartbeat_timeout = 5 })
          ≡ some c')
        × (c'.sockfd ≡ some 7)
        × (c'.heartbeat_s ≡ 10)
        × (c'.heartbeat_timeout ≡ 0)
        × Online c')
silence_reconnects_example =
    silence_reconnects demo_env [] (Attempt.no_socket ∷ Attempt.refused 6 9 ∷ []) [] 7 9 demo
      demo-Online (tt, (tt, tt)) (omega arith)

client_reconnect_lem_example :
    (client_reconnect (Attempt.dns_failed 6 ∷ []) demo ≡ none)
    × ((c' : Client) × (client_reconnect (Attempt.dns_failed 6 ∷ Attempt.connected 7 9 ∷ []) demo
          ≡ some c')
        × Connected 7 9 (record demo { log = Event.gpio 34 1 ∷ [] }) c')
client_reconnect_lem_example = client_reconnect_lem (Attempt.dns_failed 6 ∷ []) [] 7 9 demo (tt, tt)

heartbeat_frame-Valid : Valid Cmd.set_heartbeat (frame (0x55 ∷ 0xaa ∷ 0x09 ∷ 0x01 ∷ 30 ∷ 0 ∷ [])) 6
heartbeat_frame-Valid = record {
  start_1 = refl;
  start_2 = refl;
  command = refl;
  device = refl;
  long = omega arith;
}

set_heartbeat_answered_example :
    (c' : Client) × (process_frame demo_env (frame (0x55 ∷ 0xaa ∷ 0x09 ∷ 0x01 ∷ 30 ∷ 0 ∷ [])) 6 demo
      ≡ some c')
    × (c'.log ≡ Event.gpio 34 0 ∷ Event.written (0x55 ∷ 0xaa ∷ 0x0a ∷ 0x01 ∷ 30 ∷ 0 ∷ []) ∷ [])
    × (c'.heartbeat_s ≡ 30)
    × (c'.heartbeat_timeout ≡ 0)
    × (c'.conf ≡ demo.conf)
    × Online c'
set_heartbeat_answered_example =
    set_heartbeat_answered demo_env (frame (0x55 ∷ 0xaa ∷ 0x09 ∷ 0x01 ∷ 30 ∷ 0 ∷ [])) 6 demo
      heartbeat_frame-Valid refl (omega arith)
