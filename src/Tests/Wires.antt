-- ===== src/Tests/Wires.antt =====
-- Transfers over a concrete connection.
use itertk.Base.{ℕ, zero, suc, ◌≡◌, refl, true, some, List, [], ◌∷◌, arith, replicate, ap}
use itertk.Wire.{Poll, NetConn, Step, Prompt, turns}
use itertk.Wire.Receive.{web_conn_recv}
use itertk.Wire.Receive.Blocks.{Receives, Serves, web_conn_recv-Receives, web_conn_recv_total}
use itertk.Wire.Send.{net_conn_send_pkt}
use itertk.Wire.Send.Blocks.{Delivers, net_conn_send_pkt-Delivers, net_conn_send_pkt_total}

-- `n` turns that move one byte each, with the clock standing still
abbrev pub burst : ℕ → ℕ × List Poll
burst n = (0, replicate n (Poll.moved 1 0 0))

burst-Prompt : (n : ℕ) → Prompt 0 (replicate n (Poll.moved 1 0 0))
burst-Prompt zero = tt
burst-Prompt (suc n) = (omega arith, refl, refl, burst-Prompt n)

burst-turns : (n : ℕ) → turns (replicate n (Poll.moved 1 0 0)) ≡ n
burst-turns zero = refl
burst-turns (suc n) = ap suc (burst-turns n)

pub burst-Serves : (n : ℕ) → Serves n (burst n)
burst-Serves n = record { prompt = burst-Prompt n; enough = omega (arith, burst-turns n) }

abbrev pub demo_conn : List ℕ → List (ℕ × List Poll) → NetConn
demo_conn inbox calls = record {
  conn_idx = some 0;
  client_conn = some 7;
  file_type = 0xff;
  idle = 0;
  clientip = [];
  inbox = inbox;
  outbox = [];
  calls = calls;
}

web_conn_recv-Receives_example :
    Receives 2
      (demo_conn (1 ∷ 2 ∷ 3 ∷ []) (burst 2 ∷ []))
      (web_conn_recv 2 (demo_conn (1 ∷ 2 ∷ 3 ∷ []) (burst 2 ∷ [])))
web_conn_recv-Receives_example =
    web_conn_recv-Receives 2 (demo_conn (1 ∷ 2 ∷ 3 ∷ []) (burst 2 ∷ []))

web_conn_recv_total_example :
    web_conn_recv 2 (demo_conn (1 ∷ 2 ∷ 3 ∷ []) (burst 2 ∷ []))
    ≡ Step.done (record { ok = true; got = 1 ∷ 2 ∷ [] }, demo_conn (3 ∷ []) [])
web_conn_recv_total_example =
    web_conn_recv_total 2 (burst 2) [] (demo_conn (1 ∷ 2 ∷ 3 ∷ []) (burst 2 ∷ [])) refl refl
      (burst-Serves 2) (omega arith) (omega arith)

net_conn_send_pkt-Delivers_example :
    Delivers
      (5 ∷ 6 ∷ [])
      (demo_conn [] (burst 2 ∷ []))
      (net_conn_send_pkt (5 ∷ 6 ∷ []) (demo_conn [] (burst 2 ∷ [])))
net_conn_send_pkt-Delivers_example =
    net_conn_send_pkt-Delivers (5 ∷ 6 ∷ []) (demo_conn [] (burst 2 ∷ []))

net_conn_send_pkt_total_example :
    net_conn_send_pkt (5 ∷ 6 ∷ []) (demo_conn [] (burst 2 ∷ []))
    ≡ (let c = demo_conn [] [] in Step.done (true, record c { outbox = 5 ∷ 6 ∷ [] }))
net_conn_send_pkt_total_example =
    net_conn_send_pkt_total (5 ∷ 6 ∷ []) (burst 2) [] (demo_conn [] (burst 2 ∷ [])) refl refl
      (burst-Serves 2) (omega arith)
