-- ===== src/Web/Receiving.antt =====
-- Commands that receive an object, and commands that send an answer, over the transfers of Wire.
use itertk.Base.{
  ℕ, ◌≤◌, ◌<◌, ◌≡◌, refl, true, List, ◌∷◌, ◌++◌, length, take, drop, Bool-cases, inl, inr,
  if◌then◌else◌,
}
use itertk.Conf.Users.{CmdCode}
use itertk.Client.Link.{is_open}
use itertk.Wire.{Poll, NetConn, Step, Action, After, bind, pure}
use itertk.Wire.Packet.{Layout, ItsCmd}
use itertk.Wire.Receive.{Received, web_conn_recv}
use itertk.Wire.Receive.Blocks.{Receives, web_conn_recv-Receives, Serves, web_conn_recv_total}
use itertk.Wire.Send.{net_conn_send}
use itertk.Wire.Send.Blocks.{net_conn_send_pkt_total}
use itertk.Web.{Web, Board, lift_conn, result_head, send_result}
use itertk.Web.Set.{receive_object}

-- A property of all outcomes of a command that receives an object: the object came in whole, or the
-- command failed.
pub receive_object-After :
    {A : Type 0} (layout : Layout A) (failed : CmdCode) (k : A → Action Web CmdCode) (w : Web)
    (P : CmdCode → Web → Type 0)
    → ((got : List ℕ) (c : NetConn)
        → got ++ c.inbox ≡ w.conn.inbox
        → length got ≡ layout.size
        → After P (k (layout.load got) (record w { conn = c })))
    → ((c : NetConn) → P failed (record w { conn = c }))
    → After P (receive_object layout failed k w)
unfolding receive_object
receive_object-After layout failed k w P good bad =
    go (web_conn_recv layout.size w.conn) (web_conn_recv-Receives layout.size w.conn)
  where
    go :
        (s : Step (Received × NetConn))
        → Receives layout.size w.conn s
        → After P (bind (lift_conn s w) (λ r. if r.ok then k (layout.load r.got) else pure failed))
    go (Step.done (r, c)) h = elim (Bool-cases r.ok) [
      | inl ok ↦ rw ok (good r.got c h.kept (h.whole ok))
      | inr failed_now ↦ rw failed_now (bad c)
    ]
    go Step.pending h = tt
    go Step.fault h = absurd h

-- Over prompt turns the object is received.
pub receive_object_total :
    {A : Type 0} (layout : Layout A) (failed : CmdCode) (k : A → Action Web CmdCode) (w : Web)
    (call : ℕ × List Poll) (later : List (ℕ × List Poll))
    → is_open w.conn.client_conn ≡ true
    → w.conn.calls ≡ call ∷ later
    → Serves layout.size call
    → 0 < layout.size
    → layout.size ≤ length w.conn.inbox
    → receive_object layout failed k w ≡ (
        let c = w.conn in
        k
          (layout.load (take layout.size c.inbox))
          (record w { conn = record c { inbox = drop layout.size c.inbox; calls = later } }))
unfolding receive_object
receive_object_total layout failed k w call later o e s z f =
    rw (web_conn_recv_total layout.size call later w.conn o e s z f) refl

-- Over prompt turns a result is sent.
pub send_result_total :
    (b : Board) (cmd : ItsCmd) (result : ℕ) (w : Web) (call : ℕ × List Poll)
    (later : List (ℕ × List Poll))
    → let head = b.abi.head.store (result_head cmd 0 result b.uninit_head) in
      is_open w.conn.client_conn ≡ true
      → w.conn.calls ≡ call ∷ later
      → Serves (length head) call
      → 0 < length head
      → send_result b cmd result w ≡ (
          let c = w.conn in
          Step.done (
            true,
            record w { conn = record c { idle = 0; outbox = c.outbox ++ head; calls = later } },
          ))
unfolding send_result net_conn_send
send_result_total b cmd result w call later o e s z =
    rw
      (net_conn_send_pkt_total (b.abi.head.store (result_head cmd 0 result b.uninit_head)) call
        later w.conn o e s z)
      refl

-- What holds behind a call, and behind what follows it.
pub bind-After :
    {S A B : Type 0} (P : A → S → Type 0) (Q : B → S → Type 0) (s : Step (A × S))
    (k : A → Action S B)
    → After P s
    → ((a : A) (t : S) → P a t → After Q (k a t))
    → After Q (bind s k)
bind-After P Q (Step.done r) k h f = f r.0 r.1 h
bind-After P Q Step.pending k h f = tt
bind-After P Q Step.fault k h f = tt

-- A transfer changes the connection only.
pub lift_conn-After :
    {A : Type 0} (s : Step (A × NetConn)) (w : Web)
    → After (λ (_ : A) (w' : Web). w' ≡ record w { conn = w'.conn }) (lift_conn s w)
lift_conn-After (Step.done r) w = refl
lift_conn-After Step.pending w = tt
lift_conn-After Step.fault w = tt
