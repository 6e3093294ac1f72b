-- ===== src/Wire/Send/Blocks.antt =====
-- What the sending loop promises for a block.
use itertk.Base.{
  ℕ, ◌+◌, ◌-◌, ◌≤◌, ◌<◌, ◌≡◌, refl, sym, ap, ◌∙◌, Bool, true, false, List, [], ◌∷◌, ◌++◌,
  append_assoc, append-nil, ◌==◌, arith, length, take, drop, Bool-cases, inl, inr, length-append,
  take-append-drop, length-take, length-drop, take-part, take-take, Buf, bytes, length-bytes,
}
use itertk.Client.Link.{is_open}
use itertk.Wire.{
  Poll, NetConn, Step, net_conn_close, net_conn_close-inbox, net_conn_close-outbox, timed_out,
  turns, Prompt, next_call, later_calls,
}
use itertk.Wire.Receive.Blocks.{Serves}
use itertk.Wire.Send.{send_loop, net_conn_send_pkt, net_conn_send, from_object, max_length}

-- A transfer of `block` over `c` returned `ok` and left `c'`: the other end has the block after what it
-- had, or a first part of it and the connection is closed.
pub record Delivery (block : List ℕ) (c : NetConn) (ok : Bool) (c' : NetConn) : Type 0 where
  pub inbox : c'.inbox ≡ c.inbox
  pub part : List ℕ
  pub rest : List ℕ
  pub split : part ++ rest ≡ block
  pub outbox : c'.outbox ≡ c.outbox ++ part
  pub whole : ok ≡ true → rest ≡ []
  pub shut : ok ≡ false → is_open c'.client_conn ≡ false

abbrev pub Delivers : List ℕ → NetConn → Step (Bool × NetConn) → Type 0
Delivers block c (Step.done r) = Delivery block c r.0 r.1
Delivers block c Step.pending = Unit
Delivers block c Step.fault = ⊥

net_conn_close-is_open : (c : NetConn) → is_open (net_conn_close c).client_conn ≡ false
unfolding net_conn_close
net_conn_close-is_open c = elim (Bool-cases (is_open c.client_conn)) [
  | inl e ↦ rw e refl
  | inr e ↦ rw (e, e) refl
]

closed-Delivery :
    (block part rest : List ℕ) (c c' : NetConn)
    → c'.inbox ≡ c.inbox
    → part ++ rest ≡ block
    → c'.outbox ≡ c.outbox ++ part
    → Delivery block c false (net_conn_close c')
closed-Delivery block part rest c c' i s o = record {
  inbox = net_conn_close-inbox c' ∙ i;
  part = part;
  rest = rest;
  split = s;
  outbox = net_conn_close-outbox c' ∙ o;
  whole = λ h. absurd cc;
  shut = λ h. net_conn_close-is_open c';
}

empty-of : (l : List ℕ) → length l ≡ 0 → l ≡ []
empty-of [] h = refl
empty-of (x ∷ l) h = absurd (omega (arith, h))

send_loop-Delivers :
    (block : List ℕ) (c0 : NetConn) (ps : List Poll) (t : ℕ) (part left : List ℕ) (c : NetConn)
    → c.inbox ≡ c0.inbox
    → part ++ left ≡ block
    → c.outbox ≡ c0.outbox ++ part
    → Delivers block c0 (send_loop ps t left c)
unfolding send_loop
send_loop-Delivers block c0 [] t part left c i s o = tt
send_loop-Delivers block c0 (Poll.interrupted ∷ ps) t part left c i s o =
    send_loop-Delivers block c0 ps t part left c i s o
send_loop-Delivers block c0 (Poll.failed ∷ ps) t part left c i s o =
    closed-Delivery block part left c0 c i s o
send_loop-Delivers block c0 (Poll.broken reset ∷ ps) t part left c i s o =
    closed-Delivery block part left c0 c i s o
send_loop-Delivers block c0 (Poll.waiting now ∷ ps) t part left c i s o =
    elim (Bool-cases (timed_out t now)) [
      | inl late ↦ rw late (closed-Delivery block part left c0 c i s o)
      | inr early ↦ rw early (send_loop-Delivers block c0 ps t part left c i s o)
    ]
send_loop-Delivers block c0 (Poll.moved k t1 t3 ∷ ps) t part left c i s o =
    let c' : NetConn = record c { outbox = c.outbox ++ take k left } in
    let split : (part ++ take k left) ++ drop k left ≡ block =
      append_assoc part (take k left) (drop k left)
      ∙ ap (λ l. part ++ l) (take-append-drop k left)
      ∙ s in
    let sent : c'.outbox ≡ c0.outbox ++ (part ++ take k left) =
      ap (λ l. l ++ take k left) o ∙ append_assoc c0.outbox part (take k left) in
    elim (Bool-cases (length (take k left) == 0)) [
      | inl nothing ↦
          rw nothing (closed-Delivery block (part ++ take k left) (drop k left) c0 c' i split sent)
      | inr something ↦ elim (Bool-cases (length (drop k left) == 0)) [
        | inl last ↦
            rw (something, last)
              (record {
                inbox = i;
                part = part ++ take k left;
                rest = drop k left;
                split = split;
                outbox = sent;
                whole = λ h. empty-of (drop k left) (ground arith);
                shut = λ h. absurd cc;
              })
        | inr more ↦ elim (Bool-cases (timed_out t t3)) [
          | inl late ↦
              rw (something, more, late)
                (closed-Delivery block (part ++ take k left) (drop k left) c0 c' i split sent)
          | inr early ↦
              rw (something, more, early)
                (send_loop-Delivers block c0 ps t (part ++ take k left) (drop k left) c' i split
                  sent)
        ]
      ]
    ]

-- Whatever the other end and the clock do, a call of net_conn_send_pkt that returns has passed exactly
-- the block, once and in order, or it failed after a first part of the block; then the connection is
-- closed. It takes no byte that was sent to it.
pub net_conn_send_pkt-Delivers :
    (block : List ℕ) (c : NetConn) → Delivers block c (net_conn_send_pkt block c)
unfolding net_conn_send_pkt
net_conn_send_pkt-Delivers block c = elim (Bool-cases (is_open c.client_conn)) [
  | inl yes_open ↦ rw yes_open (
      send_loop-Delivers block c (next_call c.calls).1 (next_call c.calls).0 [] block
        (record c { idle = 0; calls = later_calls c.calls }) refl refl (rw append-nil refl))
  | inr no_open ↦ rw no_open (record {
    inbox = refl;
    part = [];
    rest = block;
    split = refl;
    outbox = rw append-nil refl;
    whole = λ h. absurd cc;
    shut = λ h. no_open;
  })
]

-- Enough prompt turns pass the whole block.
send_loop_total :
    (ps : List Poll) (t : ℕ) (left : List ℕ) (c : NetConn)
    → Prompt t ps
    → 0 < length left
    → length left ≤ turns ps
    → send_loop ps t left c ≡ Step.done (true, record c { outbox = c.outbox ++ left })
unfolding send_loop
send_loop_total [] t left c p z h = absurd (omega arith)
send_loop_total (Poll.interrupted ∷ ps) t left c p z h = send_loop_total ps t left c p z h
send_loop_total (Poll.failed ∷ ps) t left c p z h = absurd p
send_loop_total (Poll.waiting now ∷ ps) t left c p z h = absurd p
send_loop_total (Poll.broken reset ∷ ps) t left c p z h = absurd p
send_loop_total (Poll.moved k t1 t3 ∷ ps) t left c p z h =
    let c' : NetConn = record c { outbox = c.outbox ++ take k left } in
    let whole : length (take k left) + length (drop k left) ≡ length left =
      omega
        (arith, length-append (take k left) (drop k left), ap length (take-append-drop k left)) in
    let shorter : length (drop k left) ≡ length left - k = length-drop k left in
    let first : (length (take k left) == 0) ≡ false = ground (arith, p.0) in
    let sent : c'.outbox ++ drop k left ≡ c.outbox ++ left =
      append_assoc c.outbox (take k left) (drop k left)
      ∙ ap (λ l. c.outbox ++ l) (take-append-drop k left) in
    elim (Bool-cases (length (drop k left) == 0)) [
      | inl last ↦
          let none_left : drop k left ≡ [] = empty-of (drop k left) (ground arith) in
          let all : c'.outbox ≡ c.outbox ++ left =
            sym (append-nil c'.outbox) ∙ (rw none_left at sent) in
          rw (first, last) (ap (λ (o : List ℕ). Step.done (true, record c { outbox = o })) all)
      | inr more ↦
          let rest =
            send_loop_total ps t (drop k left) c' p.3 (ground arith) (ground (arith, p.0)) in
          rw (first, more, p.1)
            (rest ∙ ap (λ (o : List ℕ). Step.done (true, record c { outbox = o })) sent)
    ]

-- Over an open connection whose next call has prompt turns, as many as the block has bytes,
-- net_conn_send_pkt passes the whole block, whatever portions it goes out in, and returns with success.
pub net_conn_send_pkt_total :
    (block : List ℕ) (call : ℕ × List Poll) (later : List (ℕ × List Poll)) (c : NetConn)
    → is_open c.client_conn ≡ true
    → c.calls ≡ call ∷ later
    → Serves (length block) call
    → 0 < length block
    → net_conn_send_pkt block c
      ≡ Step.done (true, record c { idle = 0; outbox = c.outbox ++ block; calls = later })
unfolding net_conn_send_pkt
net_conn_send_pkt_total block call later c o e h z =
    rw (o, e)
      (send_loop_total call.1 call.0 block (record c { idle = 0; calls = later }) h.prompt z
        h.enough)

pub length-from_object :
    (own : List ℕ) (memory : Buf) → length (from_object own memory) ≡ max_length
unfolding from_object
length-from_object own memory =
    length-take max_length (own ++ bytes memory 0 (max_length - length own)) (
      omega (
        arith,
        length-append own (bytes memory 0 (max_length - length own)),
        length-bytes memory 0 (max_length - length own),
      ))

-- An object of at most `max_length` bytes goes out first in its block.
pub from_object-own :
    (own : List ℕ) (memory : Buf)
    → length own ≤ max_length
    → take (length own) (from_object own memory) ≡ own
unfolding from_object
from_object-own own memory h =
    take-take (length own) max_length (own ++ bytes memory 0 (max_length - length own)) h
    ∙ take-part own (bytes memory 0 (max_length - length own))

-- A head and an object's block over two prompt calls.
pub net_conn_send_total :
    (head : List ℕ) (b : ℕ) (own : List ℕ) (memory : Buf) (first second : ℕ × List Poll)
    (later : List (ℕ × List Poll)) (c : NetConn)
    → is_open c.client_conn ≡ true
    → c.calls ≡ first ∷ second ∷ later
    → Serves (length head) first
    → Serves max_length second
    → 0 < length head
    → net_conn_send head (b ∷ own) memory c
      ≡ Step.done (
        true,
        record c {
          idle = 0;
          outbox = (c.outbox ++ head) ++ from_object (b ∷ own) memory;
          calls = later;
        },
      )
unfolding net_conn_send
net_conn_send_total head b own memory first second later c o e p q z =
    let size = length-from_object (b ∷ own) memory in
    rw (net_conn_send_pkt_total head first (second ∷ later) c o e p z) (
      net_conn_send_pkt_total (from_object (b ∷ own) memory) second later
        (record c { idle = 0; outbox = c.outbox ++ head; calls = second ∷ later }) o refl
        (record { prompt = q.prompt; enough = omega (arith, size, q.enough) })
        (omega (arith, size)))
