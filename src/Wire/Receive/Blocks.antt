-- ===== src/Wire/Receive/Blocks.antt =====
-- What the receiving loop promises for a block.
use itertk.Base.{
  ℕ, zero, suc, ◌+◌, ◌-◌, ◌≤◌, ◌<◌, ◌≡◌, refl, ap, ap₂, ◌∙◌, true, false, List, [], ◌∷◌, ◌++◌,
  append_assoc, min, ◌==◌, arith, length, take, drop, Bool-cases, inl, inr, length-append,
  take-append-drop, length-take, length-drop, drop-drop, take-append,
}
use itertk.Client.Link.{is_open}
use itertk.Wire.{
  Poll, NetConn, Step, net_conn_close, net_conn_close-inbox, net_conn_close-outbox, timed_out,
  turns, Prompt, next_call, later_calls,
}
use itertk.Wire.Receive.{Received, recv_loop, web_conn_recv}

-- A transfer of `n` bytes from `c` returned `r` and left `c'`.
pub record Receipt (n : ℕ) (c : NetConn) (r : Received) (c' : NetConn) : Type 0 where
  pub kept : r.got ++ c'.inbox ≡ c.inbox
  pub outbox : c'.outbox ≡ c.outbox
  pub whole : r.ok ≡ true → length r.got ≡ n
  pub alive : r.ok ≡ true → c'.client_conn ≡ c.client_conn

-- A call that returns has a receipt; it reaches outside no object.
abbrev pub Receives : ℕ → NetConn → Step (Received × NetConn) → Type 0
Receives n c (Step.done r) = Receipt n c r.0 r.1
Receives n c Step.pending = Unit
Receives n c Step.fault = ⊥

closed-Receipt :
    (n : ℕ) (c c' : NetConn) (got : List ℕ)
    → got ++ c'.inbox ≡ c.inbox
    → c'.outbox ≡ c.outbox
    → Receipt n c (record { ok = false; got = got }) (net_conn_close c')
closed-Receipt n c c' got e o = record {
  kept = ap (λ l. got ++ l) (net_conn_close-inbox c') ∙ e;
  outbox = net_conn_close-outbox c' ∙ o;
  whole = λ h. absurd cc;
  alive = λ h. absurd cc;
}

-- where the loop stands after the bytes `got`
record Position (n : ℕ) (c0 : NetConn) (m : ℕ) (got : List ℕ) (c : NetConn) : Type 0 where
  kept : got ++ c.inbox ≡ c0.inbox
  outbox : c.outbox ≡ c0.outbox
  fd : c.client_conn ≡ c0.client_conn
  left : length got + m ≡ n

recv_loop-Receives :
    (n : ℕ) (c0 : NetConn) (ps : List Poll) (t m : ℕ) (got : List ℕ) (c : NetConn)
    → Position n c0 m got c
    → Receives n c0 (recv_loop ps t m got c)
unfolding recv_loop
recv_loop-Receives n c0 [] t m got c p = tt
recv_loop-Receives n c0 (Poll.interrupted ∷ ps) t m got c p = recv_loop-Receives n c0 ps t m got c p
recv_loop-Receives n c0 (Poll.failed ∷ ps) t m got c p = closed-Receipt n c0 c got p.kept p.outbox
recv_loop-Receives n c0 (Poll.waiting now ∷ ps) t m got c p = elim (Bool-cases (timed_out t now)) [
  | inl late ↦ rw late (closed-Receipt n c0 c got p.kept p.outbox)
  | inr early ↦ rw early (recv_loop-Receives n c0 ps t m got c p)
]
recv_loop-Receives n c0 (Poll.broken true ∷ ps) t m got c p =
    closed-Receipt n c0 c got p.kept p.outbox
recv_loop-Receives n c0 (Poll.broken false ∷ ps) t m got c p = record {
  kept = p.kept;
  outbox = p.outbox;
  whole = λ h. absurd cc;
  alive = λ h. absurd cc;
}
recv_loop-Receives n c0 (Poll.moved k t1 t3 ∷ ps) t m got c p =
    let here = take (min k m) c.inbox in
    let c' : NetConn = record c { inbox = drop (min k m) c.inbox } in
    let split : here ++ c'.inbox ≡ c.inbox = take-append-drop (min k m) c.inbox in
    let all : (got ++ here) ++ c'.inbox ≡ c0.inbox =
      append_assoc got here c'.inbox ∙ ap (λ l. got ++ l) split ∙ p.kept in
    elim (Bool-cases (length here == 0)) [
      | inl nothing ↦
          let none_here : here ≡ [] = empty-of here (ground arith) in
          let unread : c'.inbox ≡ c.inbox = rw none_here at split in
          let same : got ++ c'.inbox ≡ c0.inbox = ap (λ l. got ++ l) unread ∙ p.kept in
          rw nothing (closed-Receipt n c0 c' got same p.outbox)
      | inr some_here ↦ elim (Bool-cases (length here == m)) [
        | inl last ↦
            rw (some_here, last)
              (record {
                kept = all;
                outbox = p.outbox;
                whole = λ h. ground (arith, length-append got here, p.left);
                alive = λ h. p.fd;
              })
        | inr more ↦ elim (Bool-cases (timed_out t1 t3)) [
          | inl late ↦
              rw (some_here, more, late) (closed-Receipt n c0 c' (got ++ here) all p.outbox)
          | inr early ↦
              rw (some_here, more, early)
                (recv_loop-Receives n c0 ps t1 (m - length here) (got ++ here) c' (record {
                  kept = all;
                  outbox = p.outbox;
                  fd = p.fd;
                  left = omega (arith, length-append got here, p.left, length-part k m c.inbox);
                }))
        ]
      ]
    ]
  where
    empty-of : (l : List ℕ) → length l ≡ 0 → l ≡ []
    empty-of [] h = refl
    empty-of (x ∷ l) h = absurd (omega (arith, h))

    length-take_le : (k : ℕ) (l : List ℕ) → length (take k l) ≤ k
    length-take_le zero l = omega arith
    length-take_le (suc k) [] = omega arith
    length-take_le (suc k) (x ∷ l) = omega (arith, length-take_le k l)

    length-part : (k m : ℕ) (l : List ℕ) → length (take (min k m) l) ≤ m
    length-part k m l = ground (arith, length-take_le (min k m) l)

-- Whatever the other end and the clock do, a call of web_conn_recv that returns has taken a first part
-- of the bytes that were sent to it, in order, and left the rest unread; where it succeeds, that part
-- has exactly the length asked for and the connection is still open. It sends nothing.
pub web_conn_recv-Receives : (n : ℕ) (c : NetConn) → Receives n c (web_conn_recv n c)
unfolding web_conn_recv
web_conn_recv-Receives n c = elim (Bool-cases (is_open c.client_conn)) [
  | inl open_conn ↦ rw open_conn (
      recv_loop-Receives n c (next_call c.calls).1 (next_call c.calls).0 n []
        (record c { calls = later_calls c.calls })
        (record { kept = refl; outbox = refl; fd = refl; left = omega arith }))
  | inr shut ↦
      rw shut
        (record { kept = refl; outbox = refl; whole = λ h. absurd cc; alive = λ h. absurd cc })
]

-- Enough prompt turns fetch a block whose bytes have all been sent.
recv_loop_total :
    (s : ℕ) (ps : List Poll) (t m : ℕ) (got : List ℕ) (c : NetConn)
    → Prompt s ps
    → 0 < m
    → m ≤ turns ps
    → m ≤ length c.inbox
    → recv_loop ps t m got c
      ≡ Step.done
          (record { ok = true; got = got ++ take m c.inbox }, record c { inbox = drop m c.inbox })
unfolding recv_loop
recv_loop_total s [] t m got c p z h f = absurd (omega arith)
recv_loop_total s (Poll.interrupted ∷ ps) t m got c p z h f = recv_loop_total s ps t m got c p z h f
recv_loop_total s (Poll.failed ∷ ps) t m got c p z h f = absurd p
recv_loop_total s (Poll.waiting now ∷ ps) t m got c p z h f = absurd p
recv_loop_total s (Poll.broken reset ∷ ps) t m got c p z h f = absurd p
recv_loop_total s (Poll.moved k t1 t3 ∷ ps) t m got c p z h f =
    let j = min k m in
    let count : length (take j c.inbox) ≡ j = length-take j c.inbox (ground arith) in
    let some_here : (j == 0) ≡ false = ground (arith, p.0) in
    elim (Bool-cases (j == m)) [
      | inl last ↦ let e : j ≡ m = ground arith in rw (count, some_here, last, e) refl
      | inr more ↦
          let c' : NetConn = record c { inbox = drop j c.inbox } in
          let rest =
            recv_loop_total s ps t1 (m - j) (got ++ take j c.inbox) c' p.3 (ground arith)
              (ground (arith, p.0)) (ground (arith, length-drop j c.inbox)) in
          let sum : j + (m - j) ≡ m = ground arith in
          let text : (got ++ take j c.inbox) ++ take (m - j) c'.inbox ≡ got ++ take m c.inbox =
            append_assoc got (take j c.inbox) (take (m - j) c'.inbox)
            ∙ ap (λ l. got ++ l) (take-append j (m - j) c.inbox ∙ ap (λ i. take i c.inbox) sum) in
          let unread : drop (m - j) c'.inbox ≡ drop m c.inbox =
            drop-drop j (m - j) c.inbox ∙ ap (λ i. drop i c.inbox) sum in
          rw (count, some_here, more, p.2)
            (rest
              ∙ ap₂
                  (λ (g i : List ℕ).
                    Step.done (record { ok = true; got = g }, record c { inbox = i }))
                  text unread)
    ]

-- A call whose turns are all prompt, and enough of them for a block of so many bytes.
pub record Serves (n : ℕ) (call : ℕ × List Poll) : Type 0 where
  pub prompt : Prompt call.0 call.1
  pub enough : n ≤ turns call.1

-- From an open connection whose other end has sent at least the block asked for, and whose next call
-- has prompt turns, as many as the block has bytes, web_conn_recv returns with success: it has taken
-- exactly the next bytes, whatever portions they came in, and left the later ones.
pub web_conn_recv_total :
    (n : ℕ) (call : ℕ × List Poll) (later : List (ℕ × List Poll)) (c : NetConn)
    → is_open c.client_conn ≡ true
    → c.calls ≡ call ∷ later
    → Serves n call
    → 0 < n
    → n ≤ length c.inbox
    → web_conn_recv n c
      ≡ Step.done (
        record { ok = true; got = take n c.inbox },
        record c { inbox = drop n c.inbox; calls = later },
      )
unfolding web_conn_recv
web_conn_recv_total n call later c o e h z f =
    rw (o, e)
      (recv_loop_total call.0 call.1 call.0 n [] (record c { calls = later }) h.prompt z h.enough f)
