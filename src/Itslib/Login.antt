-- ===== src/Itslib/Login.antt =====
-- A login from the page that asks to the server that answers.
use itertk.Base.{
  ℕ, ◌+◌, ◌≤◌, ◌<◌, ◌≡◌, refl, sym, ap, ◌∙◌, true, none, some, List, [], ◌∷◌, ◌++◌, append-nil,
  append_assoc, min, ◌==◌, arith, subst, ltb, length, take, drop, get_or, take-all, drop-all,
  Option-cases, Bool-cases, inl, inr,
}
use itertk.Conf.Users.{code_number, sys_usr_login}
use itertk.Client.Link.{is_open}
use itertk.Wire.{Poll, NetConn, Step, net_conn_close}
use itertk.Wire.Packet.{Itsip, ItsCmd, its_id, itsip_pack, c_string, c_string-append, NoNul}
use itertk.Wire.Receive.Blocks.{Serves}
use itertk.Wire.Send.{net_conn_send}
use itertk.Wire.Send.Blocks.{net_conn_send_pkt_total}
use itertk.Web.{Web, Board, result_head, user_of}
use itertk.Web.Command.{web_svr_proc, web_cmd_proc, on_cmd, on_login}
use itertk.Web.Receiving.{send_result_total}
use itertk.Web.Effects.{head_received, command_found, answered, after_head}
use itertk.Itslib.{
  Dial, Page, Result, dialled, put_string, packed, with_user, talk, receive_head, submit,
  net_conn_connect, net_conn_recv,
}
use itertk.Itslib.Users.{with_password, user_login}

-- A page's connection stands, takes a head in prompt turns, and has the answer ready whole.
pub record Answers (page : Page) (head : Itsip) (answer : List ℕ) : Type 0 where
  pub fd : ℕ
  pub fd_pos : 0 < fd
  pub first : ℕ × List Poll
  pub second : ℕ × List Poll
  pub later : List (ℕ × List Poll)
  pub dial : page.dial ≡ Dial.connected fd answer (first ∷ second ∷ later)
  pub head_pos : 0 < length (page.abi.head.store head)
  pub takes_head : Serves (length (page.abi.head.store head)) first
  pub answer_size : length answer ≡ page.abi.head.size
  pub room : ℕ
  pub sent_at : ℕ
  pub seen_at : ℕ
  pub others : List Poll
  pub turn : second.1 ≡ Poll.moved room sent_at seen_at ∷ others
  pub whole : page.abi.head.size ≤ room

-- A head that is wholly there is received.
pub net_conn_recv_whole :
    (answer : List ℕ) (n : ℕ) (c : NetConn) (call : ℕ × List Poll) (later : List (ℕ × List Poll))
    (k t1 t3 : ℕ) (ps : List Poll)
    → c.inbox ≡ answer
    → length answer ≡ n
    → c.calls ≡ call ∷ later
    → call.1 ≡ Poll.moved k t1 t3 ∷ ps
    → n ≤ k
    → net_conn_recv n c ≡ Step.done ((true, answer), record c { inbox = []; calls = later })
unfolding net_conn_recv
net_conn_recv_whole answer n c call later k t1 t3 ps i s e p h =
    let m : min k n ≡ n = ground arith in
    let all : take (min k n) c.inbox ≡ answer = rw (m, i) (take-all n answer (omega (arith, s))) in
    let left : drop (min k n) c.inbox ≡ [] = rw (m, i) (drop-all n answer (omega (arith, s))) in
    let same : (length answer == n) ≡ true = ground arith in rw (e, p, all, left, same) refl

-- A transaction with no object, over such a connection.
pub submit_answered :
    (page : Page) (head : Itsip) (answer : List ℕ)
    → (a : Answers page head answer)
    → (c : NetConn) × (submit page (some head) []
        ≡ Step.done (record {
          code = get_or (page.abi.head.load answer).itsip_data 0 0;
          object = [];
          conn = some (net_conn_close c);
        }))
unfolding submit talk net_conn_connect net_conn_send receive_head
submit_answered page head answer a =
    let hb = page.abi.head.store head in
    let start = dialled a.fd answer (a.first ∷ a.second ∷ a.later) in
    let open_start : is_open start.client_conn ≡ true = ground (arith, a.fd_pos) in
    let sent =
      net_conn_send_pkt_total hb a.first (a.second ∷ a.later) start open_start refl a.takes_head
        a.head_pos in
    let connect : net_conn_connect page.dial ≡ some start = ap net_conn_connect a.dial in
    let c1 : NetConn = record start { outbox = hb; calls = a.second ∷ a.later } in
    let got =
      net_conn_recv_whole answer page.abi.head.size c1 a.second a.later a.room a.sent_at a.seen_at
        a.others refl a.answer_size refl a.turn a.whole in
    (record c1 { inbox = []; calls = a.later }, rw (connect, sent, got, talk, receive_head) refl)

-- The head of a login: both strings stand in their fields, up to a NUL.
record Filled (page : Page) (name psw : List ℕ) (head : Itsip) : Type 0 where
  user_rest : List ℕ
  data_rest : List ℕ
  user : head.itsip_user ≡ name ++ (0 ∷ user_rest)
  word : head.itsip_data ≡ psw ++ (0 ∷ data_rest)
  magic : head.itsip_head ≡ 0xff
  id : head.itsip_cmd ≡ its_id ItsCmd.login

put_string-text :
    (s field text : List ℕ)
    → put_string s field ≡ some text
    → (rest : List ℕ) × (text ≡ s ++ (0 ∷ rest))
unfolding put_string
put_string-text s field text e = elim (Bool-cases (ltb (length s) (length field))) [
  | inl fits ↦ (drop (length s + 1) field, let f : some _ ≡ some text = rw fits at e in cc)
  | inr over ↦ absurd (let f : none ≡ some text = rw over at e in cc)
]

login-Filled :
    (page : Page) (name psw : List ℕ) (head : Itsip)
    → with_password psw (with_user name (packed page ItsCmd.login 0)) ≡ some head
    → Filled page name psw head
unfolding itsip_pack
login-Filled page name psw head e = elim (Option-cases (put_string name page.uninit.itsip_user)) [
  | inl over ↦ absurd (let f : none ≡ some head = rw (over, with_password, with_user) at e in cc)
  | inr (user, u) ↦ elim (Option-cases (put_string psw page.uninit.itsip_data)) [
    | inl over ↦
        absurd (let f : none ≡ some head = rw (u, over, with_password, with_user) at e in cc)
    | inr (word, d) ↦
        let (ru, eu) = put_string-text name page.uninit.itsip_user user u in
        let (rd, ed) = put_string-text psw page.uninit.itsip_data word d in
        let built : Itsip = record (packed page ItsCmd.login 0) {
          itsip_user = user;
          itsip_data = word;
        } in
        let f : some built ≡ some head = rw (u, d, with_password, with_user) at e in
        let same : built ≡ head = cc in
        subst (Filled page name psw) same
          (record { user_rest = ru; data_rest = rd; user = eu; word = ed; magic = refl; id = refl })
  ]
]

-- A user who logs in through a page gets the server's verdict: over a connection that works, where name
-- and encrypted password fit their fields, the code that user_login returns is the one that
-- sys_usr_login gives for that name and that encrypted password, and the server's configuration is as
-- it was.
pub user_login_verdict :
    (page : Page) (b : Board) (w : Web) (name psw : List ℕ) (head : Itsip) (answer : List ℕ)
    (first second : ℕ × List Poll) (later : List (ℕ × List Poll))
    → NoNul name
    → NoNul (page.crypt psw)
    → with_password (page.crypt psw) (with_user name (packed page ItsCmd.login 0)) ≡ some head
    → answer
      ≡ b.abi.head.store (
          result_head ItsCmd.login 0
            (code_number (sys_usr_login w.client.conf.con_usr name (page.crypt psw)))
            b.uninit_head)
    → (a : Answers page head answer) → is_open w.conn.client_conn ≡ true
    → w.conn.inbox ≡ page.abi.head.store head
    → w.conn.outbox ≡ []
    → length (page.abi.head.store head) ≡ b.abi.head.size
    → b.abi.head.load (page.abi.head.store head) ≡ head
    → page.abi.head.load answer
      ≡ result_head ItsCmd.login 0
          (code_number (sys_usr_login w.client.conf.con_usr name (page.crypt psw)))
          b.uninit_head
    → w.conn.calls ≡ first ∷ second ∷ later
    → Serves (length (page.abi.head.store head)) first
    → Serves (length answer) second
    → 0 < length answer
    → (w' : Web) × (r : Result) × (web_svr_proc b w ≡ Step.done (tt, w'))
      × (w'.conn.outbox ≡ answer)
      × (w'.client ≡ w.client)
      × (user_login page name psw ≡ Step.done r)
      × (r.code ≡ code_number (sys_usr_login w.client.conf.con_usr name (page.crypt psw)))
unfolding user_login on_cmd on_login
user_login_verdict page b w name psw head answer first second later nn np fits is a o i out n lh la
      cs s1 s2 z =
    let ret = code_number (sys_usr_login w.client.conf.con_usr name (page.crypt psw)) in
    let hb = page.abi.head.store head in
    let f = login-Filled page name (page.crypt psw) head fits in
    let w1 = after_head w [] (second ∷ later) in
    let user : user_of head ≡ name =
      ap (λ l. c_string (l ++ head.itsip_data)) f.user
      ∙ ap c_string (append_assoc name (0 ∷ f.user_rest) head.itsip_data)
      ∙ c_string-append name (f.user_rest ++ head.itsip_data) nn in
    let word : c_string head.itsip_data ≡ page.crypt psw =
      ap c_string f.word ∙ c_string-append (page.crypt psw) f.data_rest np in
    let sent =
      send_result_total b ItsCmd.login ret w1 second later o refl
        (subst (λ (l : List ℕ). Serves (length l) second) is s2)
        (subst (λ (l : List ℕ). 0 < length l) is z) in
    let w2 = answered w1 answer later in
    let handled : on_cmd b head ItsCmd.login w1 ≡ Step.done (tt, w2) =
      rw (user, word, sent) (ap (λ l. Step.done (tt, answered w1 l later)) (sym is)) in
    let (c, done') = submit_answered page head answer a in
    (
      w2,
      record {
        code = get_or (page.abi.head.load answer).itsip_data 0 0;
        object = [];
        conn = some (net_conn_close c);
      },
      head_received b w hb [] first (second ∷ later) o (i ∙ sym (append-nil hb)) n a.head_pos cs s1
          ∙ ap (λ h. web_cmd_proc b h w1) lh
          ∙ command_found b head ItsCmd.login w1 o f.magic f.id
          ∙ handled,
      ap (λ l. l ++ answer) out,
      refl,
      ap (λ h. submit page h []) fits ∙ done',
      ap (λ (h : Itsip). get_or h.itsip_data 0 0) la ∙ (unfold result_head in refl),
    )
