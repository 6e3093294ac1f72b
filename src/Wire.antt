-- ===== src/Wire.antt =====
-- The packets between the web pages and the web command server, and the connection that carries
-- them: nc600-2.0/inc/itsip.h, and the transfer functions of nc600-2.0/src/web_net.c.
pub mod Packet
pub mod Receive
pub mod Send
use itertk.Base.{
  ℕ, suc, ◌-◌, ◌<◌, ◌≡◌, arith, Bool, false, ◌&&◌, Option, none, some, List, [], ◌∷◌, ltb, leb,
  if◌then◌else◌,
}
use itertk.Client.Link.{is_open}

-- `TIMEOUT_CNT`, in milliseconds
abbrev pub timeout_cnt : ℕ
timeout_cnt = 2000

-- How one turn of a transfer loop goes: `select` is interrupted, fails, or runs out (the clock is
-- read then); or the socket is ready and `recv` or `send` fails (true for ECONNRESET), or can move
-- so many bytes (the clock is read after the call, and again at the test behind it).
pub data Poll : Type 0 where
  interrupted failed : Poll
  waiting : ℕ → Poll
  broken : Bool → Poll
  moved : ℕ → ℕ → ℕ → Poll

-- `NET_CONN_INFO` without the lock and the unused pointer; `none` stands for -1. What the other end
-- does is kept with it: the bytes that it has sent and that are not read yet, the bytes that were sent
-- to it, and for each call of a transfer function the clock at its start and its turns.
pub record NetConn : Type 0 where
  pub conn_idx : Option ℕ
  pub client_conn : Option ℕ
  pub file_type : ℕ
  pub idle : ℕ
  pub clientip : List ℕ
  pub inbox : List ℕ
  pub outbox : List ℕ
  pub calls : List (ℕ × List Poll)

-- A call returns, still waits when the turns that are given are over, or reads or writes outside an
-- object.
pub data Step (A : Type 0) : Type 0 where
  done : A → Step A
  pending fault : Step A

abbrev pub Action : Type 0 → Type 0 → Type 0
Action S A = S → Step (A × S)

abbrev pub pure : {S A : Type 0} → A → Action S A
pure a s = Step.done (a, s)

-- The continuation of a call.
abbrev pub bind : {S A B : Type 0} → Step (A × S) → (A → Action S B) → Step (B × S)
bind (Step.done r) k = k r.0 r.1
bind Step.pending k = Step.pending
bind Step.fault k = Step.fault

infixl 5 ◌>>=◌
abbrev pub ◌>>=◌ : {S A B : Type 0} → Action S A → (A → Action S B) → Action S B
◌>>=◌ m k s = bind (m s) k

abbrev pub gets : {S A : Type 0} → (S → A) → Action S A
gets f s = Step.done (f s, s)

abbrev pub modify : {S : Type 0} → (S → S) → Action S Unit
modify f s = Step.done (tt, f s)

-- a value that is missing where the program reads outside an array
abbrev pub or_fault : {S A : Type 0} → Option A → Action S A
or_fault none s = Step.fault
or_fault (some a) s = Step.done (a, s)

unfoldable pub net_conn_close : NetConn → NetConn
net_conn_close c =
    if is_open c.client_conn then record c { client_conn = none; file_type = 0xff } else c

-- `b > a && b - a >= TIMEOUT_CNT`
abbrev pub timed_out : ℕ → ℕ → Bool
timed_out a b = ltb a b && leb timeout_cnt (b - a)

-- The clock and the turns of the next call, and the connection without them.
abbrev pub next_call : List (ℕ × List Poll) → ℕ × List Poll
next_call [] = (0, [])
next_call (c ∷ _) = c

abbrev pub later_calls : List (ℕ × List Poll) → List (ℕ × List Poll)
later_calls [] = []
later_calls (_ ∷ cs) = cs

pub net_conn_close-inbox : (c : NetConn) → (net_conn_close c).inbox ≡ c.inbox
unfolding net_conn_close
net_conn_close-inbox c = ground arith

pub net_conn_close-outbox : (c : NetConn) → (net_conn_close c).outbox ≡ c.outbox
unfolding net_conn_close
net_conn_close-outbox c = ground arith

-- The turns of a call that move something.
abbrev pub turns : List Poll → ℕ
turns [] = 0
turns (Poll.moved k t1 t3 ∷ ps) = suc (turns ps)
turns (p ∷ ps) = turns ps

-- Every turn of a call that starts at `t` is an interruption, or moves at least one byte in time.
abbrev pub Prompt : ℕ → List Poll → Type 0
Prompt t [] = Unit
Prompt t (Poll.interrupted ∷ ps) = Prompt t ps
Prompt t (Poll.moved k t1 t3 ∷ ps) =
    (0 < k) × (timed_out t t3 ≡ false) × (timed_out t1 t3 ≡ false) × Prompt t ps
Prompt t (p ∷ ps) = ⊥

-- What holds of a call's result and the state behind it, if it returns.
abbrev pub After : {S A : Type 0} → (A → S → Type 0) → Step (A × S) → Type 0
After P (Step.done r) = P r.0 r.1
After P Step.pending = Unit
After P Step.fault = Unit
