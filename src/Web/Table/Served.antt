-- ===== src/Web/Table/Served.antt =====
-- The connections that the server's loop reaches.
use itertk.Base.{
  ℕ, zero, suc, ◌+◌, ◌-◌, drop-drop, ◌≤◌, ◌<◌, ◌≡◌, refl, sym, ap, ◌∙◌, Bool, Option, none, some,
  List, [], ◌∷◌, ltb, arith, subst, length, drop, Bool-cases, Option-cases, inl, inr,
}
use itertk.Conf.{ConfigNet}
use itertk.Client.{Client}
use itertk.Wire.{NetConn, Step, net_conn_close}
use itertk.Web.{Web, Board}
use itertk.Web.Table.{
  Server, Arrival, Round, max_tcp_conn, is_free, raise_to, web_init, take_slot, accept_conn,
  serve_one, serve, close_all, web_process, web_run,
}

abbrev pub AllFree : List NetConn → Type 0
AllFree [] = Unit
AllFree (c ∷ cs) = (c.client_conn ≡ none) × AllFree cs

-- The table has its length, and no connection stands behind the entries that the loop serves.
pub record IsServed (s : Server) : Type 0 where
  pub whole : length s.conns ≡ max_tcp_conn
  pub bound : s.max_i < max_tcp_conn
  pub behind : AllFree (drop (suc s.max_i) s.conns)

-- The new connection stands at its index, the entries behind it are as they were.
record Slot (i : ℕ) (a : Arrival) (cs : List NetConn) (j : ℕ) (r : List NetConn) : Type 0 where
  at : ℕ
  place : j ≡ i + at
  inside : at < length cs
  size : length r ≡ length cs
  after : drop (suc at) r ≡ drop (suc at) cs

take_slot-Slot :
    (i : ℕ) (a : Arrival) (cs : List NetConn) (j : ℕ)
    → (take_slot i a cs).0 ≡ some j
    → Slot i a cs j (take_slot i a cs).1
unfolding take_slot
take_slot-Slot i a [] j e = absurd (let f : none ≡ some j = e in cc)
take_slot-Slot i a (c ∷ cs) j e = elim (Bool-cases (is_free c)) [
  | inl free ↦
      let f : some i ≡ some j = rw free at e in
      let g : i ≡ j = cc in
      rw free (record {
        at = 0;
        place = omega (arith, g);
        inside = omega arith;
        size = refl;
        after = refl;
      })
  | inr taken ↦
      let f : (take_slot (i + 1) a cs).0 ≡ some j = rw taken at e in
      let s = take_slot-Slot (i + 1) a cs j f in
      rw taken (record {
        at = suc s.at;
        place = omega (arith, s.place);
        inside = omega (arith, s.inside);
        size = ap suc s.size;
        after = s.after;
      })
]

AllFree-drop : (k : ℕ) (cs : List NetConn) → AllFree cs → AllFree (drop k cs)
AllFree-drop zero cs h = h
AllFree-drop (suc k) [] h = h
AllFree-drop (suc k) (c ∷ cs) h = AllFree-drop k cs h.1

AllFree-later : (i j : ℕ) (cs : List NetConn) → i ≤ j → AllFree (drop i cs) → AllFree (drop j cs)
AllFree-later zero j cs h f = AllFree-drop j cs f
AllFree-later (suc i) zero cs h f = absurd (omega arith)
AllFree-later (suc i) (suc j) [] h f = f
AllFree-later (suc i) (suc j) (c ∷ cs) h f = AllFree-later i j cs (omega arith) f

raise_to-new : (a b : ℕ) → a ≤ raise_to a b
raise_to-new a b = ground arith

raise_to-old : (a b : ℕ) → b ≤ raise_to a b
raise_to-old a b = ground arith

raise_to_lt : (a b n : ℕ) → a < n → b < n → raise_to a b < n
raise_to_lt a b n h g = ground arith

accept_conn-IsServed :
    (arrival : Option (Option Arrival)) (s : Server) → IsServed s → IsServed (accept_conn arrival s)
unfolding accept_conn
accept_conn-IsServed none s h = h
accept_conn-IsServed (some none) s h = h
accept_conn-IsServed (some (some a)) s h = elim (Bool-cases (ltb 0 a.fd)) [
  | inr zero_fd ↦ rw zero_fd h
  | inl live ↦ elim (Option-cases (take_slot 0 a s.conns).0) [
    | inl full ↦ rw (live, full) h
    | inr (i, e) ↦
        let t = take_slot-Slot 0 a s.conns i e in
        let new = (take_slot 0 a s.conns).1 in
        let top = raise_to i s.max_i in
        let same : i ≡ t.at = omega (arith, t.place) in
        let upto : AllFree (drop (suc top) s.conns) =
          AllFree-later (suc s.max_i) (suc top) s.conns (omega (arith, raise_to-old i s.max_i))
            h.behind in
        rw (live, e)
          (record {
            whole = t.size ∙ h.whole;
            bound =
                raise_to_lt i s.max_i max_tcp_conn (omega (arith, t.inside, h.whole, same)) h.bound;
            behind =
                subst AllFree
                  (sym (
                    drop-same (suc t.at) (suc top) new s.conns
                      (omega (arith, raise_to-new i s.max_i, same)) t.after))
                  upto;
          })
  ]
]
  where
    drop-same :
        (i j : ℕ) (xs ys : List NetConn) → i ≤ j → drop i xs ≡ drop i ys → drop j xs ≡ drop j ys
    drop-same i j xs ys h e =
        let f : i + (j - i) ≡ j = omega (arith, h) in
        let g : (l : List NetConn) → drop j l ≡ drop (j - i) (drop i l) =
          λ l. ap (λ k. drop k l) (sym f) ∙ sym (drop-drop i (j - i) l) in
        g xs ∙ ap (drop (j - i)) e ∙ sym (g ys)

-- The loop over the first `n` entries leaves the later ones.
abbrev Keeps : ℕ → List NetConn → Step (List NetConn × Client × List ConfigNet) → Type 0
Keeps n cs (Step.done r) = (length r.0 ≡ length cs) × (drop n r.0 ≡ drop n cs)
Keeps n cs Step.pending = Unit
Keeps n cs Step.fault = Unit

serve-Keeps :
    (b : Board) (readable : ℕ → Bool) (n : ℕ) (cs : List NetConn) (client : Client)
    (net_set : List ConfigNet)
    → Keeps n cs (serve b readable n cs client net_set)
unfolding serve
serve-Keeps b readable zero cs client net_set = (refl, refl)
serve-Keeps b readable (suc n) [] client net_set = (refl, refl)
serve-Keeps b readable (suc n) (c ∷ cs) client net_set =
    first (λ d m. serve-Keeps b readable n cs d m) (serve_one b readable c client net_set)
  where
    rest :
        (w : Web) (t : Step (List NetConn × Client × List ConfigNet))
        → Keeps n cs t
        → Keeps (suc n) (c ∷ cs) (elim t [
          | Step.done r ↦ Step.done (w.conn ∷ r.0, r.1, r.2)
          | Step.pending ↦ Step.pending
          | Step.fault ↦ Step.fault
        ])
    rest w (Step.done r) h = (ap suc h.0, h.1)
    rest w Step.pending h = tt
    rest w Step.fault h = tt

    first :
        ((d : Client) (m : List ConfigNet) → Keeps n cs (serve b readable n cs d m))
        → (t : Step Web)
        → Keeps (suc n) (c ∷ cs) (elim t [
          | Step.done w ↦ elim (serve b readable n cs w.client w.net_set) [
            | Step.done r ↦ Step.done (w.conn ∷ r.0, r.1, r.2)
            | Step.pending ↦ Step.pending
            | Step.fault ↦ Step.fault
          ]
          | Step.pending ↦ Step.pending
          | Step.fault ↦ Step.fault
        ])
    first ih (Step.done w) =
        rest w (serve b readable n cs w.client w.net_set) (ih w.client w.net_set)
    first ih Step.pending = tt
    first ih Step.fault = tt

net_conn_close-free : (c : NetConn) → c.client_conn ≡ none → (net_conn_close c).client_conn ≡ none
unfolding net_conn_close
net_conn_close-free c e = ground (arith, e)

close_all-AllFree :
    (k : ℕ) (cs : List NetConn) → AllFree (drop k cs) → AllFree (drop k (close_all cs))
unfolding close_all
close_all-AllFree zero [] h = tt
close_all-AllFree (suc k) [] h = tt
close_all-AllFree zero (c ∷ cs) h = (net_conn_close-free c h.0, close_all-AllFree zero cs h.1)
close_all-AllFree (suc k) (c ∷ cs) h = close_all-AllFree k cs h

length-close_all : (cs : List NetConn) → length (close_all cs) ≡ length cs
unfolding close_all
length-close_all [] = refl
length-close_all (c ∷ cs) = ap suc (length-close_all cs)

-- A property of the server, if the round has returned.
abbrev pub Holds : (Server → Type 0) → Step Server → Type 0
Holds P (Step.done s) = P s
Holds P Step.pending = Unit
Holds P Step.fault = Unit

web_process-IsServed :
    (b : Board) (r : Round) (s : Server) → IsServed s → Holds IsServed (web_process b r s)
unfolding web_process
web_process-IsServed b Round.nothing s h = h
web_process-IsServed b Round.interrupted s h = h
web_process-IsServed b Round.failed s h = record {
  whole = length-close_all s.conns ∙ h.whole;
  bound = h.bound;
  behind = close_all-AllFree (suc s.max_i) s.conns h.behind;
}
web_process-IsServed b (Round.ready arrival readable) s h =
    let t = accept_conn arrival s in
    let g = accept_conn-IsServed arrival s h in
    served t g (serve b readable (suc t.max_i) t.conns t.client t.net_set)
      (serve-Keeps b readable (suc t.max_i) t.conns t.client t.net_set)
  where
    served :
        (t : Server)
        → IsServed t
        → (u : Step (List NetConn × Client × List ConfigNet)) → Keeps (suc t.max_i) t.conns u
        → Holds IsServed (elim u [
          | Step.done r ↦ Step.done (record t { conns = r.0; client = r.1; net_set = r.2 })
          | Step.pending ↦ Step.pending
          | Step.fault ↦ Step.fault
        ])
    served t g (Step.done r) k = record {
      whole = k.0 ∙ g.whole;
      bound = g.bound;
      behind = subst AllFree (sym k.1) g.behind;
    }
    served t g Step.pending k = tt
    served t g Step.fault k = tt

web_run-from : (rs : List (Board × Round)) (s : Server) → IsServed s → Holds IsServed (web_run rs s)
unfolding web_run
web_run-from [] s h = h
web_run-from (r ∷ rs) s h =
    next (λ t g. web_run-from rs t g) (web_process r.0 r.1 s) (web_process-IsServed r.0 r.1 s h)
  where
    next :
        ((t : Server) → IsServed t → Holds IsServed (web_run rs t))
        → (t : Step Server) → Holds IsServed t
        → Holds IsServed (elim t [
          | Step.done u ↦ web_run rs u
          | Step.pending ↦ Step.pending
          | Step.fault ↦ Step.fault
        ])
    next ih (Step.done u) g = ih u g
    next ih Step.pending g = tt
    next ih Step.fault g = tt

-- From its start on, whatever connections come, whatever they send and however transfers and select go,
-- the server's table keeps its nine entries, and every connection in it stands at an index that the loop
-- of web_process serves: none is ever left waiting behind m_max_i.
pub web_run-IsServed :
    (rs : List (Board × Round)) (client : Client) (listen : ℕ)
    → Holds IsServed (web_run rs (web_init client listen))
unfolding web_init
web_run-IsServed rs client listen = web_run-from rs (web_init client listen) (record {
  whole = refl;
  bound = omega arith;
  behind = (refl, (refl, (refl, (refl, (refl, (refl, (refl, (refl, tt))))))));
})
