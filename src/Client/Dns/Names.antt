-- ===== src/Client/Dns/Names.antt =====
-- Domain names in a DNS query: labels, each after its length, and a final 0.
use itertk.Base.{
  ℕ, zero, suc, ◌+◌, ◌≤◌, ◌<◌, ◌≡◌, ◌≢◌, refl, ◌∙◌, ap, ap₂, inl, inr, true, false, List, [], ◌∷◌,
  ◌++◌, append-nil, drop, arith, Buf, store, store_ne, store_self, copy, bytes, bytes_ext,
  bytes-append, bytes-copy, copy_below, ◌==◌, if◌then◌else◌, u8, get_or, length, Bool-cases,
}
use itertk.Client.Dns.{change_dn_loop, change_dn, set_head, set_query, dns_packet}

-- the characters before the first dot
run : List ℕ → ℕ
run [] = 0
run (c ∷ s) = let rest = run s in if c == 46 then 0 else suc rest

-- The text with each dot replaced by the length of the label behind it.
body : List ℕ → List ℕ
body [] = 0 ∷ []
body (c ∷ s) = (if c == 46 then u8 (run s) else c) ∷ body s

length-body : (s : List ℕ) → length (body s) ≡ length s + 1
unfolding body
length-body [] = refl
length-body (c ∷ s) = omega (arith, length-body s)

-- A label: no dot in it, and a length that a byte holds.
abbrev pub NoDot : List ℕ → Type 0
NoDot [] = Unit
NoDot (c ∷ s) = (c ≢ 46) × NoDot s

abbrev pub Labels : List (List ℕ) → Type 0
Labels [] = Unit
Labels (l ∷ ls) = NoDot l × (length l < 256) × Labels ls

-- The text of a name: its labels joined by dots.
abbrev pub joined : List ℕ → List (List ℕ) → List ℕ
joined l [] = l
joined l (m ∷ ms) = l ++ (46 ∷ joined m ms)

-- The name as a packet carries it (RFC 1035).
abbrev pub encoded : List (List ℕ) → List ℕ
encoded [] = 0 ∷ []
encoded (l ∷ ls) = length l ∷ (l ++ encoded ls)

run-label : (l s : List ℕ) → NoDot l → run (l ++ s) ≡ length l + run s
unfolding run
run-label [] s h = omega arith
run-label (c ∷ l) s h =
    let e : (c == 46) ≡ false = ground (arith, h.0) in rw e (omega (arith, run-label l s h.1))

body-label : (l s : List ℕ) → NoDot l → body (l ++ s) ≡ l ++ body s
unfolding body
body-label [] s h = refl
body-label (c ∷ l) s h =
    let e : (c == 46) ≡ false = ground (arith, h.0) in rw e (ap (λ t. c ∷ t) (body-label l s h.1))

-- The two views agree on a name made of labels.
run-dot : (c : ℕ) (s : List ℕ) → c == 46 ≡ true → run (c ∷ s) ≡ 0
unfolding run
run-dot c s e = rw e refl

run-letter : (c : ℕ) (s : List ℕ) → c == 46 ≡ false → run (c ∷ s) ≡ run s + 1
unfolding run
run-letter c s e = rw e (omega arith)

body-dot : (c : ℕ) (s : List ℕ) → c == 46 ≡ true → body (c ∷ s) ≡ u8 (run s) ∷ body s
unfolding body
body-dot c s e = rw e refl

body-letter : (c : ℕ) (s : List ℕ) → c == 46 ≡ false → body (c ∷ s) ≡ c ∷ body s
unfolding body
body-letter c s e = rw e refl

body-joined :
    (l : List ℕ) (ls : List (List ℕ))
    → Labels (l ∷ ls)
    → u8 (run (joined l ls)) ∷ body (joined l ls) ≡ encoded (l ∷ ls)
unfolding run body
body-joined l [] h =
    let r : run l ≡ length l = rw append-nil at (run-label l [] h.0) ∙ omega arith in
    let t : body l ≡ l ++ (0 ∷ []) = rw append-nil at (body-label l [] h.0) in
    let small : u8 (length l) ≡ length l = omega (arith, h.1) in rw r (ap₂ ◌∷◌ small t)
body-joined l (m ∷ ms) h =
    let rest = 46 ∷ joined m ms in
    let r : run (l ++ rest) ≡ length l = run-label l rest h.0 ∙ omega arith in
    let small : u8 (length l) ≡ length l = omega (arith, h.1) in
    rw r (ap₂ ◌∷◌ small (body-label l rest h.0 ∙ ap (λ t. l ++ t) (body-joined m ms h.2)))

drop-next : (dn : List ℕ) (i : ℕ) → i < length dn → drop i dn ≡ get_or dn i 0 ∷ drop (suc i) dn
drop-next [] i h = absurd (omega arith)
drop-next (c ∷ dn) zero h = refl
drop-next (c ∷ dn) (suc i) h = drop-next dn i (omega arith)

put-next :
    (name : Buf) (i v n : ℕ) (t : List ℕ)
    → bytes name (suc i + 1) n ≡ t
    → bytes (store name (i + 1) v) (i + 1) (suc n) ≡ v ∷ t
put-next name i v n t e =
    let next : i + 1 + 1 ≡ suc i + 1 = omega arith in
    ap₂ ◌∷◌ (store_self name (i + 1) v) (
      bytes_ext (store name (i + 1) v) name (i + 1 + 1) n
        (λ k p q. store_ne name (i + 1) v k (λ r. omega (arith, r)))
      ∙ rw next e)

-- What stands in `name` behind the characters left, and what the loop makes of it.
loop-body :
    (m : ℕ) (dn : List ℕ) (name : Buf)
    → m ≤ length dn
    → bytes name (m + 1) (length (drop m dn) + 1) ≡ body (drop m dn)
    → ((change_dn_loop m dn (run (drop m dn)) name).0 ≡ run dn)
      × (bytes (change_dn_loop m dn (run (drop m dn)) name).1 1 (length dn + 1) ≡ body dn)
unfolding change_dn_loop
loop-body zero dn name h g = (refl, g)
loop-body (suc i) dn name h g =
    let c = get_or dn i 0 in
    let t = drop (suc i) dn in
    let here = drop-next dn i (omega arith) in
    let size : length (drop i dn) + 1 ≡ suc (length t + 1) = omega (arith, ap length here) in
    elim (Bool-cases (c == 46)) [
      | inl e ↦
          let r : run (drop i dn) ≡ 0 = ap run here ∙ run-dot c t e in
          let b : body (drop i dn) ≡ u8 (run t) ∷ body t = ap body here ∙ body-dot c t e in
          let all =
            loop-body i dn (store name (i + 1) (u8 (run t))) (omega arith)
              (rw (size, b) (put-next name i (u8 (run t)) (length t + 1) (body t) g)) in
          rw e (rw r at all)
      | inr e ↦
          let r : run (drop i dn) ≡ run t + 1 = ap run here ∙ run-letter c t e in
          let b : body (drop i dn) ≡ c ∷ body t = ap body here ∙ body-letter c t e in
          let all =
            loop-body i dn (store name (i + 1) c) (omega arith)
              (rw (size, b) (put-next name i c (length t + 1) (body t) g)) in
          rw e (rw r at all)
    ]

drop-all : (dn : List ℕ) → drop (length dn) dn ≡ []
drop-all [] = refl
drop-all (c ∷ dn) = drop-all dn

-- The name that `changeDN` makes of a text, whatever stood in the buffer.
change_dn-body :
    (dn : List ℕ) (name : Buf)
    → bytes (change_dn dn name).1 0 (change_dn dn name).0 ≡ u8 (run dn) ∷ body dn
unfolding change_dn run body
change_dn-body dn name =
    let n = length dn in
    let ended = store name (n + 1) 0 in
    let none_left = drop-all dn in
    let start : bytes ended (n + 1) (length (drop n dn) + 1) ≡ body (drop n dn) =
      rw none_left (ap (λ v. v ∷ []) (store_self name (n + 1) 0)) in
    let all = loop-body n dn ended (omega arith) start in
    let first = rw none_left at all.0 in
    let rest = rw none_left at all.1 in
    let made = (change_dn_loop n dn 0 ended).1 in
    let k = (change_dn_loop n dn 0 ended).0 in
    let size : n + 2 ≡ suc (n + 1) = omega arith in
    rw size (
      ap₂ ◌∷◌ (ap u8 first) (
        bytes_ext (store made 0 (u8 k)) made 1 (n + 1)
          (λ i p q. store_ne made 0 (u8 k) i (λ r. omega (arith, r)))
        ∙ rest))

-- `changeDN` turns a name of labels joined by dots, each below 256 characters and without a dot, into
-- the form that a DNS packet carries: each label after its length, and a final 0.
pub change_dn-Labels :
    (l : List ℕ) (ls : List (List ℕ)) (name : Buf)
    → Labels (l ∷ ls)
    → bytes (change_dn (joined l ls) name).1 0 (change_dn (joined l ls) name).0 ≡ encoded (l ∷ ls)
change_dn-Labels l ls name h = change_dn-body (joined l ls) name ∙ body-joined l ls h

set_query-below :
    (name b : Buf) (len k : ℕ) → k < len + 12 → set_query name b len k ≡ copy len b 12 name 0 k
unfolding set_query
set_query-below name b len k h = ground arith

set_query-end :
    (name b : Buf) (len : ℕ) → bytes (set_query name b len) (12 + len) 4 ≡ 0 ∷ 1 ∷ 0 ∷ 1 ∷ []
unfolding set_query
set_query-end name b len =
    let v0 : set_query name b len (12 + len) ≡ 0 = ground arith in
    let v1 : set_query name b len (12 + len + 1) ≡ 1 = ground arith in
    let v2 : set_query name b len (12 + len + 1 + 1) ≡ 0 = ground arith in
    let v3 : set_query name b len (12 + len + 1 + 1 + 1) ≡ 1 = ground arith in
    ap₂ ◌∷◌ v0 (ap₂ ◌∷◌ v1 (ap₂ ◌∷◌ v2 (ap₂ ◌∷◌ v3 refl)))

bytes-set_query :
    (name b : Buf) (len : ℕ)
    → bytes (set_query name b len) 0 (len + 16)
      ≡ bytes b 0 12 ++ (bytes name 0 len ++ (0 ∷ 1 ∷ 0 ∷ 1 ∷ []))
bytes-set_query name b len =
    let packet = set_query name b len in
    let filled = copy len b 12 name 0 in
    let size : len + 16 ≡ 12 + (len + 4) = omega arith in
    let head : bytes packet 0 12 ≡ bytes b 0 12 =
      bytes_ext packet b 0 12
        (λ k p q. set_query-below name b len k (omega arith) ∙ copy_below len b 12 name 0 k q) in
    let middle : bytes packet 12 len ≡ bytes name 0 len =
      bytes_ext packet filled 12 len (λ k p q. set_query-below name b len k (omega arith))
      ∙ bytes-copy len b 12 name 0 in
    rw size (
      bytes-append packet 0 12 (len + 4)
      ∙ ap₂ ◌++◌ head (bytes-append packet 12 len 4 ∙ ap₂ ◌++◌ middle (set_query-end name b len)))

-- The packet that is sent for such a name is a query with identifier 0 for one question: the name,
-- type A and class IN.
pub dns_packet_query :
    (l : List ℕ) (ls : List (List ℕ)) (name b : Buf)
    → Labels (l ∷ ls)
    → bytes (dns_packet (joined l ls) name b).1 0 (dns_packet (joined l ls) name b).0
      ≡ 0 ∷ 0 ∷ 1 ∷ 0 ∷ 0 ∷ 1 ∷ 0 ∷ 0 ∷ 0 ∷ 0 ∷ 0 ∷ 0 ∷ (encoded (l ∷ ls) ++ (0 ∷ 1 ∷ 0 ∷ 1 ∷ []))
unfolding dns_packet set_query set_head
dns_packet_query l ls name b h =
    let r = change_dn (joined l ls) name in
    bytes-set_query r.1 (set_head b) r.0
    ∙ ap (λ t. bytes (set_head b) 0 12 ++ (t ++ (0 ∷ 1 ∷ 0 ∷ 1 ∷ [])))
        (change_dn-Labels l ls name h)
