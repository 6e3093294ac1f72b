-- ===== src/Client/Dns/Answers.antt =====
-- The walk over a DNS answer.
use itertk.Base.{
  ℕ, zero, suc, ◌+◌, ◌≤◌, ◌<◌, ◌≡◌, refl, inl, inr, true, false, ◌&&◌, Option, none, some, arith,
  Buf, ltb, ◌==◌, Bool-cases,
}
use itertk.Client.Dns.{Quad, resolve_loop, resolve}

-- the four bytes of a record's data
abbrev pub data_at : Buf → ℕ → Quad
data_at msg pos = record {
  part_1 = msg (pos + 12);
  part_2 = msg (pos + 13);
  part_3 = msg (pos + 14);
  part_4 = msg (pos + 15);
}

loop-returns :
    (fuel : ℕ) (msg : Buf) (pos cnt len_msg : ℕ)
    → len_msg ≤ pos + fuel
    → (r : Option Quad) × (resolve_loop fuel msg pos cnt len_msg ≡ some r)
unfolding resolve_loop
loop-returns zero msg pos cnt len_msg h =
    let over : ltb pos len_msg ≡ false = ground arith in (none, rw over refl)
loop-returns (suc fuel) msg pos cnt len_msg h =
    let next = pos + 12 + msg (pos + 11) in
    let (a, same) = loop-returns fuel msg next cnt len_msg (omega arith) in
    let (b, alias) = loop-returns fuel msg next (pos + 12) len_msg (omega arith) in
    elim (Bool-cases (ltb pos len_msg)) [
      | inr over ↦ (none, rw over refl)
      | inl more ↦ elim (Bool-cases (msg (pos + 3) == 1)) [
        | inl is_a ↦ elim (Bool-cases (msg (pos + 1) == cnt && msg (pos + 5) == 1)) [
          | inl hit ↦ (some (data_at msg pos), rw (more, is_a, hit) refl)
          | inr miss ↦ (a, rw (more, is_a, miss) same)
        ]
        | inr not_a ↦ elim (Bool-cases (msg (pos + 3) == 5)) [
          | inl is_alias ↦ (b, rw (more, not_a, is_alias) alias)
          | inr other ↦ (a, rw (more, not_a, other) same)
        ]
      ]
    ]

-- `resolve` returns for every message: each record moves the position on, so one round for each byte
-- of the message is enough.
pub resolve_total :
    (msg : Buf) (len len_msg : ℕ) → (r : Option Quad) × (resolve msg len len_msg ≡ some r)
unfolding resolve
resolve_total msg len len_msg = loop-returns len_msg msg len 12 len_msg (omega arith)

-- The record at `pos` has this owner (the low byte of the pointer to its name), type and class.
pub record Owned (msg : Buf) (pos owner type : ℕ) : Type 0 where
  pub name : msg (pos + 1) ≡ owner
  pub kind : msg (pos + 3) ≡ type
  pub class : msg (pos + 5) ≡ 1

loop-found :
    (fuel : ℕ) (msg : Buf) (pos cnt len_msg : ℕ)
    → pos < len_msg
    → Owned msg pos cnt 1
    → resolve_loop (suc fuel) msg pos cnt len_msg ≡ some (some (data_at msg pos))
unfolding resolve_loop
loop-found fuel msg pos cnt len_msg h o =
    let more : ltb pos len_msg ≡ true = ground arith in
    let is_a : msg (pos + 3) == 1 ≡ true = ground (arith, o.kind) in
    let hit : msg (pos + 1) == cnt && msg (pos + 5) == 1 ≡ true = ground (arith, o.name, o.class) in
    rw (more, is_a, hit) refl

-- An answer that starts with an address record for the name of the question gives that address.
pub resolve_address :
    (msg : Buf) (len len_msg : ℕ)
    → len < len_msg
    → Owned msg len 12 1
    → resolve msg len len_msg ≡ some (some (data_at msg len))
unfolding resolve
resolve_address msg len zero h o = absurd (omega arith)
resolve_address msg len (suc n) h o = loop-found n msg len 12 (suc n) h o

-- An answer that starts with an alias, followed by an address record for the alias, gives the address
-- of that record, if the alias stands among the first 256 bytes of the message.
pub resolve_alias :
    (msg : Buf) (len len_msg : ℕ)
    → Owned msg len 12 5
    → len + 12 + msg (len + 11) < len_msg
    → Owned msg (len + 12 + msg (len + 11)) (len + 12) 1
    → resolve msg len len_msg ≡ some (some (data_at msg (len + 12 + msg (len + 11))))
unfolding resolve resolve_loop
resolve_alias msg len zero o h p = absurd (omega arith)
resolve_alias msg len (suc zero) o h p = absurd (omega arith)
resolve_alias msg len (suc (suc n)) o h p =
    let more : ltb len (suc (suc n)) ≡ true = ground arith in
    let not_a : msg (len + 3) == 1 ≡ false = ground (arith, o.kind) in
    let is_alias : msg (len + 3) == 5 ≡ true = ground (arith, o.kind) in
    rw (more, not_a, is_alias)
      (loop-found n msg (len + 12 + msg (len + 11)) (len + 12) (suc (suc n)) h p)
