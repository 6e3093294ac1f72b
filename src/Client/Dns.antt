-- ===== src/Client/Dns.antt =====
-- The DNS query of nc600-2.0/src/client.c: `setHead`, `changeDN` and `setQuery`, as `its_dns` composes
-- them. The domain name is a C string; lengths are bytes where the source stores them in a `char`.
pub mod Names
pub mod Answers
pub mod Lookup
pub mod Dotted
pub mod Resolution
pub mod Looked
use itertk.Base.{
  ltb, ◌&&◌, Option, none, some, ℕ, zero, suc, ◌+◌, Bool, List, [], ◌∷◌, Buf, store, copy, ◌==◌,
  if◌then◌else◌, u8, get_or, length,
}

unfoldable pub set_head : Buf → Buf
set_head b =
    let b1 = store (store (store (store b 0 0) 1 0) 2 1) 3 0 in
    let b2 = store (store (store (store b1 4 0) 5 1) 6 0) 7 0 in
    store (store (store (store b2 11 0) 10 0) 9 0) 8 0

-- `changeDN`: the characters left, the domain name, the characters since the last dot, and `name`. In
-- the source `i` is one less than the first argument, and `j` equals it.
unfoldable pub change_dn_loop : ℕ → List ℕ → ℕ → Buf → ℕ × Buf
change_dn_loop zero dn k name = (k, name)
change_dn_loop (suc i) dn k name =
    let dot = change_dn_loop i dn 0 (store name (i + 1) (u8 k)) in
    let letter = change_dn_loop i dn (k + 1) (store name (i + 1) (get_or dn i 0)) in
    if get_or dn i 0 == 46 then dot else letter

-- `changeDN`: the length of the encoded name, and the name.
unfoldable pub change_dn : List ℕ → Buf → ℕ × Buf
unfolding change_dn_loop
change_dn dn name =
    let n = length dn in
    let r = change_dn_loop n dn 0 (store name (n + 1) 0) in (n + 2, store r.1 0 (u8 r.0))

unfoldable pub set_query : Buf → Buf → ℕ → Buf
set_query name b len =
    let pos = len + 12 in
    let b' = copy len b 12 name 0 in
    store (store (store (store b' pos 0) (pos + 1) 1) (pos + 2) 0) (pos + 3) 1

-- The packet that `its_dns` sends, with its length. The buffers are not initialised.
unfoldable pub dns_packet : List ℕ → Buf → Buf → ℕ × Buf
unfolding change_dn set_head set_query
dns_packet dn name b = let r = change_dn dn name in (r.0 + 16, set_query r.1 (set_head b) r.0)

-- The four parts that `sprintf` prints as a dotted quad.
pub record Quad : Type 0 where
  pub part_1 : ℕ
  pub part_2 : ℕ
  pub part_3 : ℕ
  pub part_4 : ℕ

-- The loop of `resolve` over the records from `pos` on. The inner result is none for DNS_FAILED, the
-- outer one is none when the fuel, a number of rounds, is used up. A record's length is its low byte.
unfoldable pub resolve_loop : ℕ → Buf → ℕ → ℕ → ℕ → Option (Option Quad)
resolve_loop zero msg pos cnt len_msg = if ltb pos len_msg then none else some none
resolve_loop (suc fuel) msg pos cnt len_msg =
    let next = pos + 12 + msg (pos + 11) in
    let same = resolve_loop fuel msg next cnt len_msg in
    let alias = resolve_loop fuel msg next (pos + 12) len_msg in
    let found = some (
      some (record {
        part_1 = msg (pos + 12);
        part_2 = msg (pos + 13);
        part_3 = msg (pos + 14);
        part_4 = msg (pos + 15);
      })) in
    if ltb pos len_msg
    then if msg (pos + 3) == 1
      then if msg (pos + 1) == cnt && msg (pos + 5) == 1 then found else same
      else if msg (pos + 3) == 5
      then alias
      else same
    else some none

-- `resolve`, with a round for each byte of the message
unfoldable pub resolve : Buf → ℕ → ℕ → Option (Option Quad)
unfolding resolve_loop
resolve msg len len_msg = resolve_loop len_msg msg len 12 len_msg
