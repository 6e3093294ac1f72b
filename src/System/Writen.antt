-- ===== src/System/Writen.antt =====
-- `writen` of nc600-2.0/src/system.c (and `writen_rs485`, whose loop is the same): the loop that
-- passes a block to a serial device until all of it is taken.
use itertk.Base.{
  ℕ, ◌≤◌, ◌<◌, ◌≡◌, refl, ◌∙◌, ap, ◌⊎◌, inl, inr, Option, none, some, List, [], ◌∷◌, ◌++◌,
  append-nil, append_assoc, arith, length, take, drop, take-append-drop, length-drop_lt,
}

-- What a call returned (`none` for a negative value) and the bytes that the device took.
pub record Sent : Type 0 where
  pub ret : Option ℕ
  pub taken : List ℕ

-- `nleft > 0` is tested against the bytes left. The list holds the results of the successive calls of
-- `write`, `none` for a negative one; a positive result takes that many bytes. The value `none` says
-- that these results do not let the loop end.
unfoldable pub writen : List (Option ℕ) → List ℕ → List ℕ → Option Sent
writen rs [] taken = some (record { ret = some (length taken); taken = taken })
writen [] (b ∷ left) taken = none
writen (none ∷ rs) (b ∷ left) taken = some (record { ret = none; taken = taken })
writen (some k ∷ rs) (b ∷ left) taken = writen rs (drop k (b ∷ left)) (taken ++ take k (b ∷ left))

-- Every call of `write` takes at least one byte.
abbrev pub Progress : List (Option ℕ) → Type 0
Progress [] = Unit
Progress (none ∷ rs) = ⊥
Progress (some k ∷ rs) = (0 < k) × Progress rs

-- A result is what the loop promises for a block: all of it taken and its length returned, or a
-- negative value after a first part of it.
abbrev pub Outcome : List ℕ → Option Sent → Type 0
Outcome block none = Unit
Outcome block (some s) =
    ((s.ret ≡ some (length block)) × (s.taken ≡ block))
    ⊎ ((s.ret ≡ none) × ((rest : List ℕ) × (s.taken ++ rest ≡ block)))

writen-split :
    (rs : List (Option ℕ)) (left taken block : List ℕ)
    → taken ++ left ≡ block
    → Outcome block (writen rs left taken)
unfolding writen
writen-split rs [] taken block e =
    let f : taken ≡ block = rw append-nil at e in inl (ap (λ l. some (length l)) f, f)
writen-split [] (b ∷ left) taken block e = tt
writen-split (none ∷ rs) (b ∷ left) taken block e = inr (refl, (b ∷ left, e))
writen-split (some k ∷ rs) (b ∷ left) taken block e =
    writen-split rs (drop k (b ∷ left)) (taken ++ take k (b ∷ left)) block (
      append_assoc taken (take k (b ∷ left)) (drop k (b ∷ left))
      ∙ ap (λ l. taken ++ l) (take-append-drop k (b ∷ left))
      ∙ e)

-- Whatever the device answers, a call of `writen` that returns has either passed exactly the block, in
-- order and once, and returns its length, or returns a negative value after a first part of the block.
pub writen-Outcome : (rs : List (Option ℕ)) (block : List ℕ) → Outcome block (writen rs block [])
writen-Outcome rs block = writen-split rs block [] block refl

writen-total :
    (rs : List (Option ℕ)) (left taken : List ℕ)
    → Progress rs
    → length left ≤ length rs
    → writen rs left taken
      ≡ some (record { ret = some (length (taken ++ left)); taken = taken ++ left })
unfolding writen
writen-total rs [] taken p h = rw append-nil
writen-total [] (b ∷ left) taken p h = absurd (omega arith)
writen-total (none ∷ rs) (b ∷ left) taken p h = absurd p
writen-total (some k ∷ rs) (b ∷ left) taken p h =
    writen-total rs (drop k (b ∷ left)) (taken ++ take k (b ∷ left)) p.1
      (omega (arith, length-drop_lt k b left p.0))
    ∙ ap (λ l. some (record { ret = some (length l); taken = l }))
        (append_assoc taken (take k (b ∷ left)) (drop k (b ∷ left))
          ∙ ap (λ l. taken ++ l) (take-append-drop k (b ∷ left)))

-- A device that takes at least one byte at each call gets the whole block within as many calls as the
-- block has bytes, and `writen` returns the block's length.
pub writen_total :
    (rs : List (Option ℕ)) (block : List ℕ)
    → Progress rs
    → length block ≤ length rs
    → writen rs block [] ≡ some (record { ret = some (length block); taken = block })
writen_total rs block p h = writen-total rs block [] p h
