-- ===== src/Base/Pieces.antt =====
-- Pieces of a frame, written one after the other.
use Prim.Native.Nat.{ℕ, ◌+◌, ◌<◌}
use mathlib.Core.Path.{◌≡◌, ap, ap₂, ◌∙◌}
use mathlib.Core.List.{List, [], ◌∷◌, ◌++◌, append_assoc}
use native.Mathlib.Omega.{arith}
use native.Mathlib.Nat.{zero-add}
use itertk.Base.Lists.{length, length-append}
use itertk.Base.Buffer.{Buf, store, store_self, store_ne, bytes, bytes_ext, bytes-append}

-- From offset `o` on stands the text `t`, as long as the count says, and nothing before it changed.
pub record Piece (o : ℕ) (b : Buf) (t : List ℕ) (r : ℕ × Buf) : Type 0 where
  pub count : r.0 ≡ length t
  pub below : (m : ℕ) → m < o → r.1 m ≡ b m
  pub text : bytes r.1 o (length t) ≡ t

pub Piece-append :
    {o : ℕ} {b : Buf} {t u : List ℕ} {r s : ℕ × Buf}
    → Piece o b t r
    → Piece (o + r.0) r.1 u s
    → Piece o b (t ++ u) (r.0 + s.0, s.1)
Piece-append {o} {b} {t} {u} {r} {s} p q = record {
  count = omega (arith, p.count, q.count, length-append t u);
  below = λ m h. q.below m (omega arith) ∙ p.below m h;
  text =
      let first : bytes s.1 o (length t) ≡ t =
        bytes_ext s.1 r.1 o (length t) (λ k h g. q.below k (omega (arith, p.count))) ∙ p.text in
      let second : bytes s.1 (o + length t) (length u) ≡ u = rw p.count at q.text in
      rw (length-append t u) (bytes-append s.1 o (length t) (length u) ∙ ap₂ ◌++◌ first second);
}

-- A piece after the first `o` bytes, closed by the checksum byte, is the whole frame.
pub Piece-frame :
    {o : ℕ} {b : Buf} {t : List ℕ} {r : ℕ × Buf}
    → Piece o b t r
    → bytes (store r.1 (o + r.0) 0) 0 (o + r.0 + 1) ≡ bytes b 0 o ++ (t ++ (0 ∷ []))
Piece-frame {o} {b} {t} {r} p =
    let whole = store r.1 (o + r.0) 0 in
    let kept : bytes whole 0 (o + r.0) ≡ bytes r.1 0 (o + r.0) =
      bytes_ext whole r.1 0 (o + r.0) (λ k h g. store_ne r.1 (o + r.0) 0 k (λ q. omega arith)) in
    let head : bytes r.1 0 o ≡ bytes b 0 o =
      bytes_ext r.1 b 0 o (λ k h g. p.below k (omega arith)) in
    let body : bytes r.1 (0 + o) r.0 ≡ t = rw (p.count, zero-add) p.text in
    let last : bytes whole (0 + (o + r.0)) 1 ≡ 0 ∷ [] =
      rw zero-add (ap (λ v. v ∷ []) (store_self r.1 (o + r.0) 0)) in
    bytes-append whole 0 (o + r.0) 1
    ∙ ap₂ ◌++◌ (kept ∙ bytes-append r.1 0 o r.0 ∙ ap₂ ◌++◌ head body) last
    ∙ append_assoc (bytes b 0 o) t (0 ∷ [])
