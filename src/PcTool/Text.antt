-- ===== src/PcTool/Text.antt =====
-- Texts that are joined with a separator and taken apart again.
use itertk.Base.{
  ℕ, ◌≡◌, refl, sym, ap, ◌∙◌, true, false, List, [], ◌∷◌, ◌++◌, arith, ◌==◌, append-nil,
  append_assoc,
}
use itertk.PcTool.Report.{join}
use itertk.PcTool.{tokens_from, close_token, strtok}

-- no separator in a text
abbrev pub Clear : ℕ → List ℕ → Type 0
Clear sep [] = Unit
Clear sep (c ∷ s) = ((c == sep) ≡ false) × Clear sep s

pub Clear-append : (sep : ℕ) (s t : List ℕ) → Clear sep s → Clear sep t → Clear sep (s ++ t)
Clear-append sep [] t h g = g
Clear-append sep (c ∷ s) t h g = (h.0, Clear-append sep s t h.1 g)

-- A text that `strtok` gives as one token.
pub record Token (sep : ℕ) (s : List ℕ) : Type 0 where
  pub clear : Clear sep s
  pub first : ℕ
  pub rest : List ℕ
  pub shape : s ≡ first ∷ rest

abbrev pub Tokens : ℕ → List (List ℕ) → Type 0
Tokens sep [] = Unit
Tokens sep (s ∷ ss) = Token sep s × Tokens sep ss

tokens_from-sep :
    (sep : ℕ) (cur s rest : List ℕ)
    → Clear sep s
    → tokens_from sep cur (s ++ (sep ∷ rest)) ≡ close_token (cur ++ s) (tokens_from sep [] rest)
unfolding tokens_from
tokens_from-sep sep cur [] rest h =
    let e : (sep == sep) ≡ true = ground arith in rw (e, append-nil cur) refl
tokens_from-sep sep cur (c ∷ s) rest h =
    rw (h.0, sym (append_assoc cur (c ∷ []) s)) (tokens_from-sep sep (cur ++ (c ∷ [])) s rest h.1)

tokens_from-end :
    (sep : ℕ) (cur s : List ℕ) → Clear sep s → tokens_from sep cur s ≡ close_token (cur ++ s) []
unfolding tokens_from
tokens_from-end sep cur [] h = rw (append-nil cur) refl
tokens_from-end sep cur (c ∷ s) h =
    rw (h.0, sym (append_assoc cur (c ∷ []) s)) (tokens_from-end sep (cur ++ (c ∷ [])) s h.1)

close_token-Token :
    (sep : ℕ) (s : List ℕ) (rest : List (List ℕ)) → Token sep s → close_token s rest ≡ s ∷ rest
close_token-Token sep s rest t = rw t.shape refl

-- Joined tokens are taken apart again.
pub strtok-join : (sep : ℕ) (ss : List (List ℕ)) → Tokens sep ss → strtok sep (join sep ss) ≡ ss
unfolding strtok tokens_from
strtok-join sep [] h = refl
strtok-join sep (s ∷ []) h = tokens_from-end sep [] s h.0.clear ∙ close_token-Token sep s [] h.0
strtok-join sep (s ∷ t ∷ ts) h =
    tokens_from-sep sep [] s (join sep (t ∷ ts)) h.0.clear
    ∙ close_token-Token sep s (tokens_from sep [] (join sep (t ∷ ts))) h.0
    ∙ ap (λ l. s ∷ l) (strtok-join sep (t ∷ ts) h.1)
