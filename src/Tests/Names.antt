-- ===== src/Tests/Names.antt =====
-- DNS queries and answers.
use itertk.Base.{◌≡◌, [], ◌∷◌, Option, some, Buf}
use itertk.Client.Dns.{Quad, resolve}
use itertk.Client.Dns.Answers.{resolve_total}
use itertk.Tests.{frame}

resolve_total_example : (r : Option Quad) × (resolve (λ k. 5) 20 100 ≡ some r)
resolve_total_example = resolve_total (λ k. 5) 20 100

-- one address record, 10.0.0.7
abbrev address : Buf
address = frame (192 ∷ 12 ∷ 0 ∷ 1 ∷ 0 ∷ 1 ∷ 0 ∷ 0 ∷ 0 ∷ 9 ∷ 0 ∷ 4 ∷ 10 ∷ 0 ∷ 0 ∷ 7 ∷ [])

-- an alias at 2 and the address of the alias at 16
abbrev alias : Buf
alias = frame (
    0 ∷ 0 ∷ 192 ∷ 12 ∷ 0 ∷ 5 ∷ 0 ∷ 1 ∷ 0 ∷ 0 ∷ 0 ∷ 9 ∷ 0 ∷ 2 ∷ 192 ∷ 12 ∷ 192 ∷ 14 ∷ 0 ∷ 1 ∷ 0 ∷ 1
    ∷ 0 ∷ 0 ∷ 0 ∷ 9 ∷ 0 ∷ 4 ∷ 10 ∷ 0 ∷ 0 ∷ 7 ∷ [])
