-- ===== src/Mode/Sockets.antt =====
-- The accepted connections of a server session over its life.
use itertk.Base.{
  ℕ, zero, suc, ◌+◌, ◌≡◌, refl, sym, ap, ◌∙◌, true, Option, none, some, List, [], ◌∷◌, ◌++◌,
  append-nil, ◌==◌, ◌||◌, not, arith, replicate, Bool-cases, Option-cases, inl, inr, ap₂,
}
use itertk.Conf.{ConfigSession}
use itertk.Mode.{
  ModeConfig, Output, Arrivals, Received, closed, not_in_use, in_use, close_sockets, mode_stop,
  take_socket, read_sockets, server_turn, mode_step, same_session, work_no,
}

abbrev pub all_closed : List (Option ℕ) → List Output
all_closed [] = []
all_closed (s ∷ ss) = closed s ∷ all_closed ss

abbrev pub NoneInUse : List (Option ℕ) → Type 0
NoneInUse [] = Unit
NoneInUse (s ∷ ss) = (not_in_use s ≡ true) × NoneInUse ss

close_sockets-NoneInUse : (ss : List (Option ℕ)) → NoneInUse (close_sockets ss).0
unfolding close_sockets
close_sockets-NoneInUse [] = tt
close_sockets-NoneInUse (s ∷ ss) = elim (Bool-cases (not_in_use s)) [
  | inl free ↦ rw free (free, close_sockets-NoneInUse ss)
  | inr taken ↦ rw taken (refl, close_sockets-NoneInUse ss)
]

close_sockets-closed : (ss : List (Option ℕ)) → (close_sockets ss).1 ≡ all_closed (in_use ss)
unfolding close_sockets
close_sockets-closed [] = refl
close_sockets-closed (s ∷ ss) = elim (Bool-cases (not_in_use s)) [
  | inl free ↦ rw free (close_sockets-closed ss)
  | inr taken ↦ rw taken (ap (λ l. closed s ∷ l) (close_sockets-closed ss))
]

-- When a working session changes in any of its fields, or the port is set to do no work, the thread
-- closes its socket and each accepted connection that stands in its table, once and in the table's
-- order, and it starts again with no entry in use.
pub session_change_closes :
    (work : ℕ) (session tmp : ConfigSession) (i : Arrivals) (md : ModeConfig)
    → md.working ≡ some tmp
    → (work == work_no || not (same_session session tmp)) ≡ true
    → ((mode_step work session i md).1 ≡ closed md.fd ∷ all_closed (in_use md.sfd))
      × ((mode_step work session i md).0.working ≡ none)
      × NoneInUse (mode_step work session i md).0.sfd
unfolding mode_step mode_stop
session_change_closes work session tmp i md w c =
    rw (w, c, mode_step)
      (
        ap (λ l. closed md.fd ∷ l) (close_sockets-closed md.sfd),
        refl,
        close_sockets-NoneInUse md.sfd,
      )

-- `accept` fails once.
abbrev pub failing : Arrivals
failing = record { opened = none; accepted = some none; received = λ n. none }

abbrev pub fail_times : ℕ → ModeConfig → ModeConfig
fail_times zero md = md
fail_times (suc n) md = fail_times n (server_turn failing md).0

-- A failed connection takes an entry that is free, and reading leaves it.
lost : ℕ → ℕ → List (Option ℕ)
lost n k = replicate n none ++ replicate k (some 0)

read_none :
    (n k : ℕ) (received : ℕ → Option Received) → read_sockets received (lost n k) ≡ (lost n k, [])
unfolding read_sockets lost
read_none zero zero received = refl
read_none zero (suc k) received = rw (read_none zero k received) refl
read_none (suc n) k received = rw (read_none n k received) refl

take_lost : (n k : ℕ) → take_socket none (lost n (suc k)) ≡ (lost (suc n) k, [])
unfolding take_socket lost
take_lost zero k = refl
take_lost (suc n) k = rw (take_lost n k) refl

take_full : (new : Option ℕ) (n : ℕ) → take_socket new (lost n 0) ≡ (lost n 0, closed new ∷ [])
unfolding take_socket lost
take_full new zero = refl
take_full new (suc n) = rw (take_full new n) refl

fail_times-lost :
    (k n : ℕ) (md : ModeConfig)
    → md.sfd ≡ lost n k
    → fail_times k md ≡ record md { sfd = lost (n + k) 0 }
unfolding server_turn
fail_times-lost zero n md e =
    let z : n + 0 ≡ n = omega arith in rw z (ap (λ (s : List (Option ℕ)). record md { sfd = s }) e)
fail_times-lost (suc k) n md e =
    let next : ModeConfig = record md { sfd = lost (suc n) k } in
    let turn : (server_turn failing md).0 ≡ next =
      rw (e, take_lost n k, read_none (suc n) k (λ n. none)) refl in
    let sum : suc n + k ≡ n + suc k = omega arith in
    ap (fail_times k) turn
    ∙ fail_times-lost k (suc n) next refl
    ∙ ap (λ m. record md { sfd = lost m 0 }) sum

-- The turns of a session, one after the other.
abbrev pub run_turns : List Arrivals → ModeConfig → ModeConfig
run_turns [] md = md
run_turns (i ∷ is) md = run_turns is (server_turn i md).0

blocked_turn :
    (n : ℕ) (md : ModeConfig) (i : Arrivals)
    → (server_turn i (record md { sfd = lost n 0 })).0 ≡ record md { sfd = lost n 0 }
unfolding server_turn
blocked_turn n md i = elim (Option-cases i.accepted) [
  | inl quiet ↦ rw (quiet, read_none n 0 i.received) refl
  | inr (new, a) ↦ rw (a, take_full new n, read_none n 0 i.received) refl
]

blocked_turns :
    (n : ℕ) (md : ModeConfig) (is : List Arrivals)
    → run_turns is (record md { sfd = lost n 0 }) ≡ record md { sfd = lost n 0 }
blocked_turns n md [] = refl
blocked_turns n md (i ∷ is) = ap (run_turns is) (blocked_turn n md i) ∙ blocked_turns n md is

closed_turn :
    (n : ℕ) (md : ModeConfig) (i : Arrivals) (new : Option ℕ)
    → i.accepted ≡ some new
    → (server_turn i (record md { sfd = lost n 0 })).1 ≡ closed new ∷ []
unfolding server_turn
closed_turn n md i new a = rw (a, take_full new n, read_none n 0 i.received) refl

-- A connection that `accept` fails to give is stored as -1, which no turn of the session clears: once
-- accept has failed n times for a table of n free entries, the table holds -1 only, whatever turns of
-- server_turn follow leave it so, and after them a connection that comes is closed at once and no
-- byte is received. What ends this, a change of the session, is not a turn of server_turn.
pub accept_errors_block :
    (n : ℕ) (md : ModeConfig) (later : List Arrivals) (i : Arrivals) (new : Option ℕ)
    → md.sfd ≡ replicate n (some 0)
    → i.accepted ≡ some new
    → ((run_turns later (fail_times n md)).sfd ≡ replicate n none)
      × (server_turn i (run_turns later (fail_times n md))
          ≡ (run_turns later (fail_times n md), closed new ∷ []))
unfolding lost
accept_errors_block n md later i new e a =
    let sum : 0 + n ≡ n = omega arith in
    let filled : fail_times n md ≡ record md { sfd = lost n 0 } =
      fail_times-lost n 0 md e ∙ ap (λ m. record md { sfd = lost m 0 }) sum in
    let stays : run_turns later (fail_times n md) ≡ record md { sfd = lost n 0 } =
      ap (run_turns later) filled ∙ blocked_turns n md later in
    (
      ap (λ (m : ModeConfig). m.sfd) stays ∙ append-nil (replicate n none),
      ap (server_turn i) stays
          ∙ ap₂ (λ (m : ModeConfig) (o : List Output). (m, o)) (blocked_turn n md i)
              (closed_turn n md i new a)
          ∙ ap (λ m. (m, closed new ∷ [])) (sym stays),
    )
