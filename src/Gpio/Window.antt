-- ===== src/Gpio/Window.antt =====
-- An alarm is the memory of a change within the last 30 seconds.
use itertk.Base.{
  ℕ, zero, suc, ◌+◌, ◌≤◌, ◌<◌, ◌≡◌, refl, sym, ◌∙◌, ◌⊎◌, inl, inr, Bool, true, false, Option, none,
  some, List, [], ◌∷◌, arith, ltb, leb, ◌==◌, if◌then◌else◌, u32, Bool-cases, get_or, get_elem?,
  length,
}
use itertk.Gpio.{AlarmInput, alarm_step, alarm_round, alarm_start, alarm_off_timeout}

-- The samples of one input are listed newest first, above the first one.
abbrev pub newest : ℕ → List ℕ → ℕ
newest first [] = first
newest first (u ∷ h) = u

-- One of the newest `k` samples differs from the one before it.
abbrev pub changed_within : ℕ → ℕ → List ℕ → Bool
changed_within zero first h = false
changed_within (suc k) first [] = false
changed_within (suc k) first (u ∷ h) =
    let rest = changed_within k first h in if u == newest first h then rest else true

-- The loop's state for one input after these samples.
pub watch : ℕ → List ℕ → AlarmInput
unfolding alarm_step
watch first [] = record { alarm_init = first; alarm_off_count = 0; alarm_in = 0 }
watch first (u ∷ h) = alarm_step u (watch first h)

watch-newest : (first : ℕ) (h : List ℕ) → (watch first h).alarm_init ≡ newest first h
unfolding watch alarm_step
watch-newest first [] = refl
watch-newest first (u ∷ h) = refl

abbrev one_more : Option ℕ → Option ℕ
one_more none = none
one_more (some n) = some (suc n)

-- The number of samples since the newest change, none if there was none.
since : ℕ → List ℕ → Option ℕ
since first [] = none
since first (u ∷ h) =
    let rest = since first h in if u == newest first h then one_more rest else some 0

is_recent : ℕ → Option ℕ → Bool
is_recent k none = false
is_recent k (some n) = ltb n k

is_recent-zero : (n : Option ℕ) → is_recent 0 n ≡ false
unfolding is_recent
is_recent-zero none = refl
is_recent-zero (some n) = ground arith

is_recent-suc : (k : ℕ) (n : Option ℕ) → is_recent (suc k) (one_more n) ≡ is_recent k n
unfolding is_recent
is_recent-suc k none = refl
is_recent-suc k (some n) = ground arith

changed_within-since :
    (k first : ℕ) (h : List ℕ) → changed_within k first h ≡ is_recent k (since first h)
unfolding since is_recent
changed_within-since zero first h = sym (is_recent-zero (since first h))
changed_within-since (suc k) first [] = refl
changed_within-since (suc k) first (u ∷ h) = elim (Bool-cases (u == newest first h)) [
  | inl e ↦ rw e (changed_within-since k first h ∙ sym (is_recent-suc k (since first h)))
  | inr e ↦ let pos : ltb 0 (suc k) ≡ true = ground arith in rw (e, pos) refl
]

-- The state that the number of samples since the newest change determines.
State : Option ℕ → AlarmInput → Type 0
State none s = s.alarm_in ≡ 0
State (some n) s =
    ((n < 300) × (s.alarm_in ≡ 1) × (s.alarm_off_count ≡ n)) ⊎ ((300 ≤ n) × (s.alarm_in ≡ 0))

quiet-State :
    (u : ℕ) (n : Option ℕ) (s : AlarmInput)
    → State n s
    → u == s.alarm_init ≡ true
    → State (one_more n) (alarm_step u s)
unfolding alarm_step State
quiet-State u none s h e = let off : s.alarm_in == 1 ≡ false = ground arith in rw (e, off) h
quiet-State u (some n) s (inl h) e =
    let on : s.alarm_in == 1 ≡ true = ground (arith, h) in
    let count : u32 (s.alarm_off_count + 1) ≡ suc n = omega (arith, h.0, h.2) in
    elim (Bool-cases (leb alarm_off_timeout (u32 (s.alarm_off_count + 1)))) [
      | inl done ↦ rw (e, on, done) (inr (ground (arith, count), refl))
      | inr more ↦ rw (e, on, more) (inl (ground (arith, count), h.1, count))
    ]
quiet-State u (some n) s (inr h) e =
    let off : s.alarm_in == 1 ≡ false = ground (arith, h) in
    rw (e, off) (inr (omega (arith, h.0), h.1))

watch-State : (first : ℕ) (h : List ℕ) → State (since first h) (watch first h)
unfolding watch since alarm_step State
watch-State first [] = refl
watch-State first (u ∷ h) = elim (Bool-cases (u == newest first h)) [
  | inl e ↦
      let e' : u == (watch first h).alarm_init ≡ true = rw (watch-newest first h) e in
      rw e (quiet-State u (since first h) (watch first h) (watch-State first h) e')
  | inr e ↦
      let e' : u == (watch first h).alarm_init ≡ false = rw (watch-newest first h) e in
      rw (e, e') (inl (omega arith, refl, refl))
]

State-in :
    (n : Option ℕ) (s : AlarmInput) → State n s → s.alarm_in ≡ (if is_recent 300 n then 1 else 0)
unfolding State is_recent
State-in none s h = h
State-in (some n) s (inl h) = let e : ltb n 300 ≡ true = ground (arith, h) in rw e (h.1)
State-in (some n) s (inr h) = let e : ltb n 300 ≡ false = ground (arith, h) in rw e (h.1)

one_input :
    (first : ℕ) (h : List ℕ)
    → (watch first h).alarm_in ≡ (if changed_within 300 first h then 1 else 0)
one_input first h =
    rw (changed_within-since 300 first h)
      (State-in (since first h) (watch first h) (watch-State first h))

-- The loop's state for all inputs after rounds of samples, the newest round first.
abbrev pub watch_all : List ℕ → List (List ℕ) → List AlarmInput
watch_all firsts [] = alarm_start firsts
watch_all firsts (us ∷ h) = alarm_round us (watch_all firsts h)

-- The samples of input `i`.
abbrev pub column : ℕ → List (List ℕ) → List ℕ
column i [] = []
column i (us ∷ h) = get_or us i 0 ∷ column i h

-- Every round has a sample of each of the `n` inputs.
abbrev pub Full : ℕ → List (List ℕ) → Type 0
Full n [] = Unit
Full n (us ∷ h) = (length us ≡ n) × Full n h

start-input :
    (firsts : List ℕ) (i : ℕ)
    → i < length firsts
    → get_elem? (alarm_start firsts) i ≡ some (watch (get_or firsts i 0) [])
unfolding alarm_start watch
start-input [] i h = absurd (omega arith)
start-input (u ∷ us) zero h = refl
start-input (u ∷ us) (suc i) h = start-input us i (omega arith)

round-input :
    (us : List ℕ) (ss : List AlarmInput) (i : ℕ) (s : AlarmInput)
    → i < length us
    → get_elem? ss i ≡ some s
    → get_elem? (alarm_round us ss) i ≡ some (alarm_step (get_or us i 0) s)
unfolding alarm_round
round-input [] ss i s h e = absurd (omega arith)
round-input (u ∷ us) [] i s h e = absurd cc
round-input (u ∷ us) (t ∷ ss) zero s h e = cc
round-input (u ∷ us) (t ∷ ss) (suc i) s h e = round-input us ss i s (omega arith) e

watch_all-input :
    (firsts : List ℕ) (h : List (List ℕ)) (i : ℕ)
    → Full (length firsts) h
    → i < length firsts
    → get_elem? (watch_all firsts h) i ≡ some (watch (get_or firsts i 0) (column i h))
unfolding watch
watch_all-input firsts [] i f l = start-input firsts i l
watch_all-input firsts (us ∷ h) i f l =
    round-input us (watch_all firsts h) i (watch (get_or firsts i 0) (column i h))
      (omega (arith, f.0)) (watch_all-input firsts h i f.1 l)

-- Whatever the samples are, one for each input in a round, after any number of rounds the alarm of an input is on exactly if one of
-- its newest 300 samples, those of the last 30 seconds, differs from the one before it. Other inputs
-- play no part in it.
pub alarm_window :
    (firsts : List ℕ) (h : List (List ℕ)) (i : ℕ)
    → Full (length firsts) h
    → i < length firsts
    → (s : AlarmInput) × (get_elem? (watch_all firsts h) i ≡ some s)
      × (s.alarm_in ≡ (if changed_within 300 (get_or firsts i 0) (column i h) then 1 else 0))
alarm_window firsts h i f l = (
  watch (get_or firsts i 0) (column i h),
  watch_all-input firsts h i f l,
  one_input (get_or firsts i 0) (column i h),
)
