-- ===== src/Client/Outputs/Stores.antt =====
-- The rounds of `set_io_out`: what they store, and which pins they drive.
use itertk.Base.{
  ℕ, zero, suc, ◌+◌, ◌*◌, ◌≤◌, ◌<◌, ◌≡◌, refl, sym, ◌∙◌, ap, ap₂, false, ◌&&◌, none, some, List, [],
  ◌∷◌, ◌++◌, append_assoc, Buf, arith, ltb, if◌then◌else◌, u8, get_or, set, length, length-set,
  get_or-set_self, get_or-set_ne, lt→ltb, Bool-cases, inl, inr,
}
use itertk.Conf.{ConfigSensor}
use itertk.Client.{Client, Event}
use itertk.Client.Outputs.{output_pin, set_outputs, drive}
use itertk.Client.Sensors.Entries.{entries}

-- The pin of output `seq` set to `v`; a number other than 1 to 4 drives nothing.
abbrev pub drives : ℕ → ℕ → List Event
drives seq v =
    if ltb 0 seq && ltb seq 5
    then Event.gpio (get_or (0 ∷ 96 ∷ 42 ∷ 43 ∷ 44 ∷ []) seq 0) v ∷ []
    else []

-- What `k` groups of three bytes from offset `o` on drive, the last one first.
abbrev pub driven : ℕ → ℕ → Buf → List Event
driven zero o cmd = []
driven (suc k) o cmd = driven k (o + 3) cmd ++ drives (cmd o) (cmd (o + 2))

-- The groups from offset `o` on stand in the entries from `j` on.
pub record Stored (cmd : Buf) (k j o : ℕ) (s t : ConfigSensor) : Type 0 where
  pub seq_len : length t.seq_num ≡ 8
  pub attr_len : length t.attr ≡ 8
  pub num_kept : t.num ≡ s.num
  pub type_kept : t.type ≡ s.type
  pub seq_before : (m : ℕ) → m < j → get_or t.seq_num m 0 ≡ get_or s.seq_num m 0
  pub attr_before : (m : ℕ) → m < j → get_or t.attr m 0 ≡ get_or s.attr m 0
  pub seq_at : (m : ℕ) → m < k → get_or t.seq_num (j + m) 0 ≡ cmd (o + 3 * m)
  pub attr_at : (m : ℕ) → m < k → get_or t.attr (j + m) 0 ≡ cmd (o + 1 + 3 * m)

drive_lem :
    (seq v : ℕ) (c : Client) → drive (output_pin seq) v c ≡ record c { log = drives seq v ++ c.log }
unfolding output_pin
drive_lem zero v c = refl
drive_lem (suc zero) v c = refl
drive_lem (suc (suc zero)) v c = refl
drive_lem (suc (suc (suc zero))) v c = refl
drive_lem (suc (suc (suc (suc zero)))) v c = refl
drive_lem (suc (suc (suc (suc (suc n))))) v c =
    let seq = suc (suc (suc (suc (suc n)))) in
    let free : output_pin seq ≡ none = ground arith in
    let out : ltb 0 seq && ltb seq 5 ≡ false = ground arith in rw (free, out) refl

group_at :
    (l : List ℕ) (b : Buf) (j k o next : ℕ)
    → get_or l j 0 ≡ b o
    → next ≡ o + 3
    → ((m : ℕ) → m < k → get_or l (j + 1 + m) 0 ≡ b (next + 3 * m))
    → (m : ℕ) → m < suc k
    → get_or l (j + m) 0 ≡ b (o + 3 * m)
group_at l b j k o next first e rest zero h =
    let e1 : j + zero ≡ j = omega arith in
    let e2 : o + 3 * zero ≡ o = omega arith in rw (e1, e2) first
group_at l b j k o next first e rest (suc m) h =
    let e1 : j + suc m ≡ j + 1 + m = omega arith in
    let e2 : o + 3 * suc m ≡ next + 3 * m = omega arith in rw (e1, e2) (rest m (omega arith))

pub set_outputs-Stored :
    (k j i : ℕ) (cmd : Buf) (s : ConfigSensor) (c : Client)
    → length s.seq_num ≡ 8
    → length s.attr ≡ 8
    → i ≡ 3 * j
    → j + k ≤ 8
    → (t : ConfigSensor) × (set_outputs k i j cmd s c
        ≡ some (t, record c { log = driven k (5 + i) cmd ++ c.log }))
      × Stored cmd k j (5 + i) s t
unfolding set_outputs
set_outputs-Stored zero j i cmd s c f g e h = (
  s,
  refl,
  record {
    seq_len = f;
    attr_len = g;
    num_kept = refl;
    type_kept = refl;
    seq_before = λ m p. refl;
    attr_before = λ m p. refl;
    seq_at = λ m p. absurd (omega arith);
    attr_at = λ m p. absurd (omega arith);
  },
)
set_outputs-Stored (suc k) j i cmd s c f g e h =
    let s' = record s {
      seq_num = set s.seq_num j (cmd (5 + i));
      attr = set s.attr j (cmd (6 + i));
    } in
    let c' = record c { log = drives (cmd (5 + i)) (cmd (7 + i)) ++ c.log } in
    let (t, eq, w) =
      set_outputs-Stored k (j + 1) (u8 (i + 3)) cmd s' c' (length-set s.seq_num j (cmd (5 + i)) ∙ f)
        (length-set s.attr j (cmd (6 + i)) ∙ g) (omega arith) (omega arith) in
    let next : 5 + u8 (i + 3) ≡ 5 + i + 3 = omega arith in
    let second : 6 + i ≡ 5 + i + 1 = omega arith in
    let third : 5 + i + 2 ≡ 7 + i = omega arith in
    let joined : driven k (5 + u8 (i + 3)) cmd ++ (drives (cmd (5 + i)) (cmd (7 + i)) ++ c.log)
        ≡ driven (suc k) (5 + i) cmd ++ c.log =
      rw (next, third)
        (sym
          (append_assoc (driven k (5 + i + 3) cmd) (drives (cmd (5 + i)) (cmd (7 + i))) c.log)) in
    (
      t,
      rw (lt→ltb j (length s.seq_num) (omega arith)) (
          rw (lt→ltb j (length s.attr) (omega arith)) (
            rw (drive_lem (cmd (5 + i)) (cmd (7 + i)) c)
              (eq ∙ ap (λ l. some (t, record c { log = l })) joined))),
      record {
        seq_len = w.seq_len;
        attr_len = w.attr_len;
        num_kept = w.num_kept;
        type_kept = w.type_kept;
        seq_before = λ m p.
            w.seq_before m (omega arith)
            ∙ get_or-set_ne s.seq_num j m (cmd (5 + i)) 0 (λ q. omega arith);
        attr_before = λ m p.
            w.attr_before m (omega arith)
            ∙ get_or-set_ne s.attr j m (cmd (6 + i)) 0 (λ q. omega arith);
        seq_at =
            group_at t.seq_num cmd j k (5 + i) (5 + u8 (i + 3))
              (w.seq_before j (omega arith)
                ∙ get_or-set_self s.seq_num j (cmd (5 + i)) 0 (omega arith))
              next w.seq_at;
        attr_at =
            group_at t.attr cmd j k (5 + i + 1) (5 + u8 (i + 3) + 1)
              (w.attr_before j (omega arith)
                ∙ get_or-set_self s.attr j (cmd (6 + i)) 0 (omega arith)
                ∙ ap cmd second)
              (omega arith) w.attr_at;
      },
    )

-- Number and attribute of `k` groups from offset `o` on.
abbrev pub groups : ℕ → ℕ → Buf → List ℕ
groups zero o cmd = []
groups (suc k) o cmd = cmd o ∷ cmd (o + 1) ∷ groups k (o + 3) cmd

group_next :
    (l : List ℕ) (cmd : Buf) (k j o : ℕ)
    → ((m : ℕ) → m < suc k → get_or l (j + m) 0 ≡ cmd (o + 3 * m))
    → (m : ℕ) → m < k
    → get_or l (j + 1 + m) 0 ≡ cmd (o + 3 + 3 * m)
group_next l cmd k j o h m lt =
    let e1 : j + 1 + m ≡ j + suc m = omega arith in
    let e2 : o + 3 + 3 * m ≡ o + 3 * suc m = omega arith in rw (e1, e2) (h (suc m) (omega arith))

group_first :
    (l : List ℕ) (cmd : Buf) (k j o : ℕ)
    → ((m : ℕ) → m < suc k → get_or l (j + m) 0 ≡ cmd (o + 3 * m))
    → get_or l j 0 ≡ cmd o
group_first l cmd k j o h =
    let e1 : j + 0 ≡ j = omega arith in
    let e2 : o + 3 * 0 ≡ o = omega arith in rw (e1, e2) at (h 0 (omega arith))

pub entries-groups :
    (k j o : ℕ) (seq attr : List ℕ) (cmd : Buf)
    → ((m : ℕ) → m < k → get_or seq (j + m) 0 ≡ cmd (o + 3 * m))
    → ((m : ℕ) → m < k → get_or attr (j + m) 0 ≡ cmd (o + 1 + 3 * m))
    → entries seq attr k j ≡ groups k o cmd
entries-groups zero j o seq attr cmd f g = refl
entries-groups (suc k) j o seq attr cmd f g =
    let e : o + 1 + 3 ≡ o + 3 + 1 = omega arith in
    ap₂ ◌∷◌ (group_first seq cmd k j o f) (
      ap₂ ◌∷◌ (group_first attr cmd k j (o + 1) g) (
        entries-groups k (j + 1) (o + 3) seq attr cmd (group_next seq cmd k j o f)
          (rw e at (group_next attr cmd k j (o + 1) g))))

pub set_outputs-fault :
    (k j i : ℕ) (cmd : Buf) (s : ConfigSensor) (c : Client)
    → length s.seq_num ≡ 8
    → length s.attr ≡ 8
    → 8 < j + k
    → j ≤ 8
    → set_outputs k i j cmd s c ≡ none
unfolding set_outputs
set_outputs-fault zero j i cmd s c f g h l = absurd (omega arith)
set_outputs-fault (suc k) j i cmd s c f g h l = elim (Bool-cases (ltb j 8)) [
  | inl e ↦
      let lt : j < 8 = ground arith in
      let s' = record s {
        seq_num = set s.seq_num j (cmd (5 + i));
        attr = set s.attr j (cmd (6 + i));
      } in
      rw (lt→ltb j (length s.seq_num) (omega arith), lt→ltb j (length s.attr) (omega arith))
        (set_outputs-fault k (j + 1) (u8 (i + 3)) cmd s'
          (drive (output_pin (cmd (5 + i))) (cmd (7 + i)) c)
          (length-set s.seq_num j (cmd (5 + i)) ∙ f) (length-set s.attr j (cmd (6 + i)) ∙ g)
          (omega arith) (omega arith))
  | inr e ↦ let out : ltb j (length s.seq_num) ≡ false = ground arith in rw out refl
]
