-- ===== src/Client/Sensors/Entries.antt =====
-- What the loops over a class's entries write and read.
use itertk.Base.{
  ℕ, zero, suc, ◌+◌, ◌*◌, ◌≤◌, ◌<◌, ◌≡◌, refl, ◌∙◌, ap, ap₂, some, List, [], ◌∷◌, Buf, store,
  store_ne, bytes, arith, u8, get_or, set, length, length-set, get_elem?-eq-get_or, get_or-set_self,
  get_or-set_ne, lt→ltb,
}
use itertk.Conf.{ConfigSensor}
use itertk.Client.Sensors.{get_entries, set_entries}

-- The arrays of a class hold eight bytes each, and no more entries are in use.
pub record Fits (s : ConfigSensor) : Type 0 where
  pub num_le : s.num ≤ 8
  pub seq_len : length s.seq_num ≡ 8
  pub attr_len : length s.attr ≡ 8

-- The bytes of `k` entries from entry `j` on, as they stand in a frame.
abbrev pub entries : List ℕ → List ℕ → ℕ → ℕ → List ℕ
entries seq attr zero j = []
entries seq attr (suc k) j = get_or seq j 0 ∷ get_or attr j 0 ∷ entries seq attr k (j + 1)

pub record Wrote (s : ConfigSensor) (o : ℕ) (b : Buf) (k j : ℕ) (r : Buf) : Type 0 where
  pub below : (m : ℕ) → m < o + 2 + 2 * j → r m ≡ b m
  pub text : bytes r (o + 2 + 2 * j) (2 * k) ≡ entries s.seq_num s.attr k j

-- The loop writes the entries in order and nothing before them.
pub get_entries-Wrote :
    (k j i : ℕ) (s : ConfigSensor) (o : ℕ) (b : Buf)
    → Fits s
    → i ≡ 2 * j
    → j + k ≤ 8
    → (r : Buf) × (get_entries k i j s o b ≡ some r) × Wrote s o b k j r
unfolding get_entries
get_entries-Wrote zero j i s o b f e h = (b, refl, record { below = λ m p. refl; text = refl })
get_entries-Wrote (suc k) j i s o b f e h =
    let b' = store (store b (o + 2 + i) (get_or s.seq_num j 0)) (o + 3 + i) (get_or s.attr j 0) in
    let (r, eq, w) =
      get_entries-Wrote k (j + 1) (u8 (i + 2)) s o b' f (omega arith) (omega arith) in
    (
      r,
      rw (get_elem?-eq-get_or s.seq_num j 0 (omega (arith, f.seq_len)))
          (rw (get_elem?-eq-get_or s.attr j 0 (omega (arith, f.attr_len))) eq),
      record {
        below = λ m p.
            w.below m (omega arith)
            ∙ store_ne (store b (o + 2 + i) (get_or s.seq_num j 0)) (o + 3 + i) (get_or s.attr j 0)
                m (λ q. omega arith)
            ∙ store_ne b (o + 2 + i) (get_or s.seq_num j 0) m (λ q. omega arith);
        text =
            let twice : 2 * suc k ≡ suc (suc (2 * k)) = omega arith in
            let here : b' (o + 2 + 2 * j) ≡ get_or s.seq_num j 0 = ground arith in
            let there : b' (o + 2 + 2 * j + 1) ≡ get_or s.attr j 0 = ground arith in
            let next : o + 2 + 2 * j + 1 + 1 ≡ o + 2 + 2 * (j + 1) = omega arith in
            rw twice (
              ap₂ ◌∷◌ (w.below (o + 2 + 2 * j) (omega arith) ∙ here)
                (ap₂ ◌∷◌ (w.below (o + 2 + 2 * j + 1) (omega arith) ∙ there) (rw next w.text)));
      },
    )

-- What the reading loop leaves in a class: the entries of the frame, in arrays of eight bytes.
pub record Read (s : ConfigSensor) (b : Buf) (k j : ℕ) (t : ConfigSensor) : Type 0 where
  pub seq_len : length t.seq_num ≡ 8
  pub attr_len : length t.attr ≡ 8
  pub num_kept : t.num ≡ s.num
  pub type_kept : t.type ≡ s.type
  pub seq_before : (m : ℕ) → m < j → get_or t.seq_num m 0 ≡ get_or s.seq_num m 0
  pub attr_before : (m : ℕ) → m < j → get_or t.attr m 0 ≡ get_or s.attr m 0
  pub text : entries t.seq_num t.attr k j ≡ bytes b (1 + 2 * j) (2 * k)

pub set_entries-Read :
    (k j i : ℕ) (s : ConfigSensor) (b : Buf)
    → length s.seq_num ≡ 8
    → length s.attr ≡ 8
    → i ≡ 2 * j
    → j + k ≤ 8
    → (t : ConfigSensor) × (set_entries k i j b s ≡ some t) × Read s b k j t
unfolding set_entries
set_entries-Read zero j i s b f g e h = (
  s,
  refl,
  record {
    seq_len = f;
    attr_len = g;
    num_kept = refl;
    type_kept = refl;
    seq_before = λ m p. refl;
    attr_before = λ m p. refl;
    text = refl;
  },
)
set_entries-Read (suc k) j i s b f g e h =
    let s' = record s { seq_num = set s.seq_num j (b (1 + i)); attr = set s.attr j (b (2 + i)) } in
    let (t, eq, w) =
      set_entries-Read k (j + 1) (u8 (i + 2)) s' b (length-set s.seq_num j (b (1 + i)) ∙ f)
        (length-set s.attr j (b (2 + i)) ∙ g) (omega arith) (omega arith) in
    (
      t,
      rw (lt→ltb j (length s.seq_num) (omega arith))
          (rw (lt→ltb j (length s.attr) (omega arith)) eq),
      record {
        seq_len = w.seq_len;
        attr_len = w.attr_len;
        num_kept = w.num_kept;
        type_kept = w.type_kept;
        seq_before = λ m p.
            w.seq_before m (omega arith)
            ∙ get_or-set_ne s.seq_num j m (b (1 + i)) 0 (λ q. omega arith);
        attr_before = λ m p.
            w.attr_before m (omega arith)
            ∙ get_or-set_ne s.attr j m (b (2 + i)) 0 (λ q. omega arith);
        text =
            let twice : 2 * suc k ≡ suc (suc (2 * k)) = omega arith in
            let i1 : 1 + i ≡ 1 + 2 * j = omega arith in
            let i2 : 2 + i ≡ 1 + 2 * j + 1 = omega arith in
            let next : 1 + 2 * j + 1 + 1 ≡ 1 + 2 * (j + 1) = omega arith in
            rw twice (
              ap₂ ◌∷◌
                (w.seq_before j (omega arith)
                  ∙ get_or-set_self s.seq_num j (b (1 + i)) 0 (omega arith)
                  ∙ ap b i1)
                (ap₂ ◌∷◌
                  (w.attr_before j (omega arith)
                    ∙ get_or-set_self s.attr j (b (2 + i)) 0 (omega arith)
                    ∙ ap b i2)
                  (rw next w.text)));
      },
    )
