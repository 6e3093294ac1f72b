-- ===== src/Client/Sensors/Text.antt =====
-- The text of one class in a frame.
use itertk.Base.{
  ℕ, zero, suc, ◌+◌, ◌*◌, ◌≤◌, ◌<◌, ◌≡◌, refl, ◌∙◌, ap₂, false, none, some, List, [], inl, inr, ◌∷◌,
  Buf, store, Piece, arith, ltb, ◌==◌, if◌then◌else◌, u8, length, get_elem?-eq-get_or,
  get_elem?-none, Bool-cases,
}
use itertk.Conf.{ConfigSensor}
use itertk.Client.Sensors.{get_entries, get_one_sensor_buf}
use itertk.Client.Sensors.Entries.{Fits, entries, get_entries-Wrote}

-- A class as it is sent: its type, its count, and its entries, or two zeros for a class with none.
abbrev pub sensor_text : ConfigSensor → List ℕ
sensor_text s =
    s.type ∷ s.num ∷ (if s.num == 0 then 0 ∷ 0 ∷ [] else entries s.seq_num s.attr s.num 0)

pub length-entries : (seq attr : List ℕ) (k j : ℕ) → length (entries seq attr k j) ≡ 2 * k
length-entries seq attr zero j = refl
length-entries seq attr (suc k) j = omega (arith, length-entries seq attr k (j + 1))

pub length-sensor_text : (s : ConfigSensor) → s.num ≤ 8 → length (sensor_text s) ≤ 18
length-sensor_text s h = ground (arith, length-entries s.seq_num s.attr s.num 0)

-- A class whose arrays fit is written whole.
pub get_one_sensor_buf-Piece :
    (s : ConfigSensor) (o : ℕ) (b : Buf)
    → Fits s
    → (r : ℕ × Buf) × (get_one_sensor_buf s o b ≡ some r) × Piece o b (sensor_text s) r
unfolding get_one_sensor_buf
get_one_sensor_buf-Piece s o b f = elim (Bool-cases (s.num == 0)) [
  | inl e ↦
      let b' = store (store b o s.type) (o + 1) s.num in
      (
        (4, store (store b' (o + 2) 0) (o + 3) 0),
        rw e,
        rw e (record { count = refl; below = λ m h. ground arith; text = ground arith }),
      )
  | inr e ↦
      let b' = store (store b o s.type) (o + 1) s.num in
      let (r, eq, w) = get_entries-Wrote s.num 0 0 s o b' f refl (omega arith) in
      (
        (2 + 2 * s.num, r),
        rw (e, eq),
        rw e (record {
          count = omega (arith, length-entries s.seq_num s.attr s.num 0);
          below = λ m h. w.below m (omega arith) ∙ ground arith;
          text =
              let next : o + 1 + 1 ≡ o + 2 + 2 * 0 = omega arith in
              ap₂ ◌∷◌ (w.below o (omega arith) ∙ ground arith) (
                ap₂ ◌∷◌ (w.below (o + 1) (omega arith) ∙ ground arith)
                  (rw (length-entries s.seq_num s.attr s.num 0) (rw next w.text)));
        }),
      )
]

-- More entries than the arrays hold: the loop reads past their end.
pub get_entries-fault :
    (k j i : ℕ) (s : ConfigSensor) (o : ℕ) (b : Buf)
    → length s.seq_num ≡ 8
    → length s.attr ≡ 8
    → j ≤ 8
    → 8 < j + k
    → get_entries k i j s o b ≡ none
unfolding get_entries
get_entries-fault zero j i s o b f g h l = absurd (omega arith)
get_entries-fault (suc k) j i s o b f g h l = elim (Bool-cases (ltb j 8)) [
  | inl e ↦
      let lt : j < 8 = ground arith in
      rw (get_elem?-eq-get_or s.seq_num j 0 (omega arith)) (
        rw (get_elem?-eq-get_or s.attr j 0 (omega arith))
          (get_entries-fault k (j + 1) (u8 (i + 2)) s o _ f g (omega arith) (omega arith)))
  | inr e ↦ rw (get_elem?-none s.seq_num j (ground arith))
]

pub get_one_sensor_buf-fault :
    (s : ConfigSensor) (o : ℕ) (b : Buf)
    → length s.seq_num ≡ 8
    → length s.attr ≡ 8
    → 8 < s.num
    → get_one_sensor_buf s o b ≡ none
unfolding get_one_sensor_buf
get_one_sensor_buf-fault s o b f g h =
    let nonzero : (s.num == 0) ≡ false = ground arith in
    rw nonzero (rw (get_entries-fault s.num 0 0 s o _ f g (omega arith) (omega arith)))
