-- ===== src/Base/Buffer.antt =====
-- A byte buffer under a base pointer, as the function from an offset to the byte stored there.
-- That an access stays inside the array that the pointer names is stated by theorems on offsets.
use Prim.Native.Nat.{ℕ, zero, suc, ◌+◌, ◌≤◌, ◌<◌}
use mathlib.Core.Path.{◌≡◌, refl, ap, ap₂, ◌∙◌}
use mathlib.Core.Logic.{◌≢◌}
use mathlib.Core.List.{List, [], ◌∷◌, ◌++◌}
use native.Mathlib.Omega.{arith}
use itertk.Base.Tests.{◌==◌, if◌then◌else◌}
use itertk.Base.Lists.{length}

abbrev pub Buf : Type 0
Buf = ℕ → ℕ

-- `b[i] = v`
abbrev pub store : Buf → ℕ → ℕ → Buf
store b i v k = if k == i then v else b k

-- `b + o`, read only
abbrev pub offset : Buf → ℕ → Buf
offset b o k = b (o + k)

-- the `n` bytes from offset `i` on
abbrev pub bytes : Buf → ℕ → ℕ → List ℕ
bytes b i zero = []
bytes b i (suc n) = b i ∷ bytes b (i + 1) n

-- `memcpy(b + o, src + i, n)`
pub copy : ℕ → Buf → ℕ → Buf → ℕ → Buf
copy zero b o src i = b
copy (suc n) b o src i = copy n (store b o (src i)) (o + 1) src (i + 1)

pub store_self : (b : Buf) (i v : ℕ) → store b i v i ≡ v
store_self b i v = ground arith

pub store_ne : (b : Buf) (i v k : ℕ) → k ≢ i → store b i v k ≡ b k
store_ne b i v k h = ground arith

pub length-bytes : (b : Buf) (i n : ℕ) → length (bytes b i n) ≡ n
length-bytes b i zero = refl
length-bytes b i (suc n) = ap suc (length-bytes b (i + 1) n)

-- A window is read pointwise.
pub bytes_ext :
    (b c : Buf) (i n : ℕ) → ((k : ℕ) → i ≤ k → k < i + n → b k ≡ c k) → bytes b i n ≡ bytes c i n
bytes_ext b c i zero h = refl
bytes_ext b c i (suc n) h =
    ap₂ ◌∷◌ (h i (omega arith) (omega arith))
      (bytes_ext b c (i + 1) n (λ k p q. h k (omega arith) (omega arith)))

pub bytes-append : (b : Buf) (i n m : ℕ) → bytes b i (n + m) ≡ bytes b i n ++ bytes b (i + n) m
bytes-append b i zero m =
    let e : zero + m ≡ m = omega arith in let f : i + zero ≡ i = omega arith in rw (e, f)
bytes-append b i (suc n) m =
    let e : suc n + m ≡ suc (n + m) = omega arith in
    let f : i + suc n ≡ i + 1 + n = omega arith in
    rw (e, f) (ap (λ l. b i ∷ l) (bytes-append b (i + 1) n m))

-- What a copy leaves outside its target, and what it puts inside.
pub copy_below : (n : ℕ) (b : Buf) (o : ℕ) (src : Buf) (i k : ℕ) → k < o → copy n b o src i k ≡ b k
unfolding copy
copy_below zero b o src i k h = refl
copy_below (suc n) b o src i k h =
    ground (arith, copy_below n (store b o (src i)) (o + 1) src (i + 1) k)

pub copy_above :
    (n : ℕ) (b : Buf) (o : ℕ) (src : Buf) (i k : ℕ) → o + n ≤ k → copy n b o src i k ≡ b k
unfolding copy
copy_above zero b o src i k h = refl
copy_above (suc n) b o src i k h =
    ground (arith, copy_above n (store b o (src i)) (o + 1) src (i + 1) k)

pub bytes-copy :
    (n : ℕ) (b : Buf) (o : ℕ) (src : Buf) (i : ℕ) → bytes (copy n b o src i) o n ≡ bytes src i n
unfolding copy
bytes-copy zero b o src i = refl
bytes-copy (suc n) b o src i =
    ap₂ ◌∷◌ (ground (arith, copy_below n (store b o (src i)) (o + 1) src (i + 1) o))
      (bytes-copy n (store b o (src i)) (o + 1) src (i + 1))

pub bytes-offset : (b : Buf) (o i n : ℕ) → bytes (offset b o) i n ≡ bytes b (o + i) n
bytes-offset b o i zero = refl
bytes-offset b o i (suc n) =
    let e : o + (i + 1) ≡ o + i + 1 = omega arith in
    ap (λ l. b (o + i) ∷ l) (rw e at (bytes-offset b o (i + 1) n))

-- consecutive writes from offset `o` on
abbrev pub write_list : Buf → ℕ → List ℕ → Buf
write_list b o [] = b
write_list b o (v ∷ vs) = write_list (store b o v) (o + 1) vs

pub write_list_below : (b : Buf) (o : ℕ) (vs : List ℕ) (k : ℕ) → k < o → write_list b o vs k ≡ b k
write_list_below b o [] k h = refl
write_list_below b o (v ∷ vs) k h = ground (arith, write_list_below (store b o v) (o + 1) vs k)

pub bytes-write_list :
    (b : Buf) (o : ℕ) (vs : List ℕ) → bytes (write_list b o vs) o (length vs) ≡ vs
bytes-write_list b o [] = refl
bytes-write_list b o (v ∷ vs) =
    ap₂ ◌∷◌ (write_list_below (store b o v) (o + 1) vs o (omega arith) ∙ store_self b o v)
      (bytes-write_list (store b o v) (o + 1) vs)
