-- ===== src/Pages/Upgrade/Stored.antt =====
-- The file that the upgrade page stores.
use itertk.Base.{
  ℕ, zero, suc, ◌+◌, ◌-◌, ◌*◌, ◌≤◌, ◌<◌, ◌≡◌, refl, ap, ◌∙◌, Bool, true, false, Option, some, List,
  [], ◌∷◌, ◌++◌, arith, ltb, codes, length, take, drop, append-nil, drop-all, if◌then◌else◌,
}
use itertk.Pages.{session_read}
use itertk.Pages.Upgrade.{Disk, write_loop, Upgrade}

-- Full blocks
abbrev pub AllFull : List (List ℕ) → Type 0
AllFull [] = Unit
AllFull (b ∷ bs) = (length b ≡ 1024) × AllFull bs

-- The reads of a file that is `full` blocks and a shorter rest: a read at the end brings nothing.
abbrev pub reads_of : List (List ℕ) → List ℕ → List (List ℕ)
reads_of [] [] = []
reads_of [] (c ∷ last) = (c ∷ last) ∷ []
reads_of (b ∷ full) last = b ∷ reads_of full last

abbrev pub upload_of : List (List ℕ) → List ℕ → List ℕ
upload_of [] last = last
upload_of (b ∷ full) last = b ++ upload_of full last

take-own : (s t : List ℕ) → take (length s) (s ++ t) ≡ s
take-own [] t = refl
take-own (c ∷ s) t = ap (λ l. c ∷ l) (take-own s t)

take-short : (n : ℕ) (s : List ℕ) → length s ≤ n → take n s ≡ s
take-short zero [] h = refl
take-short (suc n) [] h = refl
take-short zero (c ∷ s) h = absurd (omega (arith, h))
take-short (suc n) (c ∷ s) h = ap (λ l. c ∷ l) (take-short n s (omega (arith, h)))

-- With room for a block at every write, what the loop writes is the file, whatever the buffer had in it.
pub write_loop-upload_of :
    (room : ℕ → Option ℕ) (k : ℕ) (full : List (List ℕ)) (last buffer : List ℕ)
    → ((n : ℕ) → room n ≡ some 1024)
    → AllFull full
    → length last < 1024
    → length buffer ≡ 1024
    → write_loop room k (reads_of full last) buffer (1024 * length full + length last)
      ≡ upload_of full last
unfolding write_loop
write_loop-upload_of room k [] [] buffer all f l b = refl
write_loop-upload_of room k [] (c ∷ last) buffer all f l b =
    let short : ltb (length (c ∷ last)) 1024 ≡ true = ground arith in
    let size : 1024 * 0 + length (c ∷ last) ≡ length (c ∷ last) = omega arith in
    rw (size, short, all k)
      (ap (take 1024) (take-own (c ∷ last) (drop (length (c ∷ last)) buffer))
        ∙ take-short 1024 (c ∷ last) (omega (arith, l)))
write_loop-upload_of room k (block ∷ full) last buffer all (h, f) l b =
    let long : ltb (1024 * length (block ∷ full) + length last) 1024 ≡ false = ground arith in
    let rest : drop (length block) buffer ≡ [] =
      drop-all (length block) buffer (omega (arith, h, b)) in
    let less : 1024 * length (block ∷ full) + length last - 1024
        ≡ 1024 * length full + length last =
      omega arith in
    rw
      (
        long,
        rest,
        append-nil block,
        all k,
        take-short 1024 block (omega (arith, h)),
        less,
        write_loop-upload_of room (k + 1) full last block all f l h,
      )
      refl

-- What stands behind an update: a session, the name and a size that are allowed; and the file that is
-- unpacked is the whole upload if it could be opened, and else what it was before.
pub record Stored (disk : Disk) (session : Option (List ℕ)) (name : List ℕ) (size : ℕ)
    (upload : List ℕ) (content : Option (List ℕ)) : Type 0 where
  pub user : List ℕ
  pub logged_in : session_read session ≡ some user
  pub right_name : name ≡ codes "nand1-2.tar.gz"
  pub not_too_large : size ≤ 8 * 1024 * 1024
  pub unpacked : content ≡ (if disk.opened then some upload else disk.old)

abbrev is_restarting : Upgrade → Bool
is_restarting (Upgrade.restarting content) = true
is_restarting other = false
