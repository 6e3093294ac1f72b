-- ===== src/Pages/Upgrade.antt =====
-- The page that takes a new system: web/src/upgrade/upgrade.c. The file that is uploaded, with its name,
-- is a parameter, as are the blocks that the reads of cgic bring.
pub mod Stored
use itertk.Base.{
  ℕ, ◌+◌, ◌-◌, ◌*◌, Bool, true, false, Option, none, some, List, [], ◌∷◌, ◌++◌, ltb, ◌&&◌,
  if◌then◌else◌, codes, length, take, drop, replicate, str_eq,
}
use itertk.Pages.{Cgi, session_read}

-- What cgic has of the field "upfile", if it is there: its name, its size, and what each read of at most
-- 1024 bytes brings; none if the file cannot be opened.
pub record Upload : Type 0 where
  pub name : List ℕ
  pub size : ℕ
  pub reads : Option (List (List ℕ))

-- What the file system does: the file as it was (none if there is none), whether `open` gives a
-- descriptor, and for each write how many bytes there is room for, none if it fails.
pub record Disk : Type 0 where
  pub old : Option (List ℕ)
  pub opened : Bool
  pub room : ℕ → Option ℕ

abbrev pub written : Option ℕ → List ℕ → List ℕ
written none block = []
written (some room) block = take room block

-- The loop: what is written from the `k`th write on while the reads succeed. The whole buffer is
-- written each time, with what was in it before behind a short read, but for the last time. What a
-- write gives is not looked at.
unfoldable pub write_loop : (ℕ → Option ℕ) → ℕ → List (List ℕ) → List ℕ → ℕ → List ℕ
write_loop room k [] buffer size = []
write_loop room k (got ∷ reads) buffer size =
    let buffer' = got ++ drop (length got) buffer in
    let more = write_loop room (k + 1) reads buffer' (size - 1024) in
    if ltb size 1024 then written (room k) (take size buffer') else written (room k) buffer' ++ more

-- `writeFile`: none for -1, else the file afterwards, which is as it was if `open` failed.
unfoldable pub write_file : Disk → Option Upload → Option (Option (List ℕ))
unfolding write_loop
write_file disk none = none
write_file disk (some upload) =
    if str_eq upload.name (codes "nand1-2.tar.gz") && ltb upload.size (8 * 1024 * 1024 + 1)
    then elim upload.reads [
      | none ↦ none
      | some reads ↦
          if disk.opened
          then some (some (write_loop disk.room 0 reads (replicate 1024 0) upload.size))
          else some disk.old
    ]
    else none

-- What a run of the page does: it shows a form, the update has failed, or the two commands are started
-- that unpack the file as it then is and restart the device; or it restarts the device at once.
pub data Upgrade : Type 0 where
  not_logged_in shown failed rebooted : Upgrade
  restarting : Option (List ℕ) → Upgrade

unfoldable pub upgrade_main : Disk → Option (List ℕ) → Cgi → Option Upload → Upgrade
unfolding session_read write_file
upgrade_main disk session cgi upload = elim (session_read session) [
  | none ↦ Upgrade.not_logged_in
  | some name ↦
      if cgi.clicked (codes "upgrade")
      then elim (write_file disk upload) [
        | none ↦ Upgrade.failed
        | some content ↦ Upgrade.restarting content
      ]
      else if cgi.clicked (codes "reboot")
      then Upgrade.rebooted
      else Upgrade.shown
]
