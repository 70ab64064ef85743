-- ===== src/Files/Losing.antt =====
-- What FreeFile and Close do to the entries that still wait.
use not_ahivemind.Base.{
  ℕ, zero, suc, ◌≡◌, refl, ◌∙◌, ap, true, false, none, some, is_some, List, [], ◌∷◌, ◌++◌, arith,
  Text, text_eq, text_eq_refl, Map, has, lookup, insert, remove, lookup-insert, has-remove,
}
use not_ahivemind.Files.File.{Disk}
use not_ahivemind.Files.Logger.{
  Log, LogWriter, Handle, join, free_file, close, entry_bytes, bytes_at, write_to, reach, touch,
  opened, reopen, async_write,
}
use not_ahivemind.Files.Logging.{
  IsLogging, bytes_at-touch, bytes_at-insert, write_to-opened, first_served, of_is_some,
  reopen_known,
}

ne-slash : (c : ℕ) (name : Text) → text_eq name (c ∷ name) ≡ false
unfolding text_eq
ne-slash c [] = refl
ne-slash c (d ∷ name) = ground (arith, ne-slash d name)

join-ne-append : (folder name : Text) → text_eq (folder ++ name) (join folder name) ≡ false
unfolding join text_eq
join-ne-append [] name = ne-slash 47 name
join-ne-append (c ∷ folder) name = ground (arith, join-ne-append folder name)

reopen_missing :
    (name : Text) (w : LogWriter) (disk : Disk)
    → has name w.files ≡ false
    → let path = w.folder_path ++ name in
      reopen true name (w, disk)
      ≡ (record w { files = insert name (opened path) w.files }, touch path disk)
unfolding reopen
reopen_missing name w disk h = rw h refl

-- An entry that still waits when its file is freed goes to another file, whose path lacks the separator
-- between the folder and the name, and its own file gets nothing of it.
free_file_misplaces :
    (w : LogWriter) (disk : Disk) (log : Log) (logs : List Log)
    → w.queue ≡ log ∷ logs
    → let (w', disk') = async_write true none (free_file log.file_name w, disk) in
      (bytes_at (w.folder_path ++ log.file_name) disk'
        ≡ bytes_at (w.folder_path ++ log.file_name) disk ++ entry_bytes log.entries)
      × (bytes_at (join w.folder_path log.file_name) disk'
          ≡ bytes_at (join w.folder_path log.file_name) disk)
unfolding async_write free_file reach
free_file_misplaces w disk log logs e =
    let path = w.folder_path ++ log.file_name in
    let files' = remove log.file_name w.files in
    rw
      (
        e,
        reopen_missing log.file_name (record w { files = files'; queue = logs }) disk
            (ground
              (arith, has-remove log.file_name log.file_name w.files, text_eq_refl log.file_name)),
        lookup-insert log.file_name log.file_name (opened path) files',
        text_eq_refl log.file_name,
        write_to-opened path (opened path) (entry_bytes log.entries) (touch path disk) refl,
        bytes_at-insert path path _ (touch path disk),
        bytes_at-insert path (join w.folder_path log.file_name) _ (touch path disk),
        bytes_at-touch,
        text_eq_refl path,
        join-ne-append w.folder_path log.file_name,
      )
      (refl, bytes_at-touch path (join w.folder_path log.file_name) disk)

-- Some rounds of AsyncWrite.
unfoldable pub rounds : ℕ → LogWriter × Disk → LogWriter × Disk
rounds zero s = s
rounds (suc n) s = rounds n (async_write true none s)

lookup-close :
    (name : Text) (files : Map Handle) (w : LogWriter) (h : Handle)
    → lookup name files ≡ some h
    → lookup name (close (record w { files = files })).files ≡ some (record h { is_open = false })
unfolding close lookup
lookup-close name [] w h p = cc
lookup-close name ((k, g) ∷ files) w h p = ground (arith, lookup-close name files w h)

close_step :
    (w : LogWriter) (disk : Disk) (log : Log) (logs : List Log) (h : Handle)
    → w.queue ≡ log ∷ logs
    → lookup log.file_name w.files ≡ some h
    → async_write true none (close w, disk) ≡ (close (record w { queue = logs }), disk)
unfolding async_write write_to close
close_step w disk log logs h e held =
    let closed : lookup log.file_name (close w).files ≡ some (record h { is_open = false }) =
      lookup-close log.file_name w.files w h held in
    rw
      (
        e,
        reopen_known log.file_name (close (record w { queue = logs })) disk (ap is_some closed),
        closed,
      )
      refl

close_empty :
    (w : LogWriter) (disk : Disk)
    → w.queue ≡ []
    → async_write true none (close w, disk) ≡ (close w, disk)
unfolding async_write close
close_empty w disk e = rw e refl

rounds-close :
    (n : ℕ) (q : List Log) (w : LogWriter) (disk : Disk)
    → w.queue ≡ q
    → IsLogging w
    → (rounds n (close w, disk)).1 ≡ disk
unfolding rounds
rounds-close zero q w disk e v = refl
rounds-close (suc n) [] w disk e v =
    ap (λ s. (rounds n s).1) (close_empty w disk e) ∙ rounds-close n [] w disk e v
rounds-close (suc n) (log ∷ logs) w disk e v =
    let served = first_served w disk v log logs e in
    let (h, held) = of_is_some (lookup log.file_name w.files) served.0 in
    ap (λ s. (rounds n s).1) (close_step w disk log logs h e held)
    ∙ rounds-close n logs (record w { queue = logs }) disk refl
        (record { running = v.running; handles = v.handles; served = served.1 })

-- Where the writer is closed while entries wait, no number of rounds of AsyncWrite writes any of them.
close_loses :
    (n : ℕ) (w : LogWriter) (disk : Disk) → IsLogging w → (rounds n (close w, disk)).1 ≡ disk
close_loses n w disk v = rounds-close n w.queue w disk refl v
