-- ===== src/Files/Draining.antt =====
-- Whole runs of the log writer: what reaches the files.
use not_ahivemind.Base.{
  ℕ, ◌≡◌, refl, sym, ◌∙◌, ap, true, false, none, some, List, [], ◌∷◌, ◌++◌, arith, Text, lookup,
}
use mathlib.Core.List.{append_assoc, append-nil}
use not_ahivemind.Files.File.{Disk}
use not_ahivemind.Files.Logger.{LogWriter, new_log_writer, join, add, bytes_at, async_write}
use not_ahivemind.Files.Logging.{
  share, pending, IsLogging, bytes_of, add-share, add-IsLogging, add-folder, write-share,
  write-IsLogging, write-folder,
}

-- What the routines do to the writer: a call of Add, or a round of AsyncWrite. The system opens every
-- file and takes every byte.
pub data LogOp : Type 0 where
  adds : List Text → Text → LogOp
  writes : LogOp

unfoldable pub log_step : LogOp → LogWriter × Disk → LogWriter × Disk
log_step (adds entry name) s = (add true entry name s).0
log_step writes s = async_write true none s

unfoldable pub log_run : List LogOp → LogWriter × Disk → LogWriter × Disk
log_run [] s = s
log_run (op ∷ ops) s = log_run ops (log_step op s)

-- The bytes that some calls of Add bring for a file.
unfoldable pub brought : Text → List LogOp → List ℕ
unfolding share
brought name [] = []
brought name (writes ∷ ops) = brought name ops
brought name (adds entry other ∷ ops) = share name other entry ++ brought name ops

log_step-share :
    (name : Text) (op : LogOp) (w : LogWriter) (disk : Disk)
    → IsLogging w
    → bytes_of name (log_step op (w, disk)) ≡ bytes_of name (w, disk) ++ brought name (op ∷ [])
unfolding log_step brought
log_step-share name (adds entry other) w disk v =
    add-share w disk v name entry other
    ∙ ap (◌++◌ (bytes_of name (w, disk))) (sym (append-nil (share name other entry)))
log_step-share name writes w disk v =
    write-share w disk v name w.queue refl ∙ sym (append-nil (bytes_of name (w, disk)))

log_step-IsLogging :
    (op : LogOp) (w : LogWriter) (disk : Disk) → IsLogging w → IsLogging (log_step op (w, disk)).0
unfolding log_step
log_step-IsLogging (adds entry other) w disk v = add-IsLogging w disk v entry other
log_step-IsLogging writes w disk v = write-IsLogging w disk v w.queue refl

brought-cons :
    (name : Text) (op : LogOp) (ops : List LogOp)
    → brought name (op ∷ ops) ≡ brought name (op ∷ []) ++ brought name ops
unfolding brought
brought-cons name (adds entry other) ops =
    ap (λ s. s ++ brought name ops) (sym (append-nil (share name other entry)))
brought-cons name writes ops = refl

log_step-folder :
    (op : LogOp) (w : LogWriter) (disk : Disk)
    → IsLogging w
    → (log_step op (w, disk)).0.folder_path ≡ w.folder_path
unfolding log_step
log_step-folder (adds entry other) w disk v = add-folder w disk v entry other
log_step-folder writes w disk v = write-folder w disk v w.queue refl

pub log_run-folder :
    (ops : List LogOp) (w : LogWriter) (disk : Disk)
    → IsLogging w
    → (log_run ops (w, disk)).0.folder_path ≡ w.folder_path
unfolding log_run
log_run-folder [] w disk v = refl
log_run-folder (op ∷ ops) w disk v =
    let (w', disk') = log_step op (w, disk) in
    log_run-folder ops w' disk' (log_step-IsLogging op w disk v) ∙ log_step-folder op w disk v

pub log_run-share :
    (name : Text) (ops : List LogOp) (w : LogWriter) (disk : Disk)
    → IsLogging w
    → bytes_of name (log_run ops (w, disk)) ≡ bytes_of name (w, disk) ++ brought name ops
unfolding log_run brought
log_run-share name [] w disk v = sym (append-nil (bytes_of name (w, disk)))
log_run-share name (op ∷ ops) w disk v =
    let (w', disk') = log_step op (w, disk) in
    log_run-share name ops w' disk' (log_step-IsLogging op w disk v)
    ∙ ap (λ s. s ++ brought name ops) (log_step-share name op w disk v)
    ∙ append_assoc (bytes_of name (w, disk)) (brought name (op ∷ [])) (brought name ops)
    ∙ ap (◌++◌ (bytes_of name (w, disk))) (sym (brought-cons name op ops))

abbrev pub fresh : Text → LogWriter
fresh folder = record { folder_path = folder; files = []; queue = []; closed = false }

fresh-IsLogging : (folder : Text) → IsLogging (fresh folder)
unfolding lookup
fresh-IsLogging folder = record { running = refl; handles = λ name h p. cc; served = tt }

log_run-fresh :
    (folder name : Text) (ops : List LogOp) (disk : Disk)
    → let (w', disk') = log_run ops (fresh folder, disk) in
      bytes_at (join folder name) disk' ++ pending name w'.queue
      ≡ bytes_at (join folder name) disk ++ brought name ops
unfolding pending
log_run-fresh folder name ops disk =
    let (w', disk') = log_run ops (fresh folder, disk) in
    sym (
      ap (λ f. bytes_at (join f name) disk' ++ pending name w'.queue)
        (log_run-folder ops (fresh folder) disk (fresh-IsLogging folder)))
    ∙ log_run-share name ops (fresh folder) disk (fresh-IsLogging folder)
    ∙ ap (λ s. s ++ brought name ops) (append-nil (bytes_at (join folder name) disk))

-- From a new writer on, through any calls of Add and rounds of AsyncWrite in any order, with every
-- file opened and every byte taken: what a log file held at the start, followed by the lines of all the
-- entries added for it in their order, is what it holds now, followed by what still waits for it.
pub log_run-bytes :
    (folder name : Text) (w : LogWriter) (ops : List LogOp) (disk : Disk)
    → new_log_writer true folder ≡ some w
    → let (w', disk') = log_run ops (w, disk) in
      bytes_at (join folder name) disk' ++ pending name w'.queue
      ≡ bytes_at (join folder name) disk ++ brought name ops
unfolding new_log_writer
log_run-bytes folder name w ops disk made =
    let same : fresh folder ≡ w = ground arith in rw (← same) (log_run-fresh folder name ops disk)
