-- ===== src/Files/Samples.antt =====
-- Runs of the file handling: the theorems about it, applied.
use not_ahivemind.Base.{◌≡◌, refl, List, [], ◌∷◌, ◌++◌, Text}
use not_ahivemind.Files.File.{Disk}
use not_ahivemind.Files.Logger.{new_log_writer, join, bytes_at}
use not_ahivemind.Files.Logging.{pending}
use not_ahivemind.Files.Draining.{LogOp, adds, writes, log_run, brought, log_run-bytes, fresh}

abbrev disk : Disk
disk = (110 ∷ [], 1 ∷ []) ∷ []

abbrev logs_folder : Text
logs_folder = 108 ∷ []

abbrev some_ops : List LogOp
some_ops =
    adds ((97 ∷ []) ∷ []) (120 ∷ [])
    ∷ adds ((98 ∷ []) ∷ []) (121 ∷ [])
    ∷ writes
    ∷ adds ((99 ∷ []) ∷ []) (120 ∷ [])
    ∷ []

log_run-bytes_example :
    let (w', disk') = log_run some_ops (fresh logs_folder, disk) in
    bytes_at (join logs_folder (120 ∷ [])) disk' ++ pending (120 ∷ []) w'.queue
    ≡ bytes_at (join logs_folder (120 ∷ [])) disk ++ brought (120 ∷ []) some_ops
unfolding new_log_writer
log_run-bytes_example = log_run-bytes logs_folder (120 ∷ []) (fresh logs_folder) some_ops disk refl
