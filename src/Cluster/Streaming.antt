-- ===== src/Cluster/Streaming.antt =====
-- internal/cluster/container/monitor.go: streamContainerLogs and logBridge, on the log writer of
-- internal/filehandler. What Docker's client and its StdCopy give is an argument.
use mathlib.Core.List.{append-nil}
use not_ahivemind.Base.{
  ◌≡◌, ℕ, refl, ap, sym, ◌∙◌, Bool, true, false, List, [], ◌∷◌, ◌++◌, Text, text_eq_refl,
}
use not_ahivemind.Files.File.{Disk, line_bytes}
use not_ahivemind.Files.Logger.{LogWriter, join, add, free_file, entry_bytes, bytes_at}
use not_ahivemind.Files.Logging.{share, pending, bytes_of, IsLogging}
use not_ahivemind.Files.Draining.{
  LogOp, adds, log_step, log_run, log_run-share, log_run-folder, brought,
}

-- How the stream is opened, and how StdCopy ends: an error of a cancelled context is none, nor is EOF.
pub data Ending : Type 0 where
  at_end cancelled broken : Ending

abbrev pub is_broken : Ending → Bool
is_broken broken = true
is_broken at_end = false
is_broken cancelled = false

-- logBridge.Write: an empty chunk is dropped, and every other is one entry.
unfoldable pub bridge_write : Bool → Text → Text → LogWriter × Disk → LogWriter × Disk
bridge_write opens log_name [] s = s
bridge_write opens log_name (c ∷ cs) s = (add opens ((c ∷ cs) ∷ []) log_name s).0

-- StdCopy writes the chunks one after another.
unfoldable pub copy : Bool → Text → List Text → LogWriter × Disk → LogWriter × Disk
unfolding bridge_write
copy opens log_name [] s = s
copy opens log_name (p ∷ ps) s = copy opens log_name ps (bridge_write opens log_name p s)

-- ".log".
abbrev pub log_suffix : Text
log_suffix = 46 ∷ 108 ∷ 111 ∷ 103 ∷ []

free_log : Text → LogWriter × Disk → LogWriter × Disk
free_log log_name (w, disk) = (free_file log_name w, disk)

-- streamContainerLogs of the container `id`: `opening` says how ContainerLogs ends where it gives no
-- stream. `true` is an error.
unfoldable pub stream_container_logs :
    Bool
    → Bool
    → Ending
    → Ending
    → Text
    → Text
    → List Text
    → LogWriter × Disk
    → (LogWriter × Disk) × Bool
unfolding copy free_log
stream_container_logs false opens opening ending id header chunks s = (s, is_broken opening)
stream_container_logs true opens opening ending id header chunks s =
    let log_name = id ++ log_suffix in
    (
      free_log log_name (copy opens log_name chunks (add opens (header ∷ []) log_name s).0),
      is_broken ending,
    )

-- The calls of Add that a stream makes.
unfoldable pub stream_ops : Text → List Text → List LogOp
stream_ops log_name [] = []
stream_ops log_name ([] ∷ ps) = stream_ops log_name ps
stream_ops log_name ((c ∷ cs) ∷ ps) = adds ((c ∷ cs) ∷ []) log_name ∷ stream_ops log_name ps

-- Every chunk that is not empty, with an end of line behind it.
unfoldable pub chunk_lines : List Text → List ℕ
chunk_lines [] = []
chunk_lines ([] ∷ ps) = chunk_lines ps
chunk_lines ((c ∷ cs) ∷ ps) = line_bytes (c ∷ cs) ++ chunk_lines ps

copy-log_run :
    (log_name : Text) (chunks : List Text) (s : LogWriter × Disk)
    → copy true log_name chunks s ≡ log_run (stream_ops log_name chunks) s
unfolding copy log_run stream_ops log_step
copy-log_run log_name [] s = refl
copy-log_run log_name ([] ∷ ps) s = copy-log_run log_name ps s
copy-log_run log_name ((c ∷ cs) ∷ ps) s = copy-log_run log_name ps _

share-own : (log_name line : Text) → share log_name log_name (line ∷ []) ≡ line_bytes line
unfolding share entry_bytes
share-own log_name line = rw (text_eq_refl log_name) (append-nil (line_bytes line))

brought-stream_ops :
    (log_name : Text) (chunks : List Text)
    → brought log_name (stream_ops log_name chunks) ≡ chunk_lines chunks
unfolding brought stream_ops chunk_lines
brought-stream_ops log_name [] = refl
brought-stream_ops log_name ([] ∷ ps) = brought-stream_ops log_name ps
brought-stream_ops log_name ((c ∷ cs) ∷ ps) =
    ap (λ s. s ++ brought log_name (stream_ops log_name ps)) (share-own log_name (c ∷ cs))
    ∙ ap (◌++◌ (line_bytes (c ∷ cs))) (brought-stream_ops log_name ps)

module _ (log_name header : Text) (chunks : List Text) where
  abbrev whole_stream : List LogOp
  whole_stream = adds (header ∷ []) log_name ∷ stream_ops log_name chunks

  streamed :
      (s : LogWriter × Disk)
      → copy true log_name chunks (add true (header ∷ []) log_name s).0 ≡ log_run whole_stream s
  unfolding log_run log_step
  streamed s = copy-log_run log_name chunks (add true (header ∷ []) log_name s).0

  brought-whole_stream : brought log_name whole_stream ≡ line_bytes header ++ chunk_lines chunks
  unfolding brought
  brought-whole_stream =
      ap (λ s. s ++ brought log_name (stream_ops log_name chunks)) (share-own log_name header)
      ∙ ap (◌++◌ (line_bytes header)) (brought-stream_ops log_name chunks)

-- What a stream brings for its log: the header and every chunk that is not empty, each with an end of
-- line behind it, also where a line goes on in the next chunk. It is in the file or waits for it when
-- the file is freed.
stream_container_logs-bytes :
    (opening ending : Ending) (id header : Text) (chunks : List Text) (w : LogWriter) (disk : Disk)
    → IsLogging w
    → let log_name = id ++ log_suffix in
      let ((w', disk'), failed) =
        stream_container_logs true true opening ending id header chunks (w, disk) in
      (bytes_at (join w.folder_path log_name) disk' ++ pending log_name w'.queue
        ≡ bytes_of log_name (w, disk) ++ (line_bytes header ++ chunk_lines chunks))
      × (failed ≡ is_broken ending)
unfolding stream_container_logs free_file free_log
stream_container_logs-bytes opening ending id header chunks w disk v =
    let log_name = id ++ log_suffix in
    let ops = whole_stream log_name header chunks in
    let (w', disk') = log_run ops (w, disk) in
    (
      ap (λ s. bytes_at (join w.folder_path log_name) s.1 ++ pending log_name s.0.queue)
            (streamed log_name header chunks (w, disk))
          ∙ sym (
              ap (λ f. bytes_at (join f log_name) disk' ++ pending log_name w'.queue)
                (log_run-folder ops w disk v))
          ∙ log_run-share log_name ops w disk v
          ∙ ap (◌++◌ (bytes_of log_name (w, disk))) (brought-whole_stream log_name header chunks),
      refl,
    )
