-- ===== src/Files/Logging.antt =====
-- What the log writer promises.
use mathlib.Core.Path.{subst}
use mathlib.Core.List.{append_assoc, append-nil}
use not_ahivemind.Base.{
  ℕ, ◌≡◌, refl, sym, ◌∙◌, ap, true, false, Option, none, some, List, [], ◌∷◌, ◌++◌, arith,
  if◌then◌else◌, Text, text_eq, text_eq_iff, text_eq_refl, All, All-append, Map, has, lookup,
  insert, lookup-insert, has-insert, is_some, Bool-cases, inl, inr,
}
use not_ahivemind.Files.File.{Disk}
use not_ahivemind.Files.Logger.{
  Log, Handle, LogWriter, join, opened, touch, add, entry_bytes, reach, bytes_at, write_to, reopen,
  async_write,
}

-- What a call of Add with an entry for one file brings for another.
unfoldable pub share : Text → Text → List Text → List ℕ
share name other entry = if text_eq other name then entry_bytes entry else []

-- The bytes that wait for a file.
unfoldable pub pending : Text → List Log → List ℕ
unfolding share
pending name [] = []
pending name (log ∷ logs) = share name log.file_name log.entries ++ pending name logs

-- The writer is open, every handle is that of its name's file, and every entry's file has a handle.
pub record IsLogging (w : LogWriter) : Type 0 where
  pub running : w.closed ≡ false
  pub handles :
      (name : Text) (h : Handle)
      → lookup name w.files ≡ some h
      → h ≡ opened (join w.folder_path name)
  pub served : All (λ log. has log.file_name w.files ≡ true) w.queue

pub bytes_at-touch :
    (path other : Text) (disk : Disk) → bytes_at other (touch path disk) ≡ bytes_at other disk
unfolding bytes_at touch
bytes_at-touch path other disk =
    ground (arith, lookup-insert path other [] disk, text_eq_iff path other)

join-eq : (folder a b : Text) → text_eq (join folder a) (join folder b) ≡ text_eq a b
unfolding join text_eq
join-eq [] a b = ground arith
join-eq (c ∷ folder) a b = ground (arith, join-eq folder a b)

pending-append :
    (name : Text) (xs : List Log) (log : Log)
    → pending name (xs ++ log ∷ []) ≡ pending name xs ++ share name log.file_name log.entries
unfolding pending
pending-append name [] log = append-nil (share name log.file_name log.entries)
pending-append name (x ∷ xs) log =
    ap (◌++◌ (share name x.file_name x.entries)) (pending-append name xs log)
    ∙ sym (append_assoc (share name x.file_name x.entries) (pending name xs) _)

pub bytes_at-insert :
    (path other : Text) (bytes : List ℕ) (disk : Disk)
    → bytes_at other (insert path bytes disk)
      ≡ (if text_eq path other then bytes else bytes_at other disk)
unfolding bytes_at
bytes_at-insert path other bytes disk = ground (arith, lookup-insert path other bytes disk)

-- The bytes of a name's file, with those that wait for it.
abbrev pub bytes_of : Text → LogWriter × Disk → List ℕ
bytes_of name (w, disk) = bytes_at (join w.folder_path name) disk ++ pending name w.queue

pub of_is_some {ℓ} : {A : Type ℓ} (o : Option A) → is_some o ≡ true → (a : A) × (o ≡ some a)
of_is_some none h = cc
of_is_some (some a) h = (a, refl)

has-insert_self : (k : Text) (h : Handle) (files : Map Handle) → has k (insert k h files) ≡ true
has-insert_self k h files = ground (arith, has-insert k k h files, text_eq_refl k)

All-has-insert :
    (k : Text) (h : Handle) (files : Map Handle) (q : List Log)
    → All (λ l. has l.file_name files ≡ true) q
    → All (λ l. has l.file_name (insert k h files) ≡ true) q
All-has-insert k h files [] a = tt
All-has-insert k h files (l ∷ ls) a =
    (ground (arith, has-insert k l.file_name h files), All-has-insert k h files ls a.1)

pub reopen_known :
    (name : Text) (w : LogWriter) (disk : Disk)
    → has name w.files ≡ true
    → reopen true name (w, disk) ≡ (w, disk)
unfolding reopen
reopen_known name w disk h = rw h refl

pub write_to-opened :
    (path : Text) (h : Handle) (bytes : List ℕ) (disk : Disk)
    → h ≡ opened path
    → write_to (some h) bytes disk ≡ insert path (bytes_at path disk ++ bytes) disk
unfolding write_to
write_to-opened path h bytes disk e = rw e refl

module _ (w : LogWriter) (disk : Disk) (v : IsLogging w) where
  add_known :
      (entry : List Text) (other : Text)
      → has other w.files ≡ true
      → (add true entry other (w, disk)).0
        ≡ (record w { queue = w.queue ++ record { file_name = other; entries = entry } ∷ [] }, disk)
  unfolding add
  add_known entry other h = rw (h, v.running) refl

  add_new :
      (entry : List Text) (other : Text)
      → has other w.files ≡ false
      → (add true entry other (w, disk)).0 ≡ (
        record w {
          files = insert other (opened (join w.folder_path other)) w.files;
          queue = w.queue ++ record { file_name = other; entries = entry } ∷ [];
        },
        touch (join w.folder_path other) disk,
      )
  unfolding add
  add_new entry other h = rw (h, v.running) refl

  write_served :
      (log : Log) (logs : List Log) (h : Handle)
      → w.queue ≡ log ∷ logs
      → lookup log.file_name w.files ≡ some h
      → let path = join w.folder_path log.file_name in
        async_write true none (w, disk) ≡ (
          record w { queue = logs },
          insert path (bytes_at path disk ++ entry_bytes log.entries) disk,
        )
  unfolding async_write reach
  write_served log logs h e held =
      rw
        (
          e,
          reopen_known log.file_name (record w { queue = logs }) disk (ap is_some held),
          held,
          write_to-opened _ h (entry_bytes log.entries) disk (v.handles log.file_name h held),
        )
        refl

  pub first_served :
      (log : Log) (logs : List Log)
      → w.queue ≡ log ∷ logs
      → All (λ l. has l.file_name w.files ≡ true) (log ∷ logs)
  first_served log logs e = subst (All (λ l. has l.file_name w.files ≡ true)) e v.served

  pub add-share :
      (name : Text) (entry : List Text) (other : Text)
      → bytes_of name (add true entry other (w, disk)).0
        ≡ bytes_of name (w, disk) ++ share name other entry
  add-share name entry other = elim (Bool-cases (has other w.files)) [
    | inl h ↦
        rw (add_known entry other h, pending-append) (sym (append_assoc _ (pending name w.queue) _))
    | inr h ↦
        rw (add_new entry other h, pending-append, bytes_at-touch)
          (sym (append_assoc _ (pending name w.queue) _))
  ]

  pub add-IsLogging :
      (entry : List Text) (other : Text) → IsLogging (add true entry other (w, disk)).0.0
  add-IsLogging entry other = elim (Bool-cases (has other w.files)) [
    | inl h ↦ rw (add_known entry other h) (record {
      running = v.running;
      handles = v.handles;
      served = All-append _ w.queue _ v.served (h, tt);
    })
    | inr h ↦ rw (add_new entry other h) (record {
      running = v.running;
      handles = λ name g p. ground (
        arith,
        lookup-insert other name (opened (join w.folder_path other)) w.files,
        text_eq_iff other name,
        v.handles name g,
      );
      served =
          All-append _ w.queue _
            (All-has-insert other (opened (join w.folder_path other)) w.files w.queue v.served)
            (has-insert_self other (opened (join w.folder_path other)) w.files, tt);
    })
  ]

  write_none : w.queue ≡ [] → async_write true none (w, disk) ≡ (w, disk)
  unfolding async_write
  write_none e = rw e refl

  write_served-share :
      (name : Text) (log : Log) (logs : List Log) (h : Handle)
      → w.queue ≡ log ∷ logs
      → lookup log.file_name w.files ≡ some h
      → bytes_of name (async_write true none (w, disk)) ≡ bytes_of name (w, disk)
  unfolding pending share
  write_served-share name log logs h e held =
      rw (write_served log logs h e held, bytes_at-insert, join-eq, e)
        (ground (
          arith,
          text_eq_iff log.file_name name,
          append_assoc (bytes_at (join w.folder_path name) disk) (entry_bytes log.entries)
              (pending name logs),
        ))

  pub write-share :
      (name : Text) (q : List Log)
      → w.queue ≡ q
      → bytes_of name (async_write true none (w, disk)) ≡ bytes_of name (w, disk)
  write-share name [] e = rw (write_none e) refl
  write-share name (log ∷ logs) e =
      let (h, held) = of_is_some (lookup log.file_name w.files) (first_served log logs e).0 in
      write_served-share name log logs h e held

  pub write-folder :
      (q : List Log) → w.queue ≡ q → (async_write true none (w, disk)).0.folder_path ≡ w.folder_path
  write-folder [] e = rw (write_none e) refl
  write-folder (log ∷ logs) e =
      let (h, held) = of_is_some (lookup log.file_name w.files) (first_served log logs e).0 in
      rw (write_served log logs h e held) refl

  pub add-folder :
      (entry : List Text) (other : Text)
      → (add true entry other (w, disk)).0.0.folder_path ≡ w.folder_path
  unfolding add
  add-folder entry other = ground arith

  pub write-IsLogging : (q : List Log) → w.queue ≡ q → IsLogging (async_write true none (w, disk)).0
  write-IsLogging [] e = rw (write_none e) v
  write-IsLogging (log ∷ logs) e =
      let (h, held) = of_is_some (lookup log.file_name w.files) (first_served log logs e).0 in
      rw (write_served log logs h e held)
        (record { running = v.running; handles = v.handles; served = (first_served log logs e).1 })
