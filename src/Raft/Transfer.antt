-- ===== src/Raft/Transfer.antt =====
-- sendSnapshotToPeer against InstallSnapshot: the file that arrives, and what a settled request means.
use mathlib.Core.List.{flatten, append_assoc, append-nil}
use not_ahivemind.Base.{
  ℕ, zero, suc, ◌+◌, ◌≤◌, ◌<◌, ◌≡◌, ◌≢◌, ◌⊎◌, refl, inl, inr, Bool, true, false, none, some, List,
  [], ◌∷◌, ◌++◌, arith, length, length-append, All,
}
use not_ahivemind.Storage.Handler.{LogName, Handler, set_active}
use not_ahivemind.Storage.Snapshot.{Chunk, InstallFault, install_snapshot}
use not_ahivemind.Storage.Install.{write_at_end, installed}
use not_ahivemind.Raft.Append.{is_empty}
use not_ahivemind.Raft.Catchup.{chunks}

-- The chunks that a peer receives one after the other, with no fault.
unfoldable pub receive : List Chunk → Handler → Handler
receive [] h = h
receive (c ∷ cs) h = receive cs (install_snapshot InstallFault.no_fault c h).0

abbrev with_temporary : List ℕ → Handler → Handler
with_temporary bytes h = record h { disk = record h.disk { temporary = some bytes } }

abbrev piece_at : ℕ → List ℕ → Bool → ℕ → ℕ → Chunk
piece_at offset bytes done index term = record {
  offset = offset;
  bytes = bytes;
  done = done;
  last_included_index = index;
  last_included_term = term;
}

module _ (index term : ℕ) where
  -- The file of earlier chunks is empty before the first one, and there before each later one.
  abbrev IsStarted : ℕ → List ℕ → Handler → Type 0
  IsStarted offset before h =
      (offset ≡ length before) × ((offset ≡ 0) ⊎ (h.temporary ≡ some before))

  install_inner :
      (offset : ℕ) (before piece : List ℕ) (h : Handler)
      → IsStarted offset before h
      → (install_snapshot InstallFault.no_fault (piece_at offset piece false index term) h).0
        ≡ with_temporary (before ++ piece) h
  unfolding install_snapshot
  install_inner zero [] piece h started = ground (arith, write_at_end [] piece 0 refl)
  install_inner zero (b ∷ bs) piece h started = absurd (omega (arith, started.0))
  install_inner (suc n) before piece h started =
      ground (arith, write_at_end before piece (suc n) started.0)

  install_last :
      (name : LogName) (offset : ℕ) (before piece : List ℕ) (h : Handler)
      → h.active_file ≡ some name
      → IsStarted offset before h
      → (install_snapshot InstallFault.no_fault (piece_at offset piece true index term) h).0
        ≡ installed name (before ++ piece) (piece_at offset piece true index term) h
  unfolding install_snapshot set_active
  install_last name zero [] piece h active started = ground (arith, write_at_end [] piece 0 refl)
  install_last name zero (b ∷ bs) piece h active started = absurd (omega (arith, started.0))
  install_last name (suc n) before piece h active started =
      ground (arith, write_at_end before piece (suc n) started.0)

module _ (size index term offset : ℕ) (piece : List ℕ) (pieces : List (List ℕ))
    (full : piece ≢ []) where
  is_empty-full : is_empty piece ≡ false
  is_empty-full = ground (arith, full)

  chunks_inner :
      offset + length piece < size
      → chunks size index term offset (piece ∷ pieces)
        ≡ piece_at offset piece false index term
          ∷ chunks size index term (offset + length piece) pieces
  unfolding chunks
  chunks_inner lt = ground (arith, is_empty-full)

  chunks_last :
      size ≤ offset + length piece
      → chunks size index term offset (piece ∷ pieces) ≡ piece_at offset piece true index term ∷ []
  unfolding chunks
  chunks_last le = ground (arith, is_empty-full)

length_full : (piece : List ℕ) → piece ≢ [] → 0 < length piece
length_full [] full = absurd (full refl)
length_full (b ∷ bs) full = omega arith

module _ (name : LogName) (size index term : ℕ) where
  receive-chunks_from :
      (pieces : List (List ℕ)) (piece : List ℕ) (offset : ℕ) (before : List ℕ) (h : Handler)
      → h.active_file ≡ some name
      → IsStarted index term offset before h
      → piece ≢ []
      → All (λ p. p ≢ []) pieces
      → size ≡ offset + length (flatten (piece ∷ pieces))
      → receive (chunks size index term offset (piece ∷ pieces)) h
        ≡ installed name (before ++ flatten (piece ∷ pieces)) (piece_at 0 [] true index term) h
  unfolding receive flatten
  receive-chunks_from [] piece offset before h active started full rest total =
      let le : size ≤ offset + length piece = omega (arith, total, length-append piece []) in
      rw (chunks_last size index term offset piece [] full le, append-nil piece)
        (install_last index term name offset before piece h active started)
  receive-chunks_from (next ∷ pieces) piece offset before h active started full (more, rest) total =
      let lt : offset + length piece < size = omega (
        arith,
        total,
        length-append piece (flatten (next ∷ pieces)),
        length-append next (flatten pieces),
        length_full next more,
      ) in
      let total' : size ≡ offset + length piece + length (flatten (next ∷ pieces)) =
        omega (arith, total, length-append piece (flatten (next ∷ pieces))) in
      rw
        (
          chunks_inner size index term offset piece (next ∷ pieces) full lt,
          receive,
          install_inner index term offset before piece h started,
          receive-chunks_from pieces next (offset + length piece) (before ++ piece)
              (with_temporary (before ++ piece) h) active
              (omega (arith, started.0, length-append before piece), inr refl) more rest total',
          append_assoc,
        )
        refl

  -- The chunks of a snapshot file, read in non-empty pieces and received in order, leave a node with
  -- exactly that file, an empty log, and the boundary and the last entry at the snapshot's.
  pub receive-chunks :
      (piece : List ℕ) (pieces : List (List ℕ)) (h : Handler)
      → h.active_file ≡ some name
      → piece ≢ []
      → All (λ p. p ≢ []) pieces
      → size ≡ length (flatten (piece ∷ pieces))
      → let after = receive (chunks size index term 0 (piece ∷ pieces)) h in
        (after.snapshot ≡ flatten (piece ∷ pieces))
        × (after.temporary ≡ none)
        × (after.entries ≡ [])
        × (after.prev_index ≡ index)
        × (after.prev_term ≡ term)
        × (after.disc_index ≡ index)
        × (after.disc_term ≡ term)
  unfolding set_active
  receive-chunks piece pieces h active full rest total =
      rw
        (receive-chunks_from pieces piece 0 [] h active (refl, inl refl) full rest
          (omega (arith, total)))
        (refl, refl, refl, refl, refl, refl, refl)
