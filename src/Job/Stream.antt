-- ===== src/Job/Stream.antt =====
-- What a job's input stream is, whatever its reader has buffered of it: the bytes in the window and the
-- bytes that the input has left.
pub mod Classes
pub mod Events
pub mod Failures
pub mod Fill
pub mod LineUp
pub mod Lines
pub mod Records
pub mod Routes
pub mod Skips
use ytsaurus_rs.Base.{
  ℕ, zero, suc, ◌+◌, ◌≤◌, ◌<◌, List, [], ◌∷◌, ◌++◌, length, Option, none, some, Bool, true, false,
  if◌then◌else◌, ◌≡◌, refl, Result, ok, err,
}
use ytsaurus_rs.Job.{JobError, read_failed, record_too_large}
use ytsaurus_rs.Job.Reader.{
  Arrival, got, interrupted, broken, Source, Pending, Reader, Reading, offset_of, filled, usize_max,
}

-- What `std::io::Read` documents: the bytes of a read are the next ones and fit the room, none of them
-- means the end where there was room, and an interrupted read consumes nothing. `patience` bounds how
-- often the reads to come are interrupted.
pub record Contract {I : Type 0} (source : Source I) : Type 0 where
  pub remaining : I → List ℕ
  pub patience : I → ℕ
  pub delivers :
      (room : ℕ) (input input' : I) (bs : List ℕ)
      → source.read room input ≡ (got bs, input')
      → (remaining input ≡ bs ++ remaining input')
        × (length bs ≤ room)
        × (patience input' ≤ patience input)
  pub ends :
      (room : ℕ) (input input' : I)
      → source.read room input ≡ (got [], input')
      → 1 ≤ room
      → remaining input ≡ []
  pub resumes :
      (room : ℕ) (input input' : I)
      → source.read room input ≡ (interrupted, input')
      → (remaining input' ≡ remaining input) × (patience input' < patience input)

-- What a step that only moves bytes leaves alone.
abbrev pub Kept : Type 0
Kept = Bool × ℕ × Option Pending × ℕ × Option ℕ × Option ℕ

module _ {I : Type 0} where
  abbrev pub kept : Reader I → Kept
  kept r = (r.is_binary, r.max_record_bytes, r.pending, r.table_index, r.row_index, r.range_index)

  module _ (source : Source I) (contract : Contract source) where
    abbrev pub stream : Reader I → List ℕ
    stream r = r.window ++ contract.remaining r.input

    -- A bound on the reads to come.
    abbrev pub budget : Reader I → ℕ
    budget r =
        length (contract.remaining r.input)
        + contract.patience r.input
        + (if r.input_done then 0 else 1)

    -- The buffer holds what is in use of it, is not empty, and its limit is a `usize`; the end of the
    -- input was seen only at its end.
    pub record IsValid (r : Reader I) : Type 0 where
      pub within : filled r ≤ r.capacity
      pub some_room : 1 ≤ r.capacity
      pub limited : r.max_record_bytes ≤ usize_max
      pub ended : r.input_done ≡ true → contract.remaining r.input ≡ []
