-- ===== src/Job.antt =====
-- crates/ytsaurus-job: the errors of a job, and the modules of its input stream.
mod Chunks
pub mod Groups
pub mod Reader
pub mod Skiff
mod Runs
pub mod Stream
pub mod Writer
use Prim.Native.String.{String}
use ytsaurus_rs.Base.{ℕ}
use ytsaurus_rs.Yson.{YsonError}

-- src/error.rs, the errors of the YSON reader. An `io::Error` is its text. `out_of_fuel` has no
-- counterpart in the source.
pub data JobError : Type 0 where
  read_failed : String → JobError
  yson : (offset : ℕ) → YsonError → JobError
  truncated_record : (offset buffered : ℕ) → JobError
  record_too_large : (offset limit : ℕ) → JobError
  bad_control_record : (offset : ℕ) → (reason : String) → JobError
  out_of_fuel : JobError
