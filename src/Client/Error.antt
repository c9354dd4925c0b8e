-- ===== src/Client/Error.antt =====
-- crates/ytsaurus-client/src/error.rs: the errors of the client. An `i64` is its 64-bit pattern; the
-- reports on jobs and on answered batch parts, which no decision reads, are left out.
use Prim.Native.String.{String}
use ytsaurus_rs.Base.{ℕ, Option, Bool}

-- What the client asks of an `io::Error`: whether its kind is `InvalidData`, and its text.
pub record IoError : Type 0 where
  pub is_invalid_data : Bool
  pub text : String

pub data UreqError : Type 0 where
  io : IoError → UreqError
  other : UreqError

-- What the client asks of a JSON document: `code` as an `i64`, and `inner_errors` as an array.
mutual
  pub data Document : Type 0 where
    document : Option ℕ → Documents → Document

  pub data Documents : Type 0 where
    nil : Documents
    cons : Document → Documents → Documents

pub data RedirectRefusal : Type 0 where
  credentials body payload too_many : RedirectRefusal

pub data ClientError : Type 0 where
  transport : (command : String) → (source : UreqError) → ClientError
  cluster : (command : String) → (code : ℕ) → (message raw : String) → ClientError
  http : (command : String) → (status : ℕ) → (body : String) → ClientError
  redirected :
      (command : String)
      → (status : ℕ) → (location : String) → (refusal : RedirectRefusal) → (heavy : Bool)
      → ClientError
  decode : (command reason : String) → ClientError
  response_too_large : (command : String) → (limit : ℕ) → ClientError
  batch_interrupted : (parts : ℕ) → (cause : ClientError) → ClientError
  io : (path : String) → (source : IoError) → ClientError
  operation_failed : (id state : String) → (error : Option String) → ClientError
  not_a_worker : (path reason : String) → ClientError
  config : String → ClientError
