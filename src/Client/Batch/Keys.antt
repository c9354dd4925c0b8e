-- ===== src/Client/Batch/Keys.antt =====
-- crates/ytsaurus-client/src/batch.rs: the keys of the documents of a batch.
use ytsaurus_rs.Base.{ℕ, List, [], ◌∷◌}

abbrev pub k_path : List ℕ
k_path = b'p' ∷ b'a' ∷ b't' ∷ b'h' ∷ []

abbrev pub k_type : List ℕ
k_type = b't' ∷ b'y' ∷ b'p' ∷ b'e' ∷ []

abbrev pub k_recursive : List ℕ
k_recursive = b'r' ∷ b'e' ∷ b'c' ∷ b'u' ∷ b'r' ∷ b's' ∷ b'i' ∷ b'v' ∷ b'e' ∷ []

abbrev pub k_ignore_existing : List ℕ
k_ignore_existing =
    b'i' ∷ b'g' ∷ b'n' ∷ b'o' ∷ b'r' ∷ b'e' ∷ b'_' ∷ b'e' ∷ b'x' ∷ b'i' ∷ b's' ∷ b't' ∷ b'i' ∷ b'n'
    ∷ b'g' ∷ []

abbrev pub k_force : List ℕ
k_force = b'f' ∷ b'o' ∷ b'r' ∷ b'c' ∷ b'e' ∷ []

abbrev pub k_node_id : List ℕ
k_node_id = b'n' ∷ b'o' ∷ b'd' ∷ b'e' ∷ b'_' ∷ b'i' ∷ b'd' ∷ []

abbrev pub k_value : List ℕ
k_value = b'v' ∷ b'a' ∷ b'l' ∷ b'u' ∷ b'e' ∷ []

abbrev pub k_transaction_id : List ℕ
k_transaction_id =
    b't' ∷ b'r' ∷ b'a' ∷ b'n' ∷ b's' ∷ b'a' ∷ b'c' ∷ b't' ∷ b'i' ∷ b'o' ∷ b'n' ∷ b'_' ∷ b'i' ∷ b'd'
    ∷ []

abbrev pub k_command : List ℕ
k_command = b'c' ∷ b'o' ∷ b'm' ∷ b'm' ∷ b'a' ∷ b'n' ∷ b'd' ∷ []

abbrev pub k_parameters : List ℕ
k_parameters = b'p' ∷ b'a' ∷ b'r' ∷ b'a' ∷ b'm' ∷ b'e' ∷ b't' ∷ b'e' ∷ b'r' ∷ b's' ∷ []

abbrev pub k_input : List ℕ
k_input = b'i' ∷ b'n' ∷ b'p' ∷ b'u' ∷ b't' ∷ []

abbrev pub k_requests : List ℕ
k_requests = b'r' ∷ b'e' ∷ b'q' ∷ b'u' ∷ b'e' ∷ b's' ∷ b't' ∷ b's' ∷ []

abbrev pub k_concurrency : List ℕ
k_concurrency = b'c' ∷ b'o' ∷ b'n' ∷ b'c' ∷ b'u' ∷ b'r' ∷ b'r' ∷ b'e' ∷ b'n' ∷ b'c' ∷ b'y' ∷ []

abbrev pub k_results : List ℕ
k_results = b'r' ∷ b'e' ∷ b's' ∷ b'u' ∷ b'l' ∷ b't' ∷ b's' ∷ []

abbrev pub k_error : List ℕ
k_error = b'e' ∷ b'r' ∷ b'r' ∷ b'o' ∷ b'r' ∷ []

abbrev pub k_output : List ℕ
k_output = b'o' ∷ b'u' ∷ b't' ∷ b'p' ∷ b'u' ∷ b't' ∷ []

abbrev pub k_code : List ℕ
k_code = b'c' ∷ b'o' ∷ b'd' ∷ b'e' ∷ []

abbrev pub k_message : List ℕ
k_message = b'm' ∷ b'e' ∷ b's' ∷ b's' ∷ b'a' ∷ b'g' ∷ b'e' ∷ []

abbrev pub k_inner_errors : List ℕ
k_inner_errors =
    b'i' ∷ b'n' ∷ b'n' ∷ b'e' ∷ b'r' ∷ b'_' ∷ b'e' ∷ b'r' ∷ b'r' ∷ b'o' ∷ b'r' ∷ b's' ∷ []
