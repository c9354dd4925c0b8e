-- ===== src/Client/Path/Keys.antt =====
-- crates/ytsaurus-client/src/path.rs: the keys of a path's attributes and of a range.
use ytsaurus_rs.Base.{ℕ, List, [], ◌∷◌}

abbrev pub k_append : List ℕ
k_append = b'a' ∷ b'p' ∷ b'p' ∷ b'e' ∷ b'n' ∷ b'd' ∷ []

abbrev pub k_columns : List ℕ
k_columns = b'c' ∷ b'o' ∷ b'l' ∷ b'u' ∷ b'm' ∷ b'n' ∷ b's' ∷ []

abbrev pub k_ranges : List ℕ
k_ranges = b'r' ∷ b'a' ∷ b'n' ∷ b'g' ∷ b'e' ∷ b's' ∷ []

abbrev pub k_exact : List ℕ
k_exact = b'e' ∷ b'x' ∷ b'a' ∷ b'c' ∷ b't' ∷ []

abbrev pub k_lower_limit : List ℕ
k_lower_limit = b'l' ∷ b'o' ∷ b'w' ∷ b'e' ∷ b'r' ∷ b'_' ∷ b'l' ∷ b'i' ∷ b'm' ∷ b'i' ∷ b't' ∷ []

abbrev pub k_upper_limit : List ℕ
k_upper_limit = b'u' ∷ b'p' ∷ b'p' ∷ b'e' ∷ b'r' ∷ b'_' ∷ b'l' ∷ b'i' ∷ b'm' ∷ b'i' ∷ b't' ∷ []

abbrev pub k_row_index : List ℕ
k_row_index = b'r' ∷ b'o' ∷ b'w' ∷ b'_' ∷ b'i' ∷ b'n' ∷ b'd' ∷ b'e' ∷ b'x' ∷ []

abbrev pub k_key : List ℕ
k_key = b'k' ∷ b'e' ∷ b'y' ∷ []

abbrev pub k_key_bound : List ℕ
k_key_bound = b'k' ∷ b'e' ∷ b'y' ∷ b'_' ∷ b'b' ∷ b'o' ∷ b'u' ∷ b'n' ∷ b'd' ∷ []
