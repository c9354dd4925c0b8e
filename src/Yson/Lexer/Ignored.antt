-- ===== src/Yson/Lexer/Ignored.antt =====
-- crates/ytsaurus-yson/src/lexer.rs: the classes of bytes, and what text YSON ignores.
use ytsaurus_rs.Base.{ℕ, List, [], ◌∷◌, Bool, true, false, leb, ◌==◌, ◌&&◌, ◌||◌, if◌then◌else◌}

-- `u8::is_ascii_whitespace`, `is_ascii_alphabetic` and the digits
abbrev pub is_whitespace : ℕ → Bool
is_whitespace b = b == 32 || b == 9 || b == 10 || b == 12 || b == 13

abbrev pub is_digit : ℕ → Bool
is_digit b = leb b'0' b && leb b b'9'

abbrev pub is_alphabetic : ℕ → Bool
is_alphabetic b = leb b'a' b && leb b b'z' || leb b'A' b && leb b b'Z'

abbrev pub is_octal : ℕ → Bool
is_octal b = leb b'0' b && leb b b'7'

-- The loop of `skip_ignored`, by where it stands: between tokens, in a line comment or in a block
-- comment. The line break that ends a line comment is whitespace.
unfoldable mutual
  pub skip_ignored : List ℕ → List ℕ
  skip_ignored [] = []
  skip_ignored (b ∷ rest) = elim (is_whitespace b) [
    | true ↦ skip_ignored rest
    | false ↦ elim (b == b'/') [ true ↦ skip_comment b rest | false ↦ b ∷ rest ]
  ]

  pub skip_comment : ℕ → List ℕ → List ℕ
  skip_comment slash [] = slash ∷ []
  skip_comment slash (b ∷ rest) = elim (b == b'/') [
    | true ↦ skip_line rest
    | false ↦ elim (b == b'*') [ true ↦ skip_block rest | false ↦ slash ∷ b ∷ rest ]
  ]

  pub skip_line : List ℕ → List ℕ
  skip_line [] = []
  skip_line (b ∷ rest) = elim (b == 10) [ true ↦ skip_ignored rest | false ↦ skip_line rest ]

  pub skip_block : List ℕ → List ℕ
  skip_block [] = []
  skip_block (b ∷ rest) = elim (b == b'*') [ true ↦ skip_star rest | false ↦ skip_block rest ]

  -- Behind a star, which may be the first byte of the end.
  pub skip_star : List ℕ → List ℕ
  skip_star [] = []
  skip_star (b ∷ rest) = elim (b == b'/') [
    | true ↦ skip_ignored rest
    | false ↦ elim (b == b'*') [ true ↦ skip_star rest | false ↦ skip_block rest ]
  ]

-- The bytes that a loop takes while its test holds, and the rest.
abbrev pub span : (ℕ → Bool) → List ℕ → List ℕ × List ℕ
span test [] = ([], [])
span test (b ∷ rest) =
    let (taken, left) = span test rest in if test b then (b ∷ taken, left) else ([], b ∷ rest)

-- The bytes of a prefix, if the input starts with them.
abbrev pub starts_with : List ℕ → List ℕ → Bool
starts_with [] input = true
starts_with (b ∷ bs) [] = false
starts_with (b ∷ bs) (c ∷ input) = b == c && starts_with bs input
