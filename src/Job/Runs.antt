-- ===== src/Job/Runs.antt =====
-- A stream of a control record and a row, read in chunks of some sizes, and the theorems at it.
use ytsaurus_rs.Base.{ℕ, ◌≤◌, List, [], ◌∷◌, Option, none, some, ◌≡◌, refl, arith, true, false, ok}
use ytsaurus_rs.Yson.Lexer.Tokens.{Std}
use ytsaurus_rs.Yson.Node.{value, no_attributes, attributes, entity, int64, empty, field}
use ytsaurus_rs.Yson.Scan.{scan_value, scan_tree, scan_fragment, scan_all, scan_items}
use ytsaurus_rs.Yson.Lexer.{parse_binary_token}
use ytsaurus_rs.Yson.Lexer.Tokens.{next_token, peek_byte}
use ytsaurus_rs.Job.Reader.{
  skip, fill, read_once, Reader, with_format, with_buffer_size, with_max_record_bytes,
  next_record_len,
}
use ytsaurus_rs.Job.Reader.Control.{
  line_up, classify, classify_attributed, consume, Decoding, named_row_index, ensure_pending,
}
use ytsaurus_rs.Job.Groups.{Row, Event, a_row, next_event, Groups, Group, next_group, next_row}
use ytsaurus_rs.Job.Stream.{kept, budget, IsValid}
use ytsaurus_rs.Job.Stream.Records.{Answers, target, next_record_len-Answers}
use ytsaurus_rs.Job.Stream.Routes.{view}
use ytsaurus_rs.Job.Groups.Drain.{next_row-next_group}
use ytsaurus_rs.Job.Stream.Events.{Told, next_event-Told, next_event-same}
use ytsaurus_rs.Job.Chunks.{Chunks, chunks, chunks-Contract}

abbrev std : Std
std = record { as_text = λ bs. ""; parse_f64 = λ bs. none; debug = λ token. "" }

-- Every attributed record is read as `<row_index=5>#`.
abbrev decoding : Decoding
decoding = record {
  from_slice = λ is_binary bytes.
      ok (value (attributes (field named_row_index (value no_attributes (int64 5)) empty)) entity);
  debug = λ node. "";
}

-- `<>#;{};`
abbrev bytes : List ℕ
bytes = b'<' ∷ b'>' ∷ b'#' ∷ b';' ∷ b'{' ∷ b'}' ∷ b';' ∷ []

-- A reader with a small buffer, whose input is interrupted twice first.
abbrev start : Reader Chunks
start = with_max_record_bytes 256 (with_buffer_size 0 (with_format (2, bytes) true))

abbrev the_row : Row
the_row = record {
  table_index = 0;
  row_index = some 5;
  range_index = none;
  bytes = b'{' ∷ b'}' ∷ [];
  is_binary = true;
  offset = 4;
}

-- Behind the row, after reads of `most` bytes that have left some of the input.
abbrev behind : ℕ → List ℕ → List ℕ → ℕ → Reader Chunks
behind base window left pos = record {
  input = (0, left);
  is_binary = true;
  capacity = 64;
  pos = pos;
  window = window;
  base_offset = base;
  input_done = false;
  pending = none;
  max_record_bytes = 256;
  table_index = 0;
  row_index = some 6;
  range_index = none;
}

by_threes :
    next_event std decoding (chunks 3) 40 start
    ≡ ok (some (a_row the_row), behind 3 [] (b';' ∷ []) 3)
unfolding next_event ensure_pending line_up next_record_len skip fill read_once scan_value scan_tree
    next_token parse_binary_token scan_fragment scan_all scan_items peek_byte classify
    classify_attributed consume
by_threes = refl

at_once :
    next_event std decoding (chunks 100) 40 start
    ≡ ok (some (a_row the_row), behind 0 (b';' ∷ []) [] 6)
unfolding next_event ensure_pending line_up next_record_len skip fill read_once scan_value scan_tree
    next_token parse_binary_token scan_fragment scan_all scan_items peek_byte classify
    classify_attributed consume
at_once = refl

start-IsValid :
    (most : ℕ) (some_ : 1 ≤ most) → IsValid (chunks most) (chunks-Contract most some_) start
start-IsValid most some_ = record {
  within = omega arith;
  some_room = omega arith;
  limited = omega arith;
  ended = λ e. cc;
}

abbrev by_three : 1 ≤ 3
by_three = omega arith

abbrev by_hundred : 1 ≤ 100
by_hundred = omega arith

next_record_len-Answers_example :
    Answers std
      (chunks 3)
      (chunks-Contract 3 by_three)
      (target std (chunks 3) (chunks-Contract 3 by_three) start)
      (kept start)
      (budget (chunks 3) (chunks-Contract 3 by_three) start)
      (next_record_len std (chunks 3) 40 start)
next_record_len-Answers_example =
    next_record_len-Answers std (chunks 3) (chunks-Contract 3 by_three) 40 start
      (start-IsValid 3 by_three) refl (omega arith)

next_event-Told_example :
    Told std decoding
      (chunks 3)
      (chunks-Contract 3 by_three)
      (view std decoding (chunks 3) (chunks-Contract 3 by_three) start)
      (next_event std decoding (chunks 3) 40 start)
next_event-Told_example =
    next_event-Told std decoding (chunks 3) (chunks-Contract 3 by_three) 40 start
      (start-IsValid 3 by_three) refl refl (omega arith) (omega arith)

next_event-same_example :
    (◌≡◌ {A = Option Event} (some (a_row the_row)) (some (a_row the_row)))
    × (view std decoding (chunks 3) (chunks-Contract 3 by_three) (behind 3 [] (b';' ∷ []) 3)
        ≡ view std decoding
            (chunks 100)
            (chunks-Contract 100 by_hundred)
            (behind 0 (b';' ∷ []) [] 6))
next_event-same_example =
    next_event-same std decoding (chunks 3) (chunks-Contract 3 by_three) (chunks 100)
      (chunks-Contract 100 by_hundred) 40 start start (some (a_row the_row)) (some (a_row the_row))
      (behind 3 [] (b';' ∷ []) 3) (behind 0 (b';' ∷ []) [] 6) (start-IsValid 3 by_three)
      (start-IsValid 100 by_hundred) refl refl refl refl (omega arith) (omega arith) refl by_threes
      at_once

abbrev group_at : Reader Chunks → Group Chunks
group_at r = record { reader = r; done = false; key = [] }

abbrev groups_at : Reader Chunks → Groups Chunks
groups_at r = record { reader = r; in_group = true; key_columns = [] }

first_row :
    next_row std decoding (chunks 3) 40 (group_at start)
    ≡ ok (some the_row, group_at (behind 3 [] (b';' ∷ []) 3))
unfolding next_row ensure_pending line_up next_record_len skip fill read_once scan_value scan_tree
    next_token parse_binary_token scan_fragment scan_all scan_items peek_byte classify
    classify_attributed consume
first_row = refl

next_row-next_group_example :
    next_group std decoding (chunks 3) 40 10 (groups_at start)
    ≡ next_group std decoding (chunks 3) 40 9 (groups_at (behind 3 [] (b';' ∷ []) 3))
next_row-next_group_example =
    next_row-next_group std decoding (chunks 3) 40 9 [] (group_at start)
      (group_at (behind 3 [] (b';' ∷ []) 3)) the_row first_row
