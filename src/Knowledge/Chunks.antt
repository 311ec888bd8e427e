-- ===== src/Knowledge/Chunks.antt =====
-- The chunks that src/knowledge_core.py makes of a markdown file, whose lines are given as `splitlines` returns them.
use Prim.Native.Char.{Char, code}
use ops_sentry.Prelude.{
  string_eq, nat_eq, ℕ, suc, String, Bool, Option, none, some, List, [], ◌∷◌, ◌++◌, ◌==◌,
  if◌then◌else◌,
}
use ops_sentry.Prelude.Texts.{◌+++◌, put, chars, in_range, strip, join, show_number}
use ops_sentry.Prelude.Cutting.{strip_prefix}
use ops_sentry.Tools.Patterns.{is_space, fold_case}

-- KnowledgeChunk; the score is kept as the decimal text that `float` is given.
pub record KnowledgeChunk : Type 0 where
  pub chunk_id : String
  pub source_path : String
  pub heading : String
  pub level : ℕ
  pub body : String
  pub priority_score : String

-- `\s+(.*)$`
abbrev pub after_spaces : String → Option String
unfolding is_space
after_spaces String.[] = none
after_spaces (String.◌∷◌ c s) = if is_space c then some (strip s) else none

abbrev pub with_level : ℕ → Option String → Option (ℕ × String)
with_level n none = none
with_level n (some heading) = some (n, heading)

abbrev pub two_hashes : Option String → Option (ℕ × String)
unfolding is_space
two_hashes none = none
two_hashes (some rest) = with_level 2 (after_spaces rest)

abbrev pub three_hashes : String → Option String → Option (ℕ × String)
unfolding is_space strip_prefix
three_hashes line none = two_hashes (strip_prefix "##" line)
three_hashes line (some rest) = with_level 3 (after_spaces rest)

-- HEADING_PATTERN on a stripped line: the level and the stripped heading.
unfoldable pub heading_of : String → Option (ℕ × String)
unfolding is_space strip_prefix
heading_of line = three_hashes line (strip_prefix "###" line)

-- `\s*`
unfoldable pub skip_spaces : List Char → List Char
unfolding is_space
skip_spaces [] = []
skip_spaces (c ∷ s) = let rest = skip_spaces s in if is_space c then rest else c ∷ s

-- A word of small letters and signs, without regard to case.
unfoldable pub skip_word : List Char → List Char → Option (List Char)
unfolding fold_case
skip_word [] s = some s
skip_word (d ∷ w) [] = none
skip_word (d ∷ w) (c ∷ s) = let rest = skip_word w s in if fold_case c == code d then rest else none

abbrev pub is_digit : Char → Bool
is_digit c = in_range 48 57 (code c)

-- `[0-9]*` from the text so far: the digits and what follows.
unfoldable pub take_digits : String → List Char → String × List Char
take_digits found [] = (found, [])
take_digits found (c ∷ s) =
    let more = take_digits (put found c) s in if is_digit c then more else (found, c ∷ s)

-- `\s*$`
abbrev pub at_end : String → List Char → Option String
at_end found [] = some found
at_end found (c ∷ s) = none

abbrev pub after_fraction : String → String × List Char → Option String
unfolding skip_spaces
after_fraction whole (found, s) = if found == whole then none else at_end found (skip_spaces s)

abbrev pub after_whole : String × List Char → Option String
unfolding skip_spaces take_digits
after_whole (found, []) = if found == "" then none else some found
after_whole (found, c ∷ s) =
    if found == ""
    then none
    else if code c == 46
    then after_fraction (put found c) (take_digits (put found c) s)
    else at_end found (skip_spaces (c ∷ s))

abbrev pub after_colon : Option (List Char) → Option String
unfolding skip_spaces take_digits
after_colon none = none
after_colon (some s) = after_whole (take_digits "" (skip_spaces s))

abbrev pub after_name : Option (List Char) → Option String
unfolding skip_spaces skip_word take_digits chars
after_name none = none
after_name (some s) = after_colon (skip_word (chars ":") (skip_spaces s))

-- The pattern of a priority line: the number.
unfoldable pub priority_of : String → Option String
unfolding skip_spaces skip_word take_digits chars
priority_of line = after_name (skip_word (chars "priority_score") (skip_spaces (chars line)))

-- The variables of _chunk_markdown.
pub record Chunker : Type 0 where
  pub current_heading : String
  pub current_level : ℕ
  pub current_lines : List String
  pub chunk_index : ℕ
  pub priority_score : String
  pub chunks : List KnowledgeChunk

abbrev pub body_of : Chunker → String
unfolding strip join
body_of k = strip (join "\n" k.current_lines)

abbrev pub chunk_of : String → Chunker → KnowledgeChunk
unfolding strip join
chunk_of path k = record {
  chunk_id = path +++ "#" +++ show_number k.chunk_index;
  source_path = path;
  heading = k.current_heading;
  level = k.current_level;
  body = body_of k;
  priority_score = k.priority_score;
}

-- flush
unfoldable pub flush : String → Chunker → Chunker
unfolding strip join
flush path k =
    if body_of k == "" then record k { current_lines = []; priority_score = "1.0" } else record k {
      current_lines = [];
      priority_score = "1.0";
      chunk_index = suc k.chunk_index;
      chunks = k.chunks ++ chunk_of path k ∷ [];
    }

abbrev pub with_priority : String → Chunker → Option String → Chunker
with_priority line k (some score) = record k { priority_score = score }
with_priority line k none = record k { current_lines = k.current_lines ++ line ∷ [] }

abbrev pub with_heading : String → String → Chunker → Option (ℕ × String) → Chunker
unfolding flush priority_of
with_heading path line k (some (level, heading)) = record (flush path k) {
  current_heading = heading;
  current_level = level;
}
with_heading path line k none = with_priority line k (priority_of line)

-- One turn of the loop.
unfoldable pub chunk_line : String → String → Chunker → Chunker
unfolding flush priority_of heading_of strip
chunk_line path line k = with_heading path line k (heading_of (strip line))

unfoldable pub chunk_lines : String → List String → Chunker → Chunker
unfolding chunk_line
chunk_lines path [] k = k
chunk_lines path (line ∷ lines) k = chunk_lines path lines (chunk_line path line k)

-- A file: its path, its name without the suffix, and its lines.
pub record MarkdownFile : Type 0 where
  pub path : String
  pub stem : String
  pub lines : List String

abbrev pub chunker_at_start : String → Chunker
chunker_at_start stem = record {
  current_heading = stem;
  current_level = 1;
  current_lines = [];
  chunk_index = 0;
  priority_score = "1.0";
  chunks = [];
}

-- _chunk_markdown
unfoldable pub chunk_markdown : MarkdownFile → List KnowledgeChunk
unfolding chunk_lines flush
chunk_markdown f = (flush f.path (chunk_lines f.path f.lines (chunker_at_start f.stem))).chunks

-- _load_chunks over the files in the order of their paths
unfoldable pub load_chunks : List MarkdownFile → List KnowledgeChunk
unfolding chunk_markdown
load_chunks [] = []
load_chunks (f ∷ files) = chunk_markdown f ++ load_chunks files
