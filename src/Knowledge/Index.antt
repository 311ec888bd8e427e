-- ===== src/Knowledge/Index.antt =====
-- The words of a text and the index over them of src/knowledge_core.py.
use Prim.Native.Char.{Char, code}
use ops_sentry.Prelude.{
  string_eq, nat_eq, ℕ, ◌+◌, String, Bool, ◌||◌, List, [], ◌∷◌, ◌++◌, Dict, insert, lookup,
  contains, length, ◌==◌, if◌then◌else◌,
}
use ops_sentry.Prelude.Texts.{◌+++◌, put, chars, in_range, lower}
use ops_sentry.Ledger.Entry.{get_or}
use ops_sentry.Knowledge.Chunks.{KnowledgeChunk, MarkdownFile, load_chunks}

-- [A-Za-z0-9_]
abbrev pub is_word : Char → Bool
is_word c =
    in_range 65 90 (code c)
    || (in_range 97 122 (code c) || (in_range 48 57 (code c) || code c == 95))

-- [\u4e00-\u9fff]
abbrev pub is_han : Char → Bool
is_han c = in_range 19968 40959 (code c)

abbrev pub ended : String → List String
ended token = if token == "" then [] else token ∷ []

-- findall: `token` is the word so far
unfoldable pub find_tokens : String → List Char → List String
find_tokens token [] = ended token
find_tokens token (c ∷ s) =
    (if is_word c then [] else if is_han c then ended token ++ put "" c ∷ [] else ended token)
    ++ find_tokens (if is_word c then put token c else "") s

abbrev pub lower_all : List String → List String
unfolding lower
lower_all [] = []
lower_all (t ∷ ts) = lower t ∷ lower_all ts

-- tokenize
unfoldable pub tokenize : String → List String
unfolding find_tokens chars lower
tokenize text = lower_all (find_tokens "" (chars text))

-- d[k] = d.get(k, 0) + 1
unfoldable pub bump : String → Dict String ℕ → Dict String ℕ
bump k d = insert k (get_or (lookup k d) 0 + 1) d

-- _term_freqs, _doc_freq and _doc_lengths
pub record Index : Type 0 where
  pub chunks : List KnowledgeChunk
  pub term_freqs : List (Dict String ℕ)
  pub doc_freq : Dict String ℕ
  pub doc_lengths : List ℕ

-- The variables of the loop over the tokens of one chunk.
pub record Tally : Type 0 where
  pub term_freqs : Dict String ℕ
  pub doc_freq : Dict String ℕ
  pub seen_terms : List String

unfoldable pub tally_token : String → Tally → Tally
unfolding bump
tally_token t a =
    if contains t a.seen_terms then record a { term_freqs = bump t a.term_freqs } else record {
      term_freqs = bump t a.term_freqs;
      doc_freq = bump t a.doc_freq;
      seen_terms = t ∷ a.seen_terms;
    }

unfoldable pub tally : List String → Tally → Tally
unfolding tally_token
tally [] a = a
tally (t ∷ tokens) a = tally tokens (tally_token t a)

abbrev pub tokens_of : KnowledgeChunk → List String
unfolding tokenize
tokens_of c = tokenize (c.heading +++ "\n" +++ c.body)

abbrev pub add_tally : ℕ → Tally → Index → Index
add_tally n a x = record x {
  term_freqs = x.term_freqs ++ a.term_freqs ∷ [];
  doc_freq = a.doc_freq;
  doc_lengths = x.doc_lengths ++ n ∷ [];
}

unfoldable pub index_chunks : List KnowledgeChunk → Index → Index
unfolding tally tokenize
index_chunks [] x = x
index_chunks (c ∷ cs) x = index_chunks cs (
    add_tally (length (tokens_of c))
      (tally (tokens_of c) (record { term_freqs = []; doc_freq = x.doc_freq; seen_terms = [] })) x)

-- rebuild_index. The average length is the quotient of the sum and the number of _doc_lengths, and is taken there.
unfoldable pub rebuild_index : List MarkdownFile → Index
unfolding index_chunks load_chunks
rebuild_index files =
    index_chunks (load_chunks files)
      (record { chunks = load_chunks files; term_freqs = []; doc_freq = []; doc_lengths = [] })
