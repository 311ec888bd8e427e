-- ===== src/Knowledge/Examples.antt =====
-- A file with two sections, for the theorems about src/knowledge_core.py. Scores are whole numbers here.
use ops_sentry.Prelude.{
  string_eq, nat_eq, ℕ, ◌+◌, ◌-◌, ◌*◌, ◌≤◌, String, ◌≡◌, [], ◌∷◌, map, All, contains, filter,
  length, ltb, ◌==◌, arith,
}
use ops_sentry.Prelude.Sorting.{IsSorted}
use ops_sentry.Knowledge.Chunks.{MarkdownFile, load_chunks}
use ops_sentry.Knowledge.Index.{tokenize, tokens_of, rebuild_index}
use ops_sentry.Knowledge.Counting.{Counts, freq, chunks_with, rebuild_index_lem}
use ops_sentry.Knowledge.Searching.{Floats, distinct, better, search}
use ops_sentry.Knowledge.Finding.{IsIn, search_finds}

abbrev notes : MarkdownFile
notes = record {
  path = "data/knowledge/notes.md";
  stem = "notes";
  lines =
      "Intro" ∷ "## Disk full" ∷ "priority_score: 0.5" ∷ "Clean the disk." ∷ "### Logs" ∷ "Rotate."
      ∷ [];
}

index_example :
    ((rebuild_index (notes ∷ [])).chunks ≡ load_chunks (notes ∷ []))
    × Counts (load_chunks (notes ∷ [])) (rebuild_index (notes ∷ [])).term_freqs
    × ((rebuild_index (notes ∷ [])).doc_lengths
        ≡ map (λ c. length (tokens_of c)) (load_chunks (notes ∷ [])))
    × ((t : String)
        → freq t (rebuild_index (notes ∷ [])).doc_freq ≡ chunks_with t (load_chunks (notes ∷ [])))
index_example = rebuild_index_lem (notes ∷ [])

abbrev whole : Floats ℕ
whole = record {
  of_number = λ n. n;
  of_decimal = λ s. 1;
  add = λ x y. x + y;
  sub = λ x y. x - y;
  mul = λ x y. x * y;
  div = λ x y. x;
  log = λ x. x;
  is_zero = λ x. x == 0;
  lt = ltb;
}

search_example :
    All
      (λ h.
        IsIn h.chunk (load_chunks (notes ∷ []))
        × (h.terms
            ≡ filter (λ t. contains t (tokens_of h.chunk)) (distinct [] (tokenize "the disk"))))
      (search whole "the disk" 5 1 1 (rebuild_index (notes ∷ [])))
    × (length (search whole "the disk" 5 1 1 (rebuild_index (notes ∷ []))) ≤ 5)
    × IsSorted (better whole) (search whole "the disk" 5 1 1 (rebuild_index (notes ∷ [])))
search_example =
    search_finds whole (λ x y h. ground (arith, h)) (λ x y z h k. ground (arith, h, k)) (notes ∷ [])
      "the disk" 5 1 1
