-- ===== src/Knowledge/Counting.antt =====
-- What the index of src/knowledge_core.py counts.
use ops_sentry.Prelude.{
  string_eq, nat_eq, ℕ, ◌+◌, String, ◌≡◌, refl, sym, ap, subst, ◌∙◌, Option, List, [], ◌∷◌, ◌++◌,
  append_assoc, append-nil, map, Dict, lookup, lookup-insert, lookup-empty, contains, length, ◌==◌,
  if◌then◌else◌, arith, Bool-cases, inl, inr, eq_iff,
}
use ops_sentry.Ledger.Entry.{get_or}
use ops_sentry.Knowledge.Chunks.{KnowledgeChunk, MarkdownFile, load_chunks}
use ops_sentry.Knowledge.Index.{
  bump, Index, Tally, tally_token, tally, tokens_of, add_tally, index_chunks, rebuild_index,
}

abbrev pub freq : String → Dict String ℕ → ℕ
freq t d = get_or (lookup t d) 0

-- How often a term stands in a list of tokens.
abbrev pub count : String → List String → ℕ
count t [] = 0
count t (x ∷ xs) = (if x == t then 1 else 0) + count t xs

freq-bump :
    (t k : String) (d : Dict String ℕ) → freq t (bump k d) ≡ (if k == t then 1 else 0) + freq t d
unfolding bump
freq-bump t k d = elim (Bool-cases (k == t)) [
  | inl p ↦ rw (lookup-insert k t (freq k d + 1) d, p) (rw ((eq_iff k t).0 p) (omega arith))
  | inr q ↦ rw (lookup-insert k t (freq k d + 1) d, q) (omega arith)
]

term_freqs-tally_token :
    (t k : String) (a : Tally)
    → freq t (tally_token k a).term_freqs ≡ (if k == t then 1 else 0) + freq t a.term_freqs
unfolding tally_token
term_freqs-tally_token t k a = elim (Bool-cases (contains k a.seen_terms)) [
  | inl p ↦ rw p (freq-bump t k a.term_freqs)
  | inr q ↦ rw q (freq-bump t k a.term_freqs)
]

term_freqs-tally :
    (t : String) (tokens : List String) (a : Tally)
    → freq t (tally tokens a).term_freqs ≡ count t tokens + freq t a.term_freqs
unfolding tally
term_freqs-tally t [] a = omega arith
term_freqs-tally t (k ∷ tokens) a =
    omega (arith, term_freqs-tally t tokens (tally_token k a), term_freqs-tally_token t k a)

-- One for a term that is new to the chunk and stands in it.
abbrev once : String → List String → List String → ℕ
once t tokens seen = if contains t seen then 0 else if contains t tokens then 1 else 0

once-tally_token :
    (t k : String) (tokens : List String) (a : Tally)
    → once t tokens (tally_token k a).seen_terms + freq t (tally_token k a).doc_freq
      ≡ once t (k ∷ tokens) a.seen_terms + freq t a.doc_freq
unfolding tally_token
once-tally_token t k tokens a = elim (Bool-cases (k == t)) [
  | inl p ↦ elim (Bool-cases (contains k a.seen_terms)) [
    | inl s ↦ rw s (ground (arith, p, rw ((eq_iff k t).0 p) at s))
    | inr n ↦ rw n (ground (arith, p, rw ((eq_iff k t).0 p) at n, freq-bump t k a.doc_freq))
  ]
  | inr q ↦ elim (Bool-cases (contains k a.seen_terms)) [
    | inl s ↦ rw s (ground (arith, q))
    | inr n ↦ rw n (ground (arith, q, freq-bump t k a.doc_freq))
  ]
]

doc_freq-tally :
    (t : String) (tokens : List String) (a : Tally)
    → freq t (tally tokens a).doc_freq ≡ once t tokens a.seen_terms + freq t a.doc_freq
unfolding tally
doc_freq-tally t [] a = ground arith
doc_freq-tally t (k ∷ tokens) a =
    doc_freq-tally t tokens (tally_token k a) ∙ once-tally_token t k tokens a

-- How many chunks have a term.
abbrev pub chunks_with : String → List KnowledgeChunk → ℕ
chunks_with t [] = 0
chunks_with t (c ∷ cs) = (if contains t (tokens_of c) then 1 else 0) + chunks_with t cs

-- Chunk by chunk, the dict counts each term.
abbrev pub Counts : List KnowledgeChunk → List (Dict String ℕ) → Type 0
Counts [] [] = Unit
Counts [] (d ∷ ds) = ⊥
Counts (c ∷ cs) [] = ⊥
Counts (c ∷ cs) (d ∷ ds) = ((t : String) → freq t d ≡ count t (tokens_of c)) × Counts cs ds

doc_freq-index_chunks :
    (t : String) (cs : List KnowledgeChunk) (x : Index)
    → freq t (index_chunks cs x).doc_freq ≡ chunks_with t cs + freq t x.doc_freq
unfolding index_chunks
doc_freq-index_chunks t [] x = omega arith
doc_freq-index_chunks t (c ∷ cs) x = omega (
  arith,
  doc_freq-index_chunks t cs (
      add_tally (length (tokens_of c))
        (tally (tokens_of c) (record { term_freqs = []; doc_freq = x.doc_freq; seen_terms = [] }))
        x),
  doc_freq-tally t (tokens_of c)
      (record { term_freqs = []; doc_freq = x.doc_freq; seen_terms = [] }),
)

term_freqs-index_chunks :
    (cs : List KnowledgeChunk) (x : Index)
    → (ds : List (Dict String ℕ)) × ((index_chunks cs x).term_freqs ≡ x.term_freqs ++ ds)
      × Counts cs ds
unfolding index_chunks
term_freqs-index_chunks [] x = ([], sym (append-nil x.term_freqs), tt)
term_freqs-index_chunks (c ∷ cs) x =
    let a : Tally =
      tally (tokens_of c) (record { term_freqs = []; doc_freq = x.doc_freq; seen_terms = [] }) in
    let r = term_freqs-index_chunks cs (add_tally (length (tokens_of c)) a x) in
    (a.term_freqs ∷ r.0, r.1 ∙ append_assoc x.term_freqs (a.term_freqs ∷ []) r.0, (counted, r.2))
  where
    counted :
        (t : String)
        → freq t
            (tally
              (tokens_of c)
              (record { term_freqs = []; doc_freq = x.doc_freq; seen_terms = [] })).term_freqs
          ≡ count t (tokens_of c)
    counted t = omega (
      arith,
      term_freqs-tally t (tokens_of c)
          (record { term_freqs = []; doc_freq = x.doc_freq; seen_terms = [] }),
      ap (λ (o : Option ℕ). get_or o 0) (lookup-empty {V = ℕ} t),
    )

doc_lengths-index_chunks :
    (cs : List KnowledgeChunk) (x : Index)
    → (index_chunks cs x).doc_lengths ≡ x.doc_lengths ++ map (λ c. length (tokens_of c)) cs
unfolding index_chunks
doc_lengths-index_chunks [] x = sym (append-nil x.doc_lengths)
doc_lengths-index_chunks (c ∷ cs) x =
    doc_lengths-index_chunks cs (
      add_tally (length (tokens_of c))
        (tally (tokens_of c) (record { term_freqs = []; doc_freq = x.doc_freq; seen_terms = [] }))
        x)
    ∙ append_assoc x.doc_lengths (length (tokens_of c) ∷ []) (map (λ c. length (tokens_of c)) cs)

chunks-index_chunks : (cs : List KnowledgeChunk) (x : Index) → (index_chunks cs x).chunks ≡ x.chunks
unfolding index_chunks
chunks-index_chunks [] x = refl
chunks-index_chunks (c ∷ cs) x = chunks-index_chunks cs _

-- The index has the chunks of all files; for each chunk its dict counts every term in the tokens of its heading and body, and
-- its length is the number of these; and for every term it has the number of chunks in which the term stands.
pub rebuild_index_lem :
    (files : List MarkdownFile)
    → ((rebuild_index files).chunks ≡ load_chunks files)
      × Counts (load_chunks files) (rebuild_index files).term_freqs
      × ((rebuild_index files).doc_lengths ≡ map (λ c. length (tokens_of c)) (load_chunks files))
      × ((t : String) → freq t (rebuild_index files).doc_freq ≡ chunks_with t (load_chunks files))
unfolding rebuild_index
rebuild_index_lem files =
    let x : Index = record {
      chunks = load_chunks files;
      term_freqs = [];
      doc_freq = [];
      doc_lengths = [];
    } in
    let r = term_freqs-index_chunks (load_chunks files) x in
    (
      chunks-index_chunks (load_chunks files) x,
      subst (Counts (load_chunks files)) (sym r.1) r.2,
      doc_lengths-index_chunks (load_chunks files) x,
      (λ t. omega (
        arith,
        doc_freq-index_chunks t (load_chunks files) x,
        ap (λ (o : Option ℕ). get_or o 0) (lookup-empty {V = ℕ} t),
      )),
    )
