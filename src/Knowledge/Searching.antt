-- ===== src/Knowledge/Searching.antt =====
-- `search` of src/knowledge_core.py: BM25 over the index. The operations on floats are a parameter; the formula is
-- written out over them.
use ops_sentry.Prelude.{
  string_eq, nat_eq, ℕ, ◌-◌, max, String, Bool, List, [], ◌∷◌, ◌++◌, Dict, lookup, contains, any,
  take, length, sum, ◌==◌, if◌then◌else◌,
}
use ops_sentry.Prelude.Sorting.{sort}
use ops_sentry.Ledger.Entry.{get_or}
use ops_sentry.Knowledge.Chunks.{KnowledgeChunk}
use ops_sentry.Knowledge.Index.{Index, tokenize}

-- Python's floats: those of a number and of a decimal text, and the operations that the score uses.
pub record Floats (F : Type 0) : Type 0 where
  pub of_number : ℕ → F
  pub of_decimal : String → F
  pub add : F → F → F
  pub sub : F → F → F
  pub mul : F → F → F
  pub div : F → F → F
  pub log : F → F
  pub is_zero : F → Bool
  pub lt : F → F → Bool

-- list(dict.fromkeys(tokens)), behind what has been seen
unfoldable pub distinct : List String → List String → List String
distinct seen [] = []
distinct seen (t ∷ ts) = (if contains t seen then [] else t ∷ []) ++ distinct (t ∷ seen) ts

module _ {F : Type 0} (fl : Floats F) where
  pub record SearchHit : Type 0 where
    pub chunk : KnowledgeChunk
    pub score : F
    pub terms : List String

  -- The parameters k1 and b, and what the loop reads of the index.
  pub record Setting : Type 0 where
    pub k1 : F
    pub b : F
    pub total_docs : ℕ
    pub doc_freq : Dict String ℕ
    pub average : F

  abbrev pub one : F
  one = fl.of_number 1

  abbrev pub or_one : F → F
  or_one x = if fl.is_zero x then one else x

  -- _avg_doc_length
  abbrev pub average_of : List ℕ → F
  average_of [] = fl.of_number 0
  average_of (n ∷ ns) = fl.div (fl.of_number (sum (n ∷ ns))) (fl.of_number (length (n ∷ ns)))

  -- log(1 + (total_docs - doc_freq + 0.5) / (doc_freq + 0.5)); no term is in more chunks than there are
  abbrev pub idf : Setting → ℕ → F
  idf s doc_freq = fl.log (
      fl.add one (
        fl.div (fl.add (fl.of_number (s.total_docs - doc_freq)) (fl.of_decimal "0.5"))
          (fl.add (fl.of_number doc_freq) (fl.of_decimal "0.5"))))

  abbrev pub weight : Setting → ℕ → ℕ → F
  weight s doc_length freq = fl.div (fl.mul (fl.of_number freq) (fl.add s.k1 one)) (
      fl.add (fl.of_number freq) (
        fl.mul s.k1 (
          fl.add (fl.sub one s.b)
            (fl.mul s.b (fl.div (fl.of_number doc_length) (or_one s.average))))))

  -- The loop over the terms: the score and the matched terms.
  unfoldable pub score_terms :
      Setting → Dict String ℕ → ℕ → List String → F × List String → F × List String
  score_terms s term_freqs doc_length [] (score, matched) = (score, matched)
  score_terms s term_freqs doc_length (t ∷ ts) (score, matched) =
      score_terms s term_freqs doc_length ts (
        if get_or (lookup t term_freqs) 0 == 0 then (score, matched) else (
          fl.add score (
              fl.mul (idf s (get_or (lookup t s.doc_freq) 0))
                (weight s doc_length (get_or (lookup t term_freqs) 0))),
          matched ++ t ∷ [],
        ))

  abbrev pub heading_boost : List String → KnowledgeChunk → F
  unfolding tokenize
  heading_boost terms c =
      if any (λ t. contains t (tokenize c.heading)) terms then fl.of_decimal "1.2" else one

  abbrev pub hit_of : List String → KnowledgeChunk → F × List String → List SearchHit
  unfolding tokenize
  hit_of terms c (score, matched) =
      if fl.is_zero score
      then []
      else record {
        chunk = c;
        score = fl.mul (fl.mul score (fl.of_decimal c.priority_score)) (heading_boost terms c);
        terms = matched;
      }
        ∷ []

  -- One chunk; an empty dict is passed over.
  unfoldable pub hits_of_chunk :
      Setting → List String → KnowledgeChunk → Dict String ℕ → ℕ → List SearchHit
  unfolding score_terms tokenize
  hits_of_chunk s terms c [] n = []
  hits_of_chunk s terms c (e ∷ term_freqs) n =
      hit_of terms c (score_terms s (e ∷ term_freqs) (max n 1) terms (fl.of_number 0, []))

  -- The loop over the chunks with their dicts and lengths.
  unfoldable pub hits :
      Setting → List String → List KnowledgeChunk → List (Dict String ℕ) → List ℕ → List SearchHit
  unfolding hits_of_chunk
  hits s terms (c ∷ cs) (d ∷ ds) (n ∷ ns) = hits_of_chunk s terms c d n ++ hits s terms cs ds ns
  hits s terms [] ds ns = []
  hits s terms (c ∷ cs) [] ns = []
  hits s terms (c ∷ cs) (d ∷ ds) [] = []

  -- sort by score, reverse=True
  abbrev pub better : SearchHit → SearchHit → Bool
  better h g = fl.lt g.score h.score

  abbrev pub setting_of : F → F → Index → Setting
  setting_of k1 b x = record {
    k1 = k1;
    b = b;
    total_docs = length x.chunks;
    doc_freq = x.doc_freq;
    average = average_of x.doc_lengths;
  }

  -- Where the query has no token there is nothing to search for.
  unfoldable pub search_tokens : ℕ → Setting → Index → List String → List SearchHit
  unfolding hits distinct tokenize
  search_tokens limit s x [] = []
  search_tokens limit s x (t ∷ ts) =
      take limit (sort better (hits s (distinct [] (t ∷ ts)) x.chunks x.term_freqs x.doc_lengths))

  -- search; without a chunk the loop gives nothing
  unfoldable pub search : String → ℕ → F → F → Index → List SearchHit
  unfolding search_tokens tokenize
  search query limit k1 b x = search_tokens limit (setting_of k1 b x) x (tokenize query)
