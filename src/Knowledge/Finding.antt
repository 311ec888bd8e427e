-- ===== src/Knowledge/Finding.antt =====
-- What a search of src/knowledge_core.py finds.
use ops_sentry.Prelude.{
  string_eq, nat_eq, ℕ, zero, suc, ◌≤◌, max, String, ◌≡◌, refl, sym, ◌∙◌, Bool, true, false, not,
  ◌⊎◌, inl, inr, List, [], ◌∷◌, ◌++◌, append_assoc, append-nil, Dict, contains, filter, take,
  length, length-take, All, All-append, All-take, All-map_of, ◌==◌, if◌then◌else◌, arith,
  Bool-cases, subst,
}
use ops_sentry.Prelude.Sorting.{sort, All-sort, IsSorted, sort-IsSorted}
use ops_sentry.Knowledge.Chunks.{KnowledgeChunk, MarkdownFile, load_chunks}
use ops_sentry.Knowledge.Index.{Index, tokenize, tokens_of, rebuild_index}
use ops_sentry.Knowledge.Counting.{freq, count, Counts, rebuild_index_lem}
use ops_sentry.Knowledge.Searching.{
  Floats, distinct, SearchHit, Setting, idf, weight, score_terms, hit_of, hits_of_chunk, hits,
  better, setting_of, search_tokens, search,
}

contains-count : (t : String) (xs : List String) → contains t xs ≡ not (count t xs == 0)
contains-count t [] = refl
contains-count t (x ∷ xs) = ground (arith, contains-count t xs)

abbrev pub IsIn : KnowledgeChunk → List KnowledgeChunk → Type 0
IsIn c [] = ⊥
IsIn c (x ∷ xs) = (x ≡ c) ⊎ IsIn c xs

module _ {F : Type 0} (fl : Floats F) where
  -- The terms that have matched are those that the dict counts.
  score_terms_lem :
      (s : Setting fl) (d : Dict String ℕ) (n : ℕ) (ts : List String) (a : F × List String)
      → (score_terms fl s d n ts a).1 ≡ a.1 ++ filter (λ t. not (freq t d == 0)) ts
  unfolding score_terms
  score_terms_lem s d n [] (score, matched) = sym (append-nil matched)
  score_terms_lem s d n (t ∷ ts) (score, matched) =
      by_test (freq t d == 0) (score_terms_lem s d n ts)
    where
      added : F × List String
      added = (
        fl.add score (fl.mul (idf fl s (freq t s.doc_freq)) (weight fl s n (freq t d))),
        matched ++ t ∷ [],
      )

      by_test :
          (b : Bool)
          → ((a : F × List String)
              → (score_terms fl s d n ts a).1 ≡ a.1 ++ filter (λ x. not (freq x d == 0)) ts)
          → (score_terms fl s d n ts (if b then (score, matched) else added)).1
            ≡ matched
              ++ (if not b
                  then t ∷ filter (λ x. not (freq x d == 0)) ts
                  else filter (λ x. not (freq x d == 0)) ts)
      by_test true ih = ih (score, matched)
      by_test false ih =
          ih added ∙ append_assoc matched (t ∷ []) (filter (λ x. not (freq x d == 0)) ts)

  filter-counted :
      (d : Dict String ℕ) (tokens ts : List String)
      → ((t : String) → freq t d ≡ count t tokens)
      → filter (λ t. not (freq t d == 0)) ts ≡ filter (λ t. contains t tokens) ts
  filter-counted d tokens [] h = refl
  filter-counted d tokens (t ∷ ts) h =
      ground (arith, h t, contains-count t tokens, filter-counted d tokens ts h)

  abbrev IsRight : List String → SearchHit fl → Type 0
  IsRight terms h = h.terms ≡ filter (λ t. contains t (tokens_of h.chunk)) terms

  hits_of_chunk-IsRight :
      (s : Setting fl) (terms : List String) (c : KnowledgeChunk) (d : Dict String ℕ) (n : ℕ)
      → ((t : String) → freq t d ≡ count t (tokens_of c))
      → All (λ h. (c ≡ h.chunk) × IsRight terms h) (hits_of_chunk fl s terms c d n)
  unfolding hits_of_chunk
  hits_of_chunk-IsRight s terms c [] n h = tt
  hits_of_chunk-IsRight s terms c (e ∷ d) n h =
      one_hit (score_terms fl s (e ∷ d) (max n 1) terms (fl.of_number 0, [])) (
        score_terms_lem s (e ∷ d) (max n 1) terms (fl.of_number 0, [])
        ∙ filter-counted (e ∷ d) (tokens_of c) terms h)
    where
      one_hit :
          (a : F × List String)
          → a.1 ≡ filter (λ t. contains t (tokens_of c)) terms
          → All (λ h. (c ≡ h.chunk) × IsRight terms h) (hit_of fl terms c a)
      one_hit (score, matched) e = elim (Bool-cases (fl.is_zero score)) [
        | inl z ↦ rw z tt
        | inr z ↦ rw z ((refl, e), tt)
      ]

  hits-IsRight :
      (s : Setting fl) (terms : List String) (cs : List KnowledgeChunk) (ds : List (Dict String ℕ))
      (ns : List ℕ)
      → Counts cs ds
      → All (λ h. IsIn h.chunk cs × IsRight terms h) (hits fl s terms cs ds ns)
  unfolding hits
  hits-IsRight s terms [] ds ns k = tt
  hits-IsRight s terms (c ∷ cs) [] ns k = tt
  hits-IsRight s terms (c ∷ cs) (d ∷ ds) [] k = tt
  hits-IsRight s terms (c ∷ cs) (d ∷ ds) (n ∷ ns) k =
      All-append _ (hits_of_chunk fl s terms c d n) (hits fl s terms cs ds ns)
        (All-map_of _ _ (λ h p. (inl p.0, p.1)) (hits_of_chunk fl s terms c d n)
          (hits_of_chunk-IsRight s terms c d n k.0))
        (All-map_of _ _ (λ h p. (inr p.0, p.1)) (hits fl s terms cs ds ns)
          (hits-IsRight s terms cs ds ns k.1))

  search_tokens-IsRight :
      (limit : ℕ) (s : Setting fl) (x : Index) (tokens : List String)
      → Counts x.chunks x.term_freqs
      → All
          (λ h. IsIn h.chunk x.chunks × IsRight (distinct [] tokens) h)
          (search_tokens fl limit s x tokens)
        × (length (search_tokens fl limit s x tokens) ≤ limit)
  unfolding search_tokens
  search_tokens-IsRight limit s x [] k = (tt, omega arith)
  search_tokens-IsRight limit s x (t ∷ ts) k =
      let found = hits fl s (distinct [] (t ∷ ts)) x.chunks x.term_freqs x.doc_lengths in
      (
        All-take _ limit (sort (better fl) found) (
            All-sort (better fl) _ found
              (hits-IsRight s (distinct [] (t ∷ ts)) x.chunks x.term_freqs x.doc_lengths k)),
        omega (arith, length-take {0} limit (sort (better fl) found)),
      )

  IsSorted-take :
      (n : ℕ) (hs : List (SearchHit fl))
      → IsSorted (better fl) hs
      → IsSorted (better fl) (take n hs)
  IsSorted-take zero hs h = tt
  IsSorted-take (suc n) [] h = tt
  IsSorted-take (suc n) (x ∷ hs) h = (All-take _ n hs h.0, IsSorted-take n hs h.1)

  module _ (asymm : (x y : F) → fl.lt x y ≡ true → fl.lt y x ≡ false)
      (through : (x y z : F) → fl.lt x y ≡ false → fl.lt y z ≡ false → fl.lt x z ≡ false) where
    search_tokens-IsSorted :
        (limit : ℕ) (s : Setting fl) (x : Index) (tokens : List String)
        → IsSorted (better fl) (search_tokens fl limit s x tokens)
    unfolding search_tokens
    search_tokens-IsSorted limit s x [] = tt
    search_tokens-IsSorted limit s x (t ∷ ts) = IsSorted-take limit _ (
        sort-IsSorted (better fl) (λ g h. asymm h.score g.score)
          (λ g h i a b. through g.score h.score i.score a b)
          (hits fl s (distinct [] (t ∷ ts)) x.chunks x.term_freqs x.doc_lengths))

    -- Where the order of scores is a strict weak order, a search gives at most `limit` hits, none of them with a higher score
    -- than an earlier one, each of a chunk of the files, with those terms of the query, each once and in their order, that
    -- stand in the heading or the body of this chunk.
    pub search_finds :
        (files : List MarkdownFile) (query : String) (limit : ℕ) (k1 b : F)
        → All
            (λ h.
              IsIn h.chunk (load_chunks files)
              × (h.terms
                  ≡ filter (λ t. contains t (tokens_of h.chunk)) (distinct [] (tokenize query))))
            (search fl query limit k1 b (rebuild_index files))
          × (length (search fl query limit k1 b (rebuild_index files)) ≤ limit)
          × IsSorted (better fl) (search fl query limit k1 b (rebuild_index files))
    unfolding search
    search_finds files query limit k1 b =
        let r = rebuild_index_lem files in
        let q =
          search_tokens-IsRight limit (setting_of fl k1 b (rebuild_index files))
            (rebuild_index files) (tokenize query)
            (subst (λ cs. Counts cs (rebuild_index files).term_freqs) (sym r.0) r.1) in
        (
          All-map_of _ _ (λ h p. (subst (IsIn h.chunk) r.0 p.0, p.1))
              (search fl query limit k1 b (rebuild_index files)) q.0,
          q.1,
          search_tokens-IsSorted limit (setting_of fl k1 b (rebuild_index files))
              (rebuild_index files) (tokenize query),
        )
