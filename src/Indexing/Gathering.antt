-- ===== src/Indexing/Gathering.antt =====
-- How the chunks of files are gathered in batches (crates/cca-daemon/src/indexing.rs).
use cca.Common.{
  ℕ, suc, ◌+◌, ◌≤◌, ◌<◌, ◌≡◌, refl, sym, ap, subst, ◌∙◌, true, false, not, List, [], ◌∷◌, ◌++◌,
  Option, none, some, map, inl, inr, Bool-cases, arith, length, length-append, keep_if, ltb, leb,
  if-elim, if◌then◌else◌,
}
use mathlib.Core.List.{append_assoc, append-nil, map-append}
use cca.Tokens.{Text, bytes}
use cca.Indexing.{
  CodeChunk, Indexer, Progress, create_embedding_text, is_nil, process_chunk_batch, add_pending,
  process_chunk, process_chunks, JobError,
}

-- The chunks in batches of which the last one is the first.
abbrev pub handed : List (List CodeChunk) → List CodeChunk
handed [] = []
handed (b ∷ bs) = handed bs ++ b

abbrev pub AllWithin : ℕ → List (List CodeChunk) → Type 0
AllWithin n [] = Unit {0}
AllWithin n (b ∷ bs) = (length b ≤ n) × AllWithin n bs

-- The chunks of a file that are not too large, and those of files.
abbrev pub chunks_of : Option (List CodeChunk) → List CodeChunk
chunks_of none = []
chunks_of (some cs) = cs

abbrev pub fitting : ℕ → List CodeChunk → List CodeChunk
fitting max_chunk_size cs = keep_if (λ c. not (ltb max_chunk_size (bytes c.content))) cs

abbrev pub chunks : List (CodeChunk × Text) → List CodeChunk
chunks = map (λ c. c.0)

not_full : (n k : ℕ) → leb n k ≡ false → k < n
not_full n k e = ground arith

fitting-cons :
    (n : ℕ) (c : CodeChunk) (cs : List CodeChunk)
    → fitting n (c ∷ []) ++ fitting n cs ≡ fitting n (c ∷ cs)
unfolding keep_if
fitting-cons n c cs = elim (Bool-cases (ltb n (bytes c.content))) [
  | inl e ↦ rw e refl
  | inr e ↦ rw e refl
]

length-chunks : (cs : List (CodeChunk × Text)) → length (chunks cs) ≡ length cs
length-chunks [] = refl
length-chunks (c ∷ cs) = ap suc (length-chunks cs)

-- The text of the embedding of a chunk does not panic; so for all of them.
abbrev pub Embeds : CodeChunk → Type 0
Embeds c = (t : Text) × (create_embedding_text c ≡ some t)

abbrev pub AllEmbed : List CodeChunk → Type 0
AllEmbed [] = Unit {0}
AllEmbed (c ∷ cs) = Embeds c × AllEmbed cs

module _ {V : Type 0} (ix : Indexer V) where
  abbrev pub fitting_of : ℕ → List Text → List CodeChunk
  fitting_of max_chunk_size [] = []
  fitting_of max_chunk_size (f ∷ fs) =
      fitting max_chunk_size (chunks_of (ix.parse_file f)) ++ fitting_of max_chunk_size fs

  -- What was seen is in the batches and among the pending chunks, of which there is no full batch.
  pub record IsBatched (batch_size : ℕ) (seen : List CodeChunk) (p : Progress) : Type 0 where
    pub content : handed p.batches ++ chunks p.pending_chunks ≡ seen
    pub total : p.total_chunks ≡ length seen
    pub short : AllWithin batch_size p.batches
    pub room : length p.pending_chunks < batch_size

  -- After a batch nothing is pending.
  pub record IsFlushed (batch_size : ℕ) (seen : List CodeChunk) (p : Progress) : Type 0 where
    pub content : handed p.batches ≡ seen
    pub total : p.total_chunks ≡ length seen
    pub short : AllWithin batch_size p.batches
    pub empty : p.pending_chunks ≡ []

  is_nil_sound : (cs : List (CodeChunk × Text)) → is_nil ix cs ≡ true → cs ≡ []
  is_nil_sound [] e = refl
  is_nil_sound (c ∷ cs) e = absurd (ground arith)

  pub flush :
      (batch_size : ℕ) (seen : List CodeChunk) (p : Progress)
      → handed p.batches ++ chunks p.pending_chunks ≡ seen
      → p.total_chunks ≡ length seen
      → AllWithin batch_size p.batches
      → length p.pending_chunks ≤ batch_size
      → IsFlushed batch_size seen (process_chunk_batch ix p)
  unfolding process_chunk_batch
  flush batch_size seen p content total short small =
      if-elim (IsFlushed batch_size seen) (is_nil ix p.pending_chunks)
        (λ e.
          let gone = is_nil_sound p.pending_chunks e in
          record {
            content =
                sym (append-nil (handed p.batches))
                ∙ ap (λ cs. handed p.batches ++ chunks cs) (sym gone)
                ∙ content;
            total = total;
            short = short;
            empty = gone;
          })
        (λ e. record {
          content = content;
          total = total;
          short = (omega (arith, length-chunks p.pending_chunks, small), short);
          empty = refl;
        })

  full_or_not :
      (batch_size : ℕ) (seen : List CodeChunk) (q : Progress)
      → 0 < batch_size
      → handed q.batches ++ chunks q.pending_chunks ≡ seen
      → q.total_chunks ≡ length seen
      → AllWithin batch_size q.batches
      → length q.pending_chunks ≤ batch_size
      → IsBatched batch_size seen
          (if leb batch_size (length q.pending_chunks) then process_chunk_batch ix q else q)
  full_or_not batch_size seen q pos content total short small =
      if-elim (IsBatched batch_size seen) (leb batch_size (length q.pending_chunks))
        (λ _.
          let f = flush batch_size seen q content total short small in
          record {
            content =
                ap (λ cs. handed (process_chunk_batch ix q).batches ++ chunks cs) f.empty
                ∙ append-nil (handed (process_chunk_batch ix q).batches)
                ∙ f.content;
            total = f.total;
            short = f.short;
            room = omega (arith, pos, ap length f.empty);
          })
        (λ more. record {
          content = content;
          total = total;
          short = short;
          room = not_full batch_size (length q.pending_chunks) more;
        })

  add_pending-IsBatched :
      (batch_size : ℕ) (seen : List CodeChunk) (chunk : CodeChunk) (t : Text) (p : Progress)
      → 0 < batch_size
      → IsBatched batch_size seen p
      → (q : Progress) × (add_pending ix batch_size chunk (some t) p ≡ some q)
        × IsBatched batch_size (seen ++ chunk ∷ []) q
  add_pending-IsBatched batch_size seen chunk t p pos b =
      let q = record p {
        total_chunks = p.total_chunks + 1;
        pending_chunks = p.pending_chunks ++ (chunk, t) ∷ [];
      } in
      (
        (if leb batch_size (length q.pending_chunks) then process_chunk_batch ix q else q),
        refl,
        full_or_not batch_size (seen ++ chunk ∷ []) q pos
            (ap (λ cs. handed p.batches ++ cs)
                (map-append (λ c. c.0) p.pending_chunks ((chunk, t) ∷ []))
              ∙ sym (append_assoc (handed p.batches) (chunks p.pending_chunks) (chunk ∷ []))
              ∙ ap (λ cs. cs ++ chunk ∷ []) b.content)
            (omega (arith, b.total, length-append seen (chunk ∷ []))) b.short
            (omega (arith, b.room, length-append p.pending_chunks ((chunk, t) ∷ []))),
      )

  process_chunk-IsBatched :
      (max_chunk_size batch_size : ℕ) (seen : List CodeChunk) (chunk : CodeChunk) (p : Progress)
      → Embeds chunk
      → 0 < batch_size
      → IsBatched batch_size seen p
      → (q : Progress) × (process_chunk ix max_chunk_size batch_size chunk p ≡ some q)
        × IsBatched batch_size (seen ++ fitting max_chunk_size (chunk ∷ [])) q
  unfolding process_chunk keep_if
  process_chunk-IsBatched max_chunk_size batch_size seen chunk p (t, e) pos b =
      elim (Bool-cases (ltb max_chunk_size (bytes chunk.content))) [
        | inl large ↦
            rw large (p, refl, subst (λ s. IsBatched batch_size s p) (sym (append-nil seen)) b)
        | inr fits ↦ rw (fits, e) (add_pending-IsBatched batch_size seen chunk t p pos b)
      ]

  pub process_chunks-IsBatched :
      (max_chunk_size batch_size : ℕ) (cs seen : List CodeChunk) (p : Progress)
      → AllEmbed cs
      → 0 < batch_size
      → IsBatched batch_size seen p
      → (q : Progress) × (process_chunks ix max_chunk_size batch_size cs p ≡ some q)
        × IsBatched batch_size (seen ++ fitting max_chunk_size cs) q
  unfolding process_chunks keep_if
  process_chunks-IsBatched max_chunk_size batch_size [] seen p _ pos b =
      (p, refl, subst (λ s. IsBatched batch_size s p) (sym (append-nil seen)) b)
  process_chunks-IsBatched max_chunk_size batch_size (c ∷ cs) seen p (here, rest) pos b =
      let (q, e, b') = process_chunk-IsBatched max_chunk_size batch_size seen c p here pos b in
      let (r, e', b2) =
        process_chunks-IsBatched max_chunk_size batch_size cs
          (seen ++ fitting max_chunk_size (c ∷ [])) q rest pos b' in
      (
        r,
        rw e e',
        subst (λ s. IsBatched batch_size s r)
            (append_assoc seen (fitting max_chunk_size (c ∷ [])) (fitting max_chunk_size cs)
              ∙ ap (λ s. seen ++ s) (fitting-cons max_chunk_size c cs))
            b2,
      )

  pub nothing_parsed :
      (batch_size : ℕ) (seen : List CodeChunk) (p : Progress) (errors : List JobError)
      → IsBatched batch_size seen p
      → IsBatched batch_size (seen ++ []) (record p { errors = errors })
  nothing_parsed batch_size seen p errors b =
      subst (λ s. IsBatched batch_size s (record p { errors = errors })) (sym (append-nil seen))
        (record { content = b.content; total = b.total; short = b.short; room = b.room })
