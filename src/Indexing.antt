-- ===== src/Indexing.antt =====
-- `run_indexing_job` of crates/cca-daemon/src/indexing.rs, once the files are collected and the parser
-- is there. The parser, the embedding service and PostgreSQL are arguments; texts are lists of code
-- points.
pub mod Gathering
pub mod Batches
use cca.Common.{
  ℕ, zero, suc, ◌+◌, ◌-◌, ◌/◌, ◌%◌, Bool, true, false, List, [], ◌∷◌, ◌++◌, Option, none, some,
  codes, if◌then◌else◌, ltb, leb, ◌==◌, length, map,
}
use cca.Tokens.{Text, bytes}
use cca.Tokens.Lines.{newline}

pub record CodeChunk : Type 0 where
  pub file_path : Text
  -- `chunk_type.as_str()`.
  pub chunk_type : Text
  pub name : Text
  pub signature : Option Text
  pub content : Text

-- What went wrong; the texts of the errors are formatted from these.
pub data JobError : Type 0 where
  parse_failed : Text → JobError
  store_failed : Text → JobError
  embeddings_failed : JobError

-- `V` is an embedding. `parse_file` and `embed_batch` may fail, `upsert` says whether a chunk is
-- stored, `is_cancelled` whether the job is among the cancelled ones before the file of this number,
-- `update_progress` whether an update of the progress with these numbers succeeds, and `complete`
-- whether the job can be marked as complete.
pub record Indexer (V : Type 0) : Type 0 where
  pub parse_file : Text → Option (List CodeChunk)
  pub embed_batch : List Text → Option (List V)
  pub upsert : CodeChunk → V → Bool
  pub is_cancelled : ℕ → Bool
  pub update_progress : ℕ → ℕ → ℕ → ℕ → Bool
  pub complete : Bool → List JobError → Bool

-- The variables of the loop. `batches` are the batches that were handed to the embedding service, the
-- last one first.
pub record Progress : Type 0 where
  pub processed_files : ℕ
  pub total_chunks : ℕ
  pub indexed_chunks : ℕ
  pub pending_chunks : List (CodeChunk × Text)
  pub errors : List JobError
  pub batches : List (List CodeChunk)

-- How a job ends: complete, with whether it counts as a success; cancelled; with an error of
-- PostgreSQL; or with a panic.
pub data Outcome : Type 0 where
  completed : Bool → Progress → Outcome
  cancelled : Progress → Outcome
  database_failed : Progress → Outcome
  panicked : Outcome

-- The first bytes of a text, which has to have a character boundary there.
unfoldable pub slice_bytes : ℕ → Text → Option Text
unfolding bytes
slice_bytes zero t = some []
slice_bytes (suc n) [] = none
slice_bytes (suc n) (c ∷ cs) =
    let rest = slice_bytes (suc n - bytes (c ∷ [])) cs in
    if leb (bytes (c ∷ [])) (suc n) then elim rest [ none ↦ none | some r ↦ some (c ∷ r) ] else none

abbrev signature_text : Option Text → Text
signature_text none = []
signature_text (some s) = s ++ newline ∷ []

abbrev embedding_of : CodeChunk → Option Text → Option Text
embedding_of chunk none = none
embedding_of chunk (some content) = some (
    chunk.chunk_type
    ++ codes " "
    ++ chunk.name
    ++ codes ": "
    ++ signature_text chunk.signature
    ++ content)

-- `none` is the panic of a slice inside a character.
unfoldable pub create_embedding_text : CodeChunk → Option Text
unfolding bytes slice_bytes
create_embedding_text chunk =
    embedding_of chunk (
      if ltb 2000 (bytes chunk.content) then slice_bytes 2000 chunk.content else some chunk.content)

module _ {V : Type 0} (ix : Indexer V) where
  -- The chunks of a batch with their embeddings: how many are stored, and the errors of the others.
  unfoldable pub store_all : List (CodeChunk × Text) → List V → ℕ × List JobError
  store_all [] vs = (0, [])
  store_all (c ∷ cs) [] = (0, [])
  store_all (c ∷ cs) (v ∷ vs) =
      let (n, errors) = store_all cs vs in
      if ix.upsert c.0 v then (suc n, errors) else (n, store_failed c.0.name ∷ errors)

  abbrev stored : List (CodeChunk × Text) → Option (List V) → ℕ × List JobError
  stored pending none = (0, embeddings_failed ∷ [])
  stored pending (some vs) = store_all pending vs

  abbrev is_nil : List (CodeChunk × Text) → Bool
  is_nil [] = true
  is_nil (c ∷ cs) = false

  -- Whatever comes of it, the batch is gone.
  unfoldable pub process_chunk_batch : Progress → Progress
  unfolding store_all
  process_chunk_batch p =
      let (n, errors) =
        stored p.pending_chunks (ix.embed_batch (map (λ c. c.1) p.pending_chunks)) in
      if is_nil p.pending_chunks then p else record p {
        indexed_chunks = p.indexed_chunks + n;
        pending_chunks = [];
        errors = p.errors ++ errors;
        batches = map (λ c. c.0) p.pending_chunks ∷ p.batches;
      }

  abbrev add_pending : ℕ → CodeChunk → Option Text → Progress → Option Progress
  add_pending batch_size chunk none p = none
  add_pending batch_size chunk (some t) p =
      let q = record p {
        total_chunks = p.total_chunks + 1;
        pending_chunks = p.pending_chunks ++ (chunk, t) ∷ [];
      } in
      some (if leb batch_size (length q.pending_chunks) then process_chunk_batch q else q)

  unfoldable pub process_chunk : ℕ → ℕ → CodeChunk → Progress → Option Progress
  unfolding bytes create_embedding_text process_chunk_batch
  process_chunk max_chunk_size batch_size chunk p =
      if ltb max_chunk_size (bytes chunk.content)
      then some p
      else add_pending batch_size chunk (create_embedding_text chunk) p

  abbrev pub bind : Option Progress → (Progress → Option Progress) → Option Progress
  bind none f = none
  bind (some p) f = f p

  unfoldable pub process_chunks : ℕ → ℕ → List CodeChunk → Progress → Option Progress
  unfolding process_chunk
  process_chunks max_chunk_size batch_size [] p = some p
  process_chunks max_chunk_size batch_size (c ∷ cs) p =
      bind (process_chunk max_chunk_size batch_size c p)
        (process_chunks max_chunk_size batch_size cs)

  abbrev parsed_by : ℕ → ℕ → Text → Option (List CodeChunk) → Progress → Option Progress
  parsed_by max_chunk_size batch_size file none p =
      some (record p { errors = p.errors ++ parse_failed file ∷ [] })
  parsed_by max_chunk_size batch_size file (some chunks) p =
      process_chunks max_chunk_size batch_size chunks p

  -- One file, which counts as processed also where it does not parse.
  unfoldable pub process_file : ℕ → ℕ → Text → Progress → Option Progress
  unfolding process_chunks
  process_file max_chunk_size batch_size file p =
      bind (parsed_by max_chunk_size batch_size file (ix.parse_file file) p)
        (λ q. some (record q { processed_files = q.processed_files + 1 }))

  -- The final batch, update and mark.
  unfoldable pub finish : ℕ → Progress → Outcome
  unfolding process_chunk_batch
  finish total_files p =
      let q = process_chunk_batch p in
      let success = ltb (length q.errors) (total_files / 2) in
      if ix.update_progress total_files q.processed_files q.total_chunks q.indexed_chunks
      then (if ix.complete success q.errors then completed success q else database_failed q)
      else database_failed q

  abbrev pub continue_with : ℕ → Option Progress → (Progress → Outcome) → Outcome
  continue_with total_files none next = panicked
  continue_with total_files (some p) next =
      let rest = next p in
      if p.processed_files % 10 == 0
      then (if ix.update_progress total_files p.processed_files p.total_chunks p.indexed_chunks
          then rest
          else database_failed p)
      else rest

  unfoldable pub run_files : ℕ → ℕ → ℕ → List Text → Progress → Outcome
  unfolding process_file finish
  run_files total_files max_chunk_size batch_size [] p = finish total_files p
  run_files total_files max_chunk_size batch_size (file ∷ files) p =
      let next = run_files total_files max_chunk_size batch_size files in
      if ix.is_cancelled p.processed_files
      then cancelled p
      else continue_with total_files (process_file max_chunk_size batch_size file p) next

  abbrev pub no_progress : Progress
  no_progress = record {
    processed_files = 0;
    total_chunks = 0;
    indexed_chunks = 0;
    pending_chunks = [];
    errors = [];
    batches = [];
  }

  unfoldable pub run_indexing_job : ℕ → ℕ → List Text → Outcome
  unfolding run_files
  run_indexing_job max_chunk_size batch_size files =
      let total_files = length files in
      if ix.update_progress total_files 0 0 0
      then run_files total_files max_chunk_size batch_size files no_progress
      else database_failed no_progress
