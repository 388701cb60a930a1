-- ===== src/Transcripts/Reconstruction.antt =====
-- backend/transcripts/reconstruction.py: the text of a transcript from its chunks. The proofs are in
-- the modules below this one.
pub mod Order
pub mod Resumed
use Prim.Native.String.{◌++◌ as str_append}
use the_dashboard.Common.{
  ℕ, zero, suc, String, Bool, true, false, not, ◌&&◌, Option, none, some, List, [], ◌∷◌, ◌+◌, ◌==◌,
  leb, ltb, str_elem, select, map, take, length, get_row, if◌then◌else◌,
}
use the_dashboard.Transcripts.Tables.{TranscriptStream, TranscriptChunk, Store}

-- `ORDER BY chunk_index`; the index is unique in a transcript.
abbrev pub insert_chunk : TranscriptChunk → List TranscriptChunk → List TranscriptChunk
insert_chunk c [] = c ∷ []
insert_chunk c (d ∷ ds) =
    if leb c.chunk_index d.chunk_index then c ∷ d ∷ ds else d ∷ insert_chunk c ds

abbrev pub by_index : List TranscriptChunk → List TranscriptChunk
by_index [] = []
by_index (c ∷ cs) = insert_chunk c (by_index cs)

-- transcripts/contracts.py
pub record ReconstructionResult : Type 0 where
  pub transcript_id : ℕ
  pub full_text : String
  pub chunk_count : ℕ
  pub speakers : List String
  pub from_chunk_index : ℕ
  pub to_chunk_index : Option ℕ

abbrev pub then_texts : String → List String → String
then_texts text [] = text
then_texts text (t ∷ ts) = str_append text (str_append " " (then_texts t ts))

-- `" ".join(texts)`
abbrev pub join : List String → String
join [] = ""
join (t ∷ ts) = then_texts t ts

-- `list(dict.fromkeys(xs))`, when the texts `seen` came before
abbrev pub first_times : (seen : List String) → List String → List String
first_times seen [] = []
first_times seen (x ∷ xs) =
    let old = str_elem x seen in
    let rest = first_times (if old then seen else x ∷ seen) xs in if old then rest else x ∷ rest

abbrev pub last_index : List TranscriptChunk → Option ℕ
last_index [] = none
last_index (c ∷ cs) = elim (last_index cs) [ some i ↦ some i | none ↦ some c.chunk_index ]

-- `_build_result`
abbrev pub build_result :
    (transcript_id : ℕ) → List TranscriptChunk → (from_index : ℕ) → ReconstructionResult
build_result transcript_id chunks from_index = record {
  transcript_id = transcript_id;
  full_text = join (map (λ c. c.text) chunks);
  chunk_count = length chunks;
  speakers = first_times [] (map (λ c. c.speaker) chunks);
  from_chunk_index = from_index;
  to_chunk_index = last_index chunks;
}

abbrev pub chunks_of : (transcript_id : ℕ) → Store → List TranscriptChunk
chunks_of transcript_id s = by_index (select (λ c. c.transcript_id == transcript_id) s.chunks)

abbrev pub chunks_after : (transcript_id after_chunk_index : ℕ) → Store → List TranscriptChunk
chunks_after transcript_id after_chunk_index s = by_index (
    select (λ c. ltb after_chunk_index c.chunk_index)
      (select (λ c. c.transcript_id == transcript_id) s.chunks))

abbrev pub chunks_up_to : (transcript_id last_chunk_index : ℕ) → Store → List TranscriptChunk
chunks_up_to transcript_id last_chunk_index s = by_index (
    select (λ c. leb c.chunk_index last_chunk_index)
      (select (λ c. c.transcript_id == transcript_id) s.chunks))

-- `StreamReconstructor.reconstruct`
unfoldable pub reconstruct : (transcript_id : ℕ) → Store → ReconstructionResult
reconstruct transcript_id s = build_result transcript_id (chunks_of transcript_id s) 0

-- `LIMIT`, where 0 stands for none
abbrev pub limited : {A : Type 0} → ℕ → List A → List A
limited zero xs = xs
limited (suc n) xs = take (suc n) xs

-- `StreamReconstructor.reconstruct_from`, for an index from 0 on; the source takes any integer, and all
-- chunks come after a negative one.
unfoldable pub reconstruct_from :
    (transcript_id after_chunk_index limit : ℕ) → Store → ReconstructionResult
reconstruct_from transcript_id after_chunk_index limit s =
    build_result transcript_id (limited limit (chunks_after transcript_id after_chunk_index s))
      (after_chunk_index + 1)

abbrev up_to_cursor : (transcript_id : ℕ) → Option ℕ → Store → ReconstructionResult
up_to_cursor transcript_id none s = build_result transcript_id [] 0
up_to_cursor transcript_id (some index) s =
    build_result transcript_id (chunks_up_to transcript_id index s) 0

abbrev of_stream : (transcript_id : ℕ) → Option TranscriptStream → Store → ReconstructionResult
of_stream transcript_id none s = build_result transcript_id [] 0
of_stream transcript_id (some row) s = up_to_cursor transcript_id row.last_chunk_index s

-- `StreamReconstructor.reconstruct_stream`
unfoldable pub reconstruct_stream : (transcript_id stream_id : ℕ) → Store → ReconstructionResult
reconstruct_stream transcript_id stream_id s =
    of_stream transcript_id (get_row (λ r. r.id) stream_id s.streams) s
