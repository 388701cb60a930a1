-- ===== src/Transcripts/Tables.antt =====
-- The tables of the transcript streams (models/transcript_stream.py, transcript_chunk.py,
-- transcript_event.py) and the repositories over them (transcripts/repositories). A constructor of
-- `StreamEvent` is an event type with the payload that is written for it.
use Prim.Native.String.{[] as end_of_text, ◌∷◌ as char_then}
use the_dashboard.Common.{
  ℕ, suc, String, Bool, true, false, Option, List, [], ◌∷◌, ◌++◌, ◌==◌, leb, Exec, pure, gets,
  modify, raise_if, or_raise, ◌>>=◌, ◌>>◌, str_eq, select, map, nat_elem, find_by, get_row, put_row,
  if◌then◌else◌,
}

pub data StreamStatus : Type 0 where
  pending active completed interrupted cancelled failed : StreamStatus

-- `==` of the enumeration
abbrev pub same_status : StreamStatus → StreamStatus → Bool
same_status pending pending = true
same_status active active = true
same_status completed completed = true
same_status interrupted interrupted = true
same_status cancelled cancelled = true
same_status failed failed = true
same_status _ _ = false

pub data StreamType : Type 0 where
  agent user system mixed : StreamType

pub record TranscriptStream : Type 0 where
  pub id : ℕ
  pub transcript_id : ℕ
  pub stream_key : String
  pub status : StreamStatus
  pub provider : Option String
  pub model_name : Option String
  pub tokens_input : ℕ
  pub tokens_output : ℕ
  pub partial_text : Option String
  pub last_chunk_index : Option ℕ
  pub interruption_reason : Option String
  pub cancel_reason : Option String
  pub error : Option String
  pub started_at : Option ℕ
  pub completed_at : Option ℕ
  pub interrupted_at : Option ℕ

pub record TranscriptChunk : Type 0 where
  pub transcript_id : ℕ
  pub chunk_index : ℕ
  pub speaker : String
  pub text : String
  pub stream_type : StreamType

pub data StreamEvent : Type 0 where
  stream_created : (stream_key : String) (provider model_name : Option String) → StreamEvent
  stream_started : StreamEvent
  stream_partial_updated : (length : ℕ) → StreamEvent
  stream_chunk_committed :
      (chunk_index : ℕ) (speaker : String) → StreamType → (tokens_output : ℕ) → StreamEvent
  stream_completed : (tokens_input tokens_output : ℕ) → StreamEvent
  stream_interrupted : (reason : String) (last_chunk_index : Option ℕ) → StreamEvent
  stream_resumed : (resume_from_chunk_index : Option ℕ) → StreamEvent
  stream_cancelled : (reason : String) → StreamEvent
  stream_failed : (error : String) → StreamEvent

pub record TranscriptEvent : Type 0 where
  pub transcript_id : ℕ
  pub sequence : ℕ
  pub stream_id : ℕ
  pub body : StreamEvent

-- `transcripts` holds the identifiers of the transcripts that exist.
pub record Store : Type 0 where
  pub transcripts : List ℕ
  pub streams : List TranscriptStream
  pub chunks : List TranscriptChunk
  pub events : List TranscriptEvent

pub data StreamError : Type 0 where
  not_found : (stream_id : ℕ) → StreamError
  state_error : StreamStatus → StreamError
  integrity_error : StreamError

abbrev pub Session : Type 0 → Type 0
Session = Exec Store StreamError

-- `len(text)`: the number of its characters
unfoldable pub text_length : String → ℕ
text_length end_of_text = 0
text_length (char_then c s) = suc (text_length s)

-- `COALESCE(MAX(x) + 1, 0)`
abbrev pub next_number : List ℕ → ℕ
next_number [] = 0
next_number (x ∷ xs) = let rest = next_number xs in if leb (suc x) rest then rest else suc x

abbrev pub chunk_numbers : (transcript_id : ℕ) → List TranscriptChunk → List ℕ
chunk_numbers transcript_id chunks =
    map (λ c. c.chunk_index) (select (λ c. c.transcript_id == transcript_id) chunks)

abbrev pub event_numbers : (transcript_id : ℕ) → List TranscriptEvent → List ℕ
event_numbers transcript_id events =
    map (λ e. e.sequence) (select (λ e. e.transcript_id == transcript_id) events)

-- `TranscriptChunkRepository.next_chunk_index`
unfoldable pub next_chunk_index : (transcript_id : ℕ) → Store → ℕ
next_chunk_index transcript_id store = next_number (chunk_numbers transcript_id store.chunks)

-- `TranscriptChunkRepository.append` without a given index; the position is unique.
unfoldable pub append_chunk :
    (transcript_id : ℕ) (speaker text : String) → StreamType → Session TranscriptChunk
append_chunk transcript_id speaker text stream_type = do
  index ← gets (next_chunk_index transcript_id)
  taken ← gets (λ s. nat_elem index (chunk_numbers transcript_id s.chunks))
  raise_if taken integrity_error
  let chunk : TranscriptChunk = record {
    transcript_id = transcript_id;
    chunk_index = index;
    speaker = speaker;
    text = text;
    stream_type = stream_type;
  }
  modify (λ s. record s { chunks = s.chunks ++ chunk ∷ [] })
  pure chunk

-- `TranscriptEventRepository.next_sequence`
unfoldable pub next_sequence : (transcript_id : ℕ) → Store → ℕ
next_sequence transcript_id store = next_number (event_numbers transcript_id store.events)

-- `TranscriptEventRepository.append_event`, with the `stream_id` that `_emit` adds
unfoldable pub append_event : (transcript_id stream_id : ℕ) → StreamEvent → Session (Unit {0})
append_event transcript_id stream_id body = do
  sequence ← gets (next_sequence transcript_id)
  modify (λ s. record s {
    events =
        s.events
        ++ record {
          transcript_id = transcript_id;
          sequence = sequence;
          stream_id = stream_id;
          body = body;
        }
          ∷ [];
  })

-- `TranscriptStreamRepository.get_by_key`
unfoldable pub get_by_key : String → Store → Option TranscriptStream
get_by_key stream_key store = find_by (λ r. str_eq r.stream_key stream_key) store.streams

-- `TranscriptStreamRepository.get_for_update_or_raise`
unfoldable pub get_for_update_or_raise : (stream_id : ℕ) → Session TranscriptStream
get_for_update_or_raise stream_id = do
  found ← gets (λ s. get_row (λ r. r.id) stream_id s.streams)
  or_raise found (not_found stream_id)

-- The flush of a changed stream.
unfoldable pub save : TranscriptStream → Session (Unit {0})
save row = modify (λ s. record s { streams = put_row (λ r. r.id) row s.streams })
