-- ===== src/Transcripts/Stream.antt =====
-- backend/transcripts/stream.py: the life of a streaming session. `now` is the time that a method
-- reads.
use the_dashboard.Common.{
  ℕ, String, Bool, not, ◌||◌, Option, none, some, [], ◌∷◌, ◌++◌, ◌+◌, ◌==◌, pure, gets, modify,
  raise_if, ◌>>=◌, ◌>>◌, str_eq, any_of, nat_elem, if◌then◌else◌,
}
use the_dashboard.Transcripts.Tables.{
  StreamStatus, pending, active, completed, interrupted, cancelled, failed, same_status, StreamType,
  TranscriptStream, stream_created, stream_started, stream_partial_updated, stream_chunk_committed,
  stream_completed, stream_interrupted, stream_resumed, stream_cancelled, stream_failed,
  StreamEvent, Store, state_error, integrity_error, Session, text_length, append_chunk,
  append_event, get_by_key, get_for_update_or_raise, save,
}

-- `_TERMINAL`
abbrev pub is_terminal : StreamStatus → Bool
is_terminal status = any_of (same_status status) (cancelled ∷ failed ∷ completed ∷ [])

-- transcripts/contracts.py
pub record StreamResult : Type 0 where
  pub stream_id : ℕ
  pub transcript_id : ℕ
  pub stream_key : String
  pub status : StreamStatus
  pub last_chunk_index : Option ℕ
  pub tokens_input : ℕ
  pub tokens_output : ℕ

pub record StreamChunkResult : Type 0 where
  pub stream_id : ℕ
  pub chunk_index : ℕ
  pub tokens_output_cumulative : ℕ

-- `_to_result`
abbrev pub to_result : TranscriptStream → StreamResult
to_result row = record {
  stream_id = row.id;
  transcript_id = row.transcript_id;
  stream_key = row.stream_key;
  status = row.status;
  last_chunk_index = row.last_chunk_index;
  tokens_input = row.tokens_input;
  tokens_output = row.tokens_output;
}

-- `text or None`
abbrev pub unless_empty : String → Option String
unless_empty text = if str_eq text "" then none else some text

-- What the database refuses to insert: the identifier is a primary key, the key is unique, and the
-- transcript exists.
abbrev pub clashes : TranscriptStream → Store → Bool
clashes row s =
    any_of (λ r. r.id == row.id || str_eq r.stream_key row.stream_key) s.streams
    || not (nat_elem row.transcript_id s.transcripts)

unfoldable pub insert_stream : TranscriptStream → Session (Unit {0})
insert_stream row = do
  clash ← gets (clashes row)
  raise_if clash integrity_error
  modify (λ s. record s { streams = s.streams ++ row ∷ [] })

-- The row of a new stream.
abbrev pub new_stream :
    (stream_id transcript_id : ℕ) (stream_key : String) (provider model_name : Option String)
    → TranscriptStream
new_stream stream_id transcript_id stream_key provider model_name = record {
  id = stream_id;
  transcript_id = transcript_id;
  stream_key = stream_key;
  status = pending;
  provider = provider;
  model_name = model_name;
  tokens_input = 0;
  tokens_output = 0;
  partial_text = none;
  last_chunk_index = none;
  interruption_reason = none;
  cancel_reason = none;
  error = none;
  started_at = none;
  completed_at = none;
  interrupted_at = none;
}

-- What `create` does when the key is not known.
unfoldable pub create_new :
    (stream_id transcript_id : ℕ) (stream_key : String) (provider model_name : Option String)
    → Session StreamResult
create_new stream_id transcript_id stream_key provider model_name = do
  let row : TranscriptStream = new_stream stream_id transcript_id stream_key provider model_name
  insert_stream row
  append_event transcript_id stream_id (stream_created stream_key provider model_name)
  pure (to_result row)

abbrev pub or_create : Option TranscriptStream → Session StreamResult → Session StreamResult
or_create none make = make
or_create (some existing) make = pure (to_result existing)

-- `TranscriptStreamRuntime.create`; `stream_id` is the identifier that it draws.
unfoldable pub create :
    (stream_id transcript_id : ℕ) (stream_key : String) (provider model_name : Option String)
    → Session StreamResult
create stream_id transcript_id stream_key provider model_name = do
  existing ← gets (get_by_key stream_key)
  or_create existing (create_new stream_id transcript_id stream_key provider model_name)

-- The write of a changed row, its event, and the result.
unfoldable pub move_to : TranscriptStream → StreamEvent → Session StreamResult
move_to row body = do save row; append_event row.transcript_id row.id body; pure (to_result row)

-- The row of a stream that must have a status.
unfoldable pub require : (stream_id : ℕ) → StreamStatus → Session TranscriptStream
require stream_id status = do
  row ← get_for_update_or_raise stream_id
  raise_if (not (same_status row.status status)) (state_error row.status)
  pure row

-- `TranscriptStreamRuntime.start`
unfoldable pub start : (stream_id now : ℕ) → Session StreamResult
start stream_id now = do
  row ← require stream_id pending
  move_to (record row { status = active; started_at = some now }) stream_started

-- `TranscriptStreamRuntime.receive_partial`
unfoldable pub receive_partial : (stream_id : ℕ) (text : String) → Session (Unit {0})
receive_partial stream_id text = do
  row ← require stream_id active
  save (record row { partial_text = some text })
  append_event row.transcript_id stream_id (stream_partial_updated (text_length text))

-- `TranscriptStreamRuntime.commit_chunk`
unfoldable pub commit_chunk :
    (stream_id : ℕ) (speaker text : String)
    → StreamType
    → (tokens_output : ℕ) → Session StreamChunkResult
commit_chunk stream_id speaker text stream_type tokens_output = do
  row ← require stream_id active
  chunk ← append_chunk row.transcript_id speaker text stream_type
  let moved : TranscriptStream = record row {
    last_chunk_index = some chunk.chunk_index;
    partial_text = none;
    tokens_output = row.tokens_output + tokens_output;
  }
  save moved
  append_event row.transcript_id stream_id
      (stream_chunk_committed chunk.chunk_index speaker stream_type tokens_output)
  pure (record {
    stream_id = stream_id;
    chunk_index = chunk.chunk_index;
    tokens_output_cumulative = moved.tokens_output;
  })

-- `TranscriptStreamRuntime.complete`
unfoldable pub complete : (stream_id tokens_input tokens_output now : ℕ) → Session StreamResult
complete stream_id tokens_input tokens_output now = do
  row ← require stream_id active
  move_to
      (record row {
        status = completed;
        completed_at = some now;
        partial_text = none;
        tokens_input = tokens_input;
        tokens_output = row.tokens_output + tokens_output;
      })
      (stream_completed tokens_input (row.tokens_output + tokens_output))

-- `TranscriptStreamRuntime.interrupt`
unfoldable pub interrupt : (stream_id : ℕ) (reason : String) (now : ℕ) → Session StreamResult
interrupt stream_id reason now = do
  row ← require stream_id active
  move_to
      (record row {
        status = interrupted;
        interrupted_at = some now;
        interruption_reason = unless_empty reason;
        partial_text = none;
      })
      (stream_interrupted reason row.last_chunk_index)

-- `TranscriptStreamRuntime.resume`
unfoldable pub resume : (stream_id now : ℕ) → Session StreamResult
resume stream_id now = do
  row ← require stream_id interrupted
  move_to (record row { status = active; started_at = some now })
      (stream_resumed row.last_chunk_index)

-- `TranscriptStreamRuntime.cancel`
unfoldable pub cancel : (stream_id : ℕ) (reason : String) → Session StreamResult
cancel stream_id reason = do
  row ← get_for_update_or_raise stream_id
  if is_terminal row.status
      then pure (to_result row)
      else move_to
          (record row {
            status = cancelled;
            cancel_reason = unless_empty reason;
            partial_text = none;
          })
          (stream_cancelled reason)

-- `TranscriptStreamRuntime.fail`
unfoldable pub fail : (stream_id : ℕ) (error : String) → Session StreamResult
fail stream_id error = do
  row ← get_for_update_or_raise stream_id
  if is_terminal row.status
      then pure (to_result row)
      else move_to (record row { status = failed; error = some error; partial_text = none })
          (stream_failed error)
