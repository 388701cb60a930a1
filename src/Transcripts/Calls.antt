-- ===== src/Transcripts/Calls.antt =====
-- Sequences of calls of the stream runtime. The proofs are in the modules below this one.
pub mod Rows
pub mod Numbering
pub mod Final
use the_dashboard.Common.{ℕ, String, Option, List, [], ◌∷◌}
use the_dashboard.Transcripts.Tables.{StreamType, Store}
use the_dashboard.Transcripts.Stream

pub data StreamCall : Type 0 where
  create :
      (stream_id transcript_id : ℕ) (stream_key : String) (provider model_name : Option String)
      → StreamCall
  start resume : (stream_id now : ℕ) → StreamCall
  receive_partial cancel fail : (stream_id : ℕ) (text : String) → StreamCall
  commit_chunk :
      (stream_id : ℕ) (speaker text : String) → StreamType → (tokens_output : ℕ) → StreamCall
  complete : (stream_id tokens_input tokens_output now : ℕ) → StreamCall
  interrupt : (stream_id : ℕ) (reason : String) (now : ℕ) → StreamCall

-- The tables after a call.
unfoldable pub perform : StreamCall → Store → Store
perform (StreamCall.create id t key provider model) s = (Stream.create id t key provider model s).1
perform (StreamCall.start id now) s = (Stream.start id now s).1
perform (StreamCall.resume id now) s = (Stream.resume id now s).1
perform (StreamCall.receive_partial id text) s = (Stream.receive_partial id text s).1
perform (StreamCall.cancel id text) s = (Stream.cancel id text s).1
perform (StreamCall.fail id text) s = (Stream.fail id text s).1
perform (StreamCall.commit_chunk id speaker text type tokens) s =
    (Stream.commit_chunk id speaker text type tokens s).1
perform (StreamCall.complete id input output now) s = (Stream.complete id input output now s).1
perform (StreamCall.interrupt id reason now) s = (Stream.interrupt id reason now s).1

unfoldable pub serve : List StreamCall → Store → Store
serve [] s = s
serve (c ∷ cs) s = serve cs (perform c s)
