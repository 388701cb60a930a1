-- ===== src/Tests/Transcripts.antt =====
-- Runs of the transcript models (backend/transcripts) on concrete tables.
use the_dashboard.Common.{none, some, List, [], ◌∷◌, ◌++◌, ◌==◌, ◌≡◌, refl, length, select}
use the_dashboard.Transcripts.Tables.{
  agent, user, completed, active, TranscriptStream, chunk_numbers, event_numbers, get_by_key,
  get_for_update_or_raise, save, append_chunk, append_event, next_chunk_index,
}
use the_dashboard.Transcripts.Stream
use the_dashboard.Transcripts.Stream.{new_stream}
use the_dashboard.Transcripts.Numbers.{upto}
use the_dashboard.Transcripts.Calls.{StreamCall, perform, serve}
use the_dashboard.Transcripts.Calls.Numbering.{no_streams, serve-numbers}
use the_dashboard.Transcripts.Calls.Final.{stored, serve-final}
use the_dashboard.Transcripts.Reconstruction.{
  build_result, chunks_after, chunks_up_to, reconstruct, reconstruct_from, reconstruct_stream,
}
use the_dashboard.Transcripts.Reconstruction.Order.{reconstruct-serve}
use the_dashboard.Transcripts.Reconstruction.Resumed.{IsResumed, reconstruct-IsResumed}

abbrev session : List StreamCall
session =
    StreamCall.create 1 8 "call-8" none none
    ∷ StreamCall.start 1 10
    ∷ StreamCall.commit_chunk 1 "Ann" "hello" agent 4
    ∷ StreamCall.interrupt 1 "lost" 20
    ∷ StreamCall.commit_chunk 1 "Ann" "dropped" agent 4
    ∷ StreamCall.resume 1 30
    ∷ StreamCall.commit_chunk 1 "Bob" "hi" user 2
    ∷ []

abbrev row : TranscriptStream
row = record (new_stream 1 8 "call-8" none none) {
  status = active;
  tokens_output = 6;
  last_chunk_index = some 1;
  interruption_reason = some "lost";
  started_at = some 30;
  interrupted_at = some 20;
}

row_after_session : stored 1 (serve session (no_streams (8 ∷ []))) ≡ some row
unfolding serve perform Stream.create Stream.commit_chunk Stream.require get_for_update_or_raise
    Stream.resume Stream.interrupt Stream.start get_by_key Stream.create_new Stream.insert_stream
    append_event Stream.move_to save append_chunk next_chunk_index
row_after_session = refl

text_after_session : (reconstruct 8 (serve session (no_streams (8 ∷ [])))).full_text ≡ "hello hi"
unfolding reconstruct serve perform Stream.create Stream.commit_chunk Stream.require
    get_for_update_or_raise Stream.resume Stream.interrupt Stream.start get_by_key Stream.create_new
    Stream.insert_stream append_event Stream.move_to save append_chunk next_chunk_index
text_after_session = refl

serve-numbers_example :
    let s = serve session (no_streams (8 ∷ [])) in
    (chunk_numbers 8 s.chunks ≡ upto (length (chunk_numbers 8 s.chunks)))
    × (event_numbers 8 s.events ≡ upto (length (event_numbers 8 s.events)))
serve-numbers_example = serve-numbers (8 ∷ []) session 8

abbrev done_row : TranscriptStream
done_row = record row { status = completed }

serve-final_example :
    stored 1 (serve session (record (no_streams (8 ∷ [])) { streams = done_row ∷ [] }))
    ≡ some done_row
serve-final_example =
    serve-final session 1 done_row (record (no_streams (8 ∷ [])) { streams = done_row ∷ [] }) refl
      refl

reconstruct-serve_example :
    let s = serve session (no_streams (8 ∷ [])) in
    (reconstruct 8 s ≡ build_result 8 (select (λ c. c.transcript_id == 8) s.chunks) 0)
    × (chunks_up_to 8 0 s ++ chunks_after 8 0 s ≡ select (λ c. c.transcript_id == 8) s.chunks)
reconstruct-serve_example = reconstruct-serve (8 ∷ []) session 8 0

abbrev two_streams : List StreamCall
two_streams =
    session
    ++ StreamCall.create 2 8 "call-9" none none
      ∷ StreamCall.start 2 40
      ∷ StreamCall.commit_chunk 2 "Ann" "bye" agent 1
      ∷ []

row_after_two : stored 1 (serve two_streams (no_streams (8 ∷ []))) ≡ some row
unfolding serve perform Stream.create Stream.commit_chunk Stream.require get_for_update_or_raise
    Stream.resume Stream.interrupt Stream.start get_by_key Stream.create_new Stream.insert_stream
    append_event Stream.move_to save append_chunk next_chunk_index
row_after_two = refl

tail_after_two :
    (reconstruct_from 8 1 0 (serve two_streams (no_streams (8 ∷ [])))).full_text ≡ "bye"
unfolding reconstruct_from serve perform Stream.create Stream.commit_chunk Stream.require
    get_for_update_or_raise Stream.resume Stream.interrupt Stream.start get_by_key Stream.create_new
    Stream.insert_stream append_event Stream.move_to save append_chunk next_chunk_index
tail_after_two = refl

reconstruct-IsResumed_example :
    let s = serve two_streams (no_streams (8 ∷ [])) in
    IsResumed 8 1
      (select (λ c. c.transcript_id == 8) s.chunks)
      (reconstruct_stream 8 1 s)
      (reconstruct_from 8 1 0 s)
      (reconstruct 8 s)
reconstruct-IsResumed_example =
    reconstruct-IsResumed (8 ∷ []) two_streams 8 1 1 row row_after_two refl
