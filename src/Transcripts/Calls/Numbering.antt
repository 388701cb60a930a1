-- ===== src/Transcripts/Calls/Numbering.antt =====
-- The numbers of chunks and events over sequences of calls of backend/transcripts/stream.py.
use the_dashboard.Common.{
  ℕ, String, false, Option, List, [], ◌∷◌, ◌++◌, ◌≡◌, refl, ap, ◌∙◌, arith, Bool-cases,
  Option-cases, inl, inr, returned, length, nat_elem, if◌then◌else◌, pure,
}
use the_dashboard.Transcripts.Tables.{
  pending, active, interrupted, StreamType, StreamEvent, TranscriptStream, TranscriptChunk, Store,
  next_number, chunk_numbers, event_numbers, next_chunk_index, next_sequence, append_chunk,
  append_event, save, get_by_key,
}
use the_dashboard.Transcripts.Stream
use the_dashboard.Transcripts.Stream.{
  require, move_to, insert_stream, create_new, clashes, new_stream, to_result, is_terminal,
}
use the_dashboard.Transcripts.Numbers.{
  upto, AllNumbered, next_number-upto, nat_elem-upto, snoc-AllNumbered,
}
use the_dashboard.Transcripts.Calls.Rows.{get_for_update-keeps, require-keeps}
use the_dashboard.Transcripts.Calls.{StreamCall, perform, serve}

pub record IsNumbered (s : Store) : Type 0 where
  pub chunks : AllNumbered (λ c. c.transcript_id) (λ c. c.chunk_index) s.chunks
  pub events : AllNumbered (λ e. e.transcript_id) (λ e. e.sequence) s.events

append_event-IsNumbered :
    (t id : ℕ) (body : StreamEvent) (s : Store)
    → IsNumbered s
    → IsNumbered (append_event t id body s).1
unfolding append_event next_sequence
append_event-IsNumbered t id body s n = record {
  chunks = n.chunks;
  events = snoc-AllNumbered (λ e. e.transcript_id) (λ e. e.sequence) s.events _ n.events refl;
}

save-IsNumbered : (row : TranscriptStream) (s : Store) → IsNumbered s → IsNumbered (save row s).1
unfolding save
save-IsNumbered row s n = record { chunks = n.chunks; events = n.events }

move_to-IsNumbered :
    (row : TranscriptStream) (body : StreamEvent) (s : Store)
    → IsNumbered s
    → IsNumbered (move_to row body s).1
unfolding move_to save append_event
move_to-IsNumbered row body s n =
    append_event-IsNumbered row.transcript_id row.id body (save row s).1 (save-IsNumbered row s n)

abbrev new_chunk : (t : ℕ) (speaker text : String) → StreamType → Store → TranscriptChunk
new_chunk t speaker text type s = record {
  transcript_id = t;
  chunk_index = next_number (chunk_numbers t s.chunks);
  speaker = speaker;
  text = text;
  stream_type = type;
}

append_chunk-new :
    (t : ℕ) (speaker text : String) (type : StreamType) (s : Store)
    → IsNumbered s
    → append_chunk t speaker text type s ≡ (
      returned (new_chunk t speaker text type s),
      record s { chunks = s.chunks ++ new_chunk t speaker text type s ∷ [] },
    )
unfolding append_chunk next_chunk_index
append_chunk-new t speaker text type s n =
    let ns = chunk_numbers t s.chunks in
    let e : ns ≡ upto (length ns) = n.chunks t in
    let next : next_number ns ≡ length ns = ap next_number e ∙ next_number-upto (length ns) in
    let free : nat_elem (next_number ns) ns ≡ false =
      ap (nat_elem (next_number ns)) e
      ∙ nat_elem-upto (next_number ns) (length ns) (omega (arith, next)) in
    rw free refl

module _ (s : Store) (n : IsNumbered s) where
  create-IsNumbered :
      (id t : ℕ) (key : String) (provider model : Option String)
      → IsNumbered (Stream.create id t key provider model s).1
  unfolding Stream.create create_new insert_stream append_event
  create-IsNumbered id t key provider model = elim (Option-cases (get_by_key key s)) [
    | inr (row, found) ↦ rw found n
    | inl free ↦ rw free (elim (Bool-cases (clashes (new_stream id t key provider model) s)) [
      | inl clash ↦ rw clash n
      | inr fine ↦
          let row = new_stream id t key provider model in
          let s' : Store = record s { streams = s.streams ++ row ∷ [] } in
          let n' : IsNumbered s' = record { chunks = n.chunks; events = n.events } in
          rw fine (append_event-IsNumbered t id _ s' n')
    ])
  ]

  commit_chunk-IsNumbered :
      (id : ℕ) (speaker text : String) (type : StreamType) (tokens : ℕ)
      → IsNumbered (Stream.commit_chunk id speaker text type tokens s).1
  unfolding Stream.commit_chunk append_event save
  commit_chunk-IsNumbered id speaker text type tokens =
      require-keeps id _ IsNumbered s n active (λ row found fits.
        let chunk = new_chunk row.transcript_id speaker text type s in
        let s' : Store = record s { chunks = s.chunks ++ chunk ∷ [] } in
        let n' : IsNumbered s' = record {
          chunks =
              snoc-AllNumbered (λ c. c.transcript_id) (λ c. c.chunk_index) s.chunks chunk n.chunks
                refl;
          events = n.events;
        } in
        rw (append_chunk-new row.transcript_id speaker text type s n)
          (append_event-IsNumbered row.transcript_id id _ _ (save-IsNumbered _ s' n')))

  unless_terminal-IsNumbered :
      (row row' : TranscriptStream) (body : StreamEvent)
      → IsNumbered
          ((if is_terminal row.status then pure (to_result row) else move_to row' body) s).1
  unless_terminal-IsNumbered row row' body = elim (Bool-cases (is_terminal row.status)) [
    | inl done ↦ rw done n
    | inr live ↦ rw live (move_to-IsNumbered row' body s n)
  ]

  perform-IsNumbered : (c : StreamCall) → IsNumbered (perform c s)
  unfolding perform Stream.start Stream.resume Stream.receive_partial Stream.cancel Stream.fail
      Stream.complete Stream.interrupt append_event save
  perform-IsNumbered (StreamCall.create id t key provider model) =
      create-IsNumbered id t key provider model
  perform-IsNumbered (StreamCall.commit_chunk id speaker text type tokens) =
      commit_chunk-IsNumbered id speaker text type tokens
  perform-IsNumbered (StreamCall.start id now) =
      require-keeps id _ IsNumbered s n pending (λ row found fits. move_to-IsNumbered _ _ s n)
  perform-IsNumbered (StreamCall.resume id now) =
      require-keeps id _ IsNumbered s n interrupted (λ row found fits. move_to-IsNumbered _ _ s n)
  perform-IsNumbered (StreamCall.complete id input output now) =
      require-keeps id _ IsNumbered s n active (λ row found fits. move_to-IsNumbered _ _ s n)
  perform-IsNumbered (StreamCall.interrupt id reason now) =
      require-keeps id _ IsNumbered s n active (λ row found fits. move_to-IsNumbered _ _ s n)
  perform-IsNumbered (StreamCall.receive_partial id text) =
      require-keeps id _ IsNumbered s n active
        (λ row found fits. append_event-IsNumbered _ _ _ _ (save-IsNumbered _ s n))
  perform-IsNumbered (StreamCall.cancel id reason) =
      get_for_update-keeps id _ IsNumbered s n (λ row found. unless_terminal-IsNumbered row _ _)
  perform-IsNumbered (StreamCall.fail id error) =
      get_for_update-keeps id _ IsNumbered s n (λ row found. unless_terminal-IsNumbered row _ _)

serve-IsNumbered : (cs : List StreamCall) (s : Store) → IsNumbered s → IsNumbered (serve cs s)
unfolding serve
serve-IsNumbered [] s n = n
serve-IsNumbered (c ∷ cs) s n = serve-IsNumbered cs (perform c s) (perform-IsNumbered s n c)

abbrev pub no_streams : (transcripts : List ℕ) → Store
no_streams transcripts = record {
  transcripts = transcripts;
  streams = [];
  chunks = [];
  events = [];
}

-- Whatever calls are made on tables without streams: the chunks of every transcript are numbered
-- 0, 1, 2, … in the order in which they were committed, by whichever streams, and so are its events.
pub serve-numbers :
    (transcripts : List ℕ) (cs : List StreamCall) (t : ℕ)
    → let s = serve cs (no_streams transcripts) in
      (chunk_numbers t s.chunks ≡ upto (length (chunk_numbers t s.chunks)))
      × (event_numbers t s.events ≡ upto (length (event_numbers t s.events)))
serve-numbers transcripts cs t =
    let n =
      serve-IsNumbered cs (no_streams transcripts)
        (record { chunks = λ i. refl; events = λ i. refl }) in
    (n.chunks t, n.events t)
