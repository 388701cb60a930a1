-- ===== src/Transcripts/Calls/Final.antt =====
-- Streams with a terminal status over sequences of calls of backend/transcripts/stream.py.
use the_dashboard.Common.{
  ℕ, String, true, false, Option, some, List, [], ◌∷◌, ◌≡◌, refl, sym, ap, subst, ◌∙◌, arith,
  Bool-cases, Option-cases, inl, inr, nat_elem, if◌then◌else◌, get_row, put_row, get_row-key,
  get_row-put_row_ne, get_row-snoc_old, pure,
}
use native.Mathlib.Decide.{ℕ_discrete}
use the_dashboard.Transcripts.Tables.{
  pending, active, interrupted, StreamStatus, StreamType, StreamEvent, TranscriptStream, Store,
  append_chunk, next_chunk_index, chunk_numbers, append_event, save, same_status, get_by_key,
}
use the_dashboard.Transcripts.Stream
use the_dashboard.Transcripts.Stream.{
  require, move_to, insert_stream, create_new, clashes, new_stream, to_result, is_terminal,
}
use the_dashboard.Transcripts.Calls.Rows.{get_for_update-keeps, require-keeps}
use the_dashboard.Transcripts.Calls.{StreamCall, perform, serve}

abbrev pub stored : ℕ → Store → Option TranscriptStream
stored id s = get_row (λ r. r.id) id s.streams

live_fits :
    (a b : StreamStatus) → same_status a b ≡ true → is_terminal b ≡ false → is_terminal a ≡ false
live_fits a b h l = ground arith

-- Calls on tables that hold a stream with a terminal status.
module _ (k : ℕ) (v : TranscriptStream) (s : Store) (here : stored k s ≡ some v)
    (done : is_terminal v.status ≡ true) where
  -- The write of a row that is not terminal.
  save-live :
      (id : ℕ) (row row' : TranscriptStream)
      → stored id s ≡ some row
      → is_terminal row.status ≡ false
      → row'.id ≡ row.id
      → get_row (λ r. r.id) k (put_row (λ r. r.id) row' s.streams) ≡ some v
  save-live id row row' found live same = elim (ℕ_discrete row'.id k) [
    | no n ↦ get_row-put_row_ne (λ r. r.id) k row' s.streams n ∙ here
    | yes p ↦
        let own : row.id ≡ id = get_row-key (λ r. r.id) id s.streams row found in
        let e : id ≡ k = sym own ∙ sym same ∙ p in
        let f : stored k s ≡ some row = subst (λ i. stored i s ≡ some row) e found in
        let g : some row ≡ some v = sym f ∙ here in
        let r : row ≡ v = cc in
        let b : true ≡ false = sym done ∙ ap (λ x. is_terminal x.status) (sym r) ∙ live in cc
  ]

  move_to-live :
      (id : ℕ) (row row' : TranscriptStream) (body : StreamEvent)
      → stored id s ≡ some row
      → is_terminal row.status ≡ false
      → row'.id ≡ row.id
      → stored k (move_to row' body s).1 ≡ some v
  unfolding move_to save append_event
  move_to-live id row row' body found live same = save-live id row row' found live same

  unless_terminal-live :
      (id : ℕ) (row row' : TranscriptStream) (body : StreamEvent)
      → stored id s ≡ some row
      → row'.id ≡ row.id
      → stored k ((if is_terminal row.status then pure (to_result row) else move_to row' body) s).1
        ≡ some v
  unless_terminal-live id row row' body found same = elim (Bool-cases (is_terminal row.status)) [
    | inl t ↦ rw t here
    | inr live ↦ rw live (move_to-live id row row' body found live same)
  ]

  create-final :
      (id t : ℕ) (key : String) (provider model : Option String)
      → stored k (Stream.create id t key provider model s).1 ≡ some v
  unfolding Stream.create create_new insert_stream append_event
  create-final id t key provider model = elim (Option-cases (get_by_key key s)) [
    | inr (row, found) ↦ rw found here
    | inl free ↦ rw free (elim (Bool-cases (clashes (new_stream id t key provider model) s)) [
      | inl clash ↦ rw clash here
      | inr fine ↦
          rw fine
            (get_row-snoc_old (λ r. r.id) k s.streams (new_stream id t key provider model) v here)
    ])
  ]

  commit_chunk-final :
      (id : ℕ) (speaker text : String) (type : StreamType) (tokens : ℕ)
      → stored k (Stream.commit_chunk id speaker text type tokens s).1 ≡ some v
  unfolding Stream.commit_chunk append_chunk append_event save
  commit_chunk-final id speaker text type tokens =
      require-keeps id _ (λ s'. stored k s' ≡ some v) s here active
        (λ row found fits.
          let live = live_fits row.status active fits refl in
          let index = next_chunk_index row.transcript_id s in
          elim (Bool-cases (nat_elem index (chunk_numbers row.transcript_id s.chunks))) [
            | inl taken ↦ rw taken here
            | inr free ↦ rw free (save-live id row _ found live refl)
          ])

  perform-final : (c : StreamCall) → stored k (perform c s) ≡ some v
  unfolding perform Stream.start Stream.resume Stream.receive_partial Stream.cancel Stream.fail
      Stream.complete Stream.interrupt append_event save
  perform-final (StreamCall.create id t key provider model) = create-final id t key provider model
  perform-final (StreamCall.commit_chunk id speaker text type tokens) =
      commit_chunk-final id speaker text type tokens
  perform-final (StreamCall.start id now) =
      require-keeps id _ (λ s'. stored k s' ≡ some v) s here pending
        (λ row found fits.
          move_to-live id row _ _ found (live_fits row.status pending fits refl) refl)
  perform-final (StreamCall.resume id now) =
      require-keeps id _ (λ s'. stored k s' ≡ some v) s here interrupted
        (λ row found fits.
          move_to-live id row _ _ found (live_fits row.status interrupted fits refl) refl)
  perform-final (StreamCall.complete id input output now) =
      require-keeps id _ (λ s'. stored k s' ≡ some v) s here active
        (λ row found fits.
          move_to-live id row _ _ found (live_fits row.status active fits refl) refl)
  perform-final (StreamCall.interrupt id reason now) =
      require-keeps id _ (λ s'. stored k s' ≡ some v) s here active
        (λ row found fits.
          move_to-live id row _ _ found (live_fits row.status active fits refl) refl)
  perform-final (StreamCall.receive_partial id text) =
      require-keeps id _ (λ s'. stored k s' ≡ some v) s here active
        (λ row found fits. save-live id row _ found (live_fits row.status active fits refl) refl)
  perform-final (StreamCall.cancel id reason) =
      get_for_update-keeps id _ (λ s'. stored k s' ≡ some v) s here
        (λ row found. unless_terminal-live id row _ _ found refl)
  perform-final (StreamCall.fail id error) =
      get_for_update-keeps id _ (λ s'. stored k s' ≡ some v) s here
        (λ row found. unless_terminal-live id row _ _ found refl)

-- A stream that is completed, cancelled or failed keeps its row through every sequence of calls: its
-- status, its token counts and its cursor are final.
pub serve-final :
    (cs : List StreamCall) (k : ℕ) (v : TranscriptStream) (s : Store)
    → stored k s ≡ some v
    → is_terminal v.status ≡ true
    → stored k (serve cs s) ≡ some v
unfolding serve
serve-final [] k v s here done = here
serve-final (c ∷ cs) k v s here done =
    serve-final cs k v (perform c s) (perform-final k v s here done c) done
