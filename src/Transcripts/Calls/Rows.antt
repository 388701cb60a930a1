-- ===== src/Transcripts/Calls/Rows.antt =====
-- What a method of backend/transcripts/stream.py does with the row that it asks for.
use the_dashboard.Common.{ℕ, true, some, ◌≡◌, Bool-cases, Option-cases, inl, inr, get_row, ◌>>=◌}
use the_dashboard.Transcripts.Tables.{
  StreamStatus, TranscriptStream, Store, Session, get_for_update_or_raise, same_status,
}
use the_dashboard.Transcripts.Stream.{require}

module _ {B : Type 0} (id : ℕ) (f : TranscriptStream → Session B) (P : Store → Type 0) (s : Store)
    (same : P s) where
  pub get_for_update-keeps :
      ((row : TranscriptStream) → get_row (λ r. r.id) id s.streams ≡ some row → P (f row s).1)
      → P ((get_for_update_or_raise id >>= f) s).1
  unfolding get_for_update_or_raise
  get_for_update-keeps h = elim (Option-cases (get_row (λ r. r.id) id s.streams)) [
    | inl missing ↦ rw missing same
    | inr (row, found) ↦ rw found (h row found)
  ]

  pub require-keeps :
      (status : StreamStatus)
      → ((row : TranscriptStream)
          → get_row (λ r. r.id) id s.streams ≡ some row
          → same_status row.status status ≡ true
          → P (f row s).1)
      → P ((require id status >>= f) s).1
  unfolding require get_for_update_or_raise
  require-keeps status h = elim (Option-cases (get_row (λ r. r.id) id s.streams)) [
    | inl missing ↦ rw missing same
    | inr (row, found) ↦ rw found (elim (Bool-cases (same_status row.status status)) [
      | inl fits ↦ rw fits (h row found fits)
      | inr off ↦ rw off same
    ])
  ]
