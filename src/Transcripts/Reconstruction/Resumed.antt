-- ===== src/Transcripts/Reconstruction/Resumed.antt =====
-- The cursor of a stream and the two queries of backend/transcripts/reconstruction.py around it.
use Prim.Native.String.{◌++◌ as str_append}
use text.Mathlib.TextLemmas.{append_assoc}
use the_dashboard.Common.{
  ℕ, zero, suc, String, Bool, true, false, some, List, [], ◌∷◌, ◌++◌, ◌+◌, ◌==◌, ◌≡◌, refl, sym, ap,
  ◌∙◌, arith, leb, ltb, any_of, select, map, append-nil, get_row, Bool-cases, inl, inr,
}
use the_dashboard.Transcripts.Tables.{TranscriptStream, TranscriptChunk}
use the_dashboard.Transcripts.Numbers.{upto, map-append}
use the_dashboard.Transcripts.Calls.{StreamCall, serve}
use the_dashboard.Transcripts.Calls.Numbering.{no_streams, serve-numbers}
use the_dashboard.Transcripts.Reconstruction.{
  ReconstructionResult, then_texts, build_result, chunks_after, chunks_up_to, reconstruct,
  reconstruct_from, reconstruct_stream,
}
use the_dashboard.Transcripts.Reconstruction.Order.{length-map, reconstruct-serve, chunks-serve}

-- The texts of two lists of chunks, by their lengths: `" ".join` puts a blank between the two where
-- neither list is empty.
abbrev pub spaced : (count rest_count : ℕ) (text rest : String) → String
spaced zero m text rest = rest
spaced (suc n) zero text rest = text
spaced (suc n) (suc m) text rest = str_append text (str_append " " rest)

-- The text of one result and then that of the other.
abbrev pub continued : (before rest : ReconstructionResult) → String
continued before rest = spaced before.chunk_count rest.chunk_count before.full_text rest.full_text

then_texts-append :
    (x : String) (xs : List String) (y : String) (ys : List String)
    → then_texts x (xs ++ y ∷ ys) ≡ str_append (then_texts x xs) (str_append " " (then_texts y ys))
then_texts-append x [] y ys = refl
then_texts-append x (z ∷ xs) y ys =
    let more = str_append " " (then_texts y ys) in
    ap (λ r. str_append x (str_append " " r)) (then_texts-append z xs y ys)
    ∙ ap (str_append x) (sym (append_assoc " " (then_texts z xs) more))
    ∙ sym (append_assoc x (str_append " " (then_texts z xs)) more)

-- The text of the chunks of both.
text-append :
    (t i j : ℕ) (early late : List TranscriptChunk)
    → (build_result t (early ++ late) 0).full_text
      ≡ continued (build_result t early i) (build_result t late j)
text-append t i j [] late = refl
text-append t i j (c ∷ early) [] =
    ap (λ cs. (build_result t cs 0).full_text) (append-nil (c ∷ early))
text-append t i j (c ∷ early) (d ∷ late) =
    ap (then_texts c.text) (map-append (λ c. c.text) early (d ∷ late))
    ∙ then_texts-append c.text (map (λ c. c.text) early) d.text (map (λ c. c.text) late)

any_of-select {ℓ} :
    {A : Type ℓ} (out test : A → Bool) (xs : List A)
    → ((x : A) → test x ≡ true → out x ≡ false)
    → any_of out (select test xs) ≡ false
any_of-select out test [] h = refl
any_of-select out test (x ∷ xs) h = elim (Bool-cases (test x)) [
  | inl t ↦ let f = h x t in rw t (rw f (any_of-select out test xs h))
  | inr f ↦ rw f (any_of-select out test xs h)
]

-- What was shown up to an index and what is read after it are the two parts of the whole.
pub record IsResumed (t k : ℕ) (chunks : List TranscriptChunk)
    (before rest whole : ReconstructionResult) : Type 0 where
  pub early : List TranscriptChunk
  pub late : List TranscriptChunk
  pub parted : early ++ late ≡ chunks
  pub once : map (λ c. c.chunk_index) (early ++ late) ≡ upto whole.chunk_count
  pub none_beyond : any_of (λ c. ltb k c.chunk_index) early ≡ false
  pub none_before : any_of (λ c. leb c.chunk_index k) late ≡ false
  pub early_built : before ≡ build_result t early 0
  pub late_built : rest ≡ build_result t late (k + 1)
  pub text : whole.full_text ≡ continued before rest

-- Whatever calls were made on tables without streams: when a stream has a cursor, the chunks of the
-- transcript in the order of their commits, with the indices 0, 1, 2, … and each once, part in two:
-- `reconstruct_stream` is built from the first part, of indices up to the cursor, and
-- `reconstruct_from` with the cursor and without a limit from the second, of indices beyond it, and
-- the text of the whole transcript is the text of the one followed by that of the other, with a
-- blank between them where neither part is empty.
pub reconstruct-IsResumed :
    (transcripts : List ℕ) (cs : List StreamCall) (t id k : ℕ) (row : TranscriptStream)
    → let s = serve cs (no_streams transcripts) in
      get_row (λ r. r.id) id s.streams ≡ some row
      → row.last_chunk_index ≡ some k
      → IsResumed t k
          (select (λ c. c.transcript_id == t) s.chunks)
          (reconstruct_stream t id s)
          (reconstruct_from t k 0 s)
          (reconstruct t s)
unfolding reconstruct_from reconstruct_stream
reconstruct-IsResumed transcripts cs t id k row found cursor =
    let s = serve cs (no_streams transcripts) in
    let chunks = select (λ c. c.transcript_id == t) s.chunks in
    let (whole, parts) = reconstruct-serve transcripts cs t k in
    let (up_to, after) = chunks-serve transcripts cs t k in
    rw found (
      rw cursor (record {
        early = chunks_up_to t k s;
        late = chunks_after t k s;
        parted = parts;
        once =
            ap (map (λ c. c.chunk_index)) parts
            ∙ (serve-numbers transcripts cs t).0
            ∙ ap upto
                (length-map (λ c. c.chunk_index) chunks ∙ sym (ap (λ r. r.chunk_count) whole));
        none_beyond =
            ap (any_of (λ c. ltb k c.chunk_index)) up_to
            ∙ any_of-select (λ c. ltb k c.chunk_index) (λ c. leb c.chunk_index k) chunks
                (λ c t. ground arith);
        none_before =
            ap (any_of (λ c. leb c.chunk_index k)) after
            ∙ any_of-select (λ c. leb c.chunk_index k) (λ c. ltb k c.chunk_index) chunks
                (λ c t. ground arith);
        early_built = refl;
        late_built = refl;
        text =
            ap (λ r. r.full_text) whole
            ∙ ap (λ cs. (build_result t cs 0).full_text) (sym parts)
            ∙ text-append t 0 (k + 1) (chunks_up_to t k s) (chunks_after t k s);
      }))
