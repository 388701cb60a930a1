-- ===== src/Transcripts/Reconstruction/Order.antt =====
-- The order of the chunks in backend/transcripts/reconstruction.py.
use the_dashboard.Common.{
  ℕ, zero, suc, Bool, true, false, List, [], ◌∷◌, ◌++◌, ◌+◌, ◌==◌, ◌≡◌, ◌≤◌, ◌<◌, refl, ap, ◌∙◌,
  arith, leb, ltb, select, map, length, Bool-cases, inl, inr,
}
use the_dashboard.Transcripts.Tables.{TranscriptChunk, Store, chunk_numbers}
use the_dashboard.Transcripts.Numbers.{upto}
use the_dashboard.Transcripts.Calls.{StreamCall, serve}
use the_dashboard.Transcripts.Calls.Numbering.{no_streams, serve-numbers}
use the_dashboard.Transcripts.Reconstruction.{
  insert_chunk, by_index, build_result, chunks_after, chunks_up_to, reconstruct,
}

-- k, k + 1, …, k + n - 1
range : ℕ → ℕ → List ℕ
range k zero = []
range k (suc n) = k ∷ range (suc k) n

range-snoc : (k n end : ℕ) → end ≡ k + n → range k n ++ end ∷ [] ≡ range k (suc n)
unfolding range
range-snoc k zero end e = ap (λ i. i ∷ []) (omega arith)
range-snoc k (suc n) end e = ap (λ xs. k ∷ xs) (range-snoc (suc k) n end (omega arith))

upto-range : (n : ℕ) → upto n ≡ range 0 n
unfolding range
upto-range zero = refl
upto-range (suc n) = ap (λ xs. xs ++ n ∷ []) (upto-range n) ∙ range-snoc 0 n n (omega arith)

-- No later chunk has a smaller index.
abbrev AllFrom : ℕ → List TranscriptChunk → Type 0
AllFrom k [] = Unit
AllFrom k (c ∷ cs) = (k ≤ c.chunk_index) × AllFrom k cs

abbrev Ascending : List TranscriptChunk → Type 0
Ascending [] = Unit
Ascending (c ∷ cs) = AllFrom c.chunk_index cs × Ascending cs

by_index-Ascending : (cs : List TranscriptChunk) → Ascending cs → by_index cs ≡ cs
by_index-Ascending [] a = refl
by_index-Ascending (c ∷ []) a = refl
by_index-Ascending (c ∷ d ∷ cs) a =
    let ih = by_index-Ascending (d ∷ cs) a.1 in
    let le : c.chunk_index ≤ d.chunk_index = a.0.0 in
    let t : leb c.chunk_index d.chunk_index ≡ true = ground arith in
    ap (insert_chunk c) ih ∙ rw t refl

AllFrom-select :
    (test : TranscriptChunk → Bool) (k : ℕ) (cs : List TranscriptChunk)
    → AllFrom k cs
    → AllFrom k (select test cs)
AllFrom-select test k [] a = tt
AllFrom-select test k (c ∷ cs) a = elim (Bool-cases (test c)) [
  | inl t ↦ rw t (a.0, AllFrom-select test k cs a.1)
  | inr f ↦ rw f (AllFrom-select test k cs a.1)
]

Ascending-select :
    (test : TranscriptChunk → Bool) (cs : List TranscriptChunk)
    → Ascending cs
    → Ascending (select test cs)
Ascending-select test [] a = tt
Ascending-select test (c ∷ cs) a = elim (Bool-cases (test c)) [
  | inl t ↦ rw t (AllFrom-select test c.chunk_index cs a.0, Ascending-select test cs a.1)
  | inr f ↦ rw f (Ascending-select test cs a.1)
]

numbered-AllFrom :
    (j k : ℕ) (cs : List TranscriptChunk)
    → j ≤ k
    → map (λ c. c.chunk_index) cs ≡ range k (length cs)
    → AllFrom j cs
unfolding range
numbered-AllFrom j k [] le h = tt
numbered-AllFrom j k (c ∷ cs) le h =
    let p : c.chunk_index ≡ k = cc in
    let q : map (λ c. c.chunk_index) cs ≡ range (suc k) (length cs) = cc in
    (omega arith, numbered-AllFrom j (suc k) cs (omega arith) q)

numbered-Ascending :
    (k : ℕ) (cs : List TranscriptChunk)
    → map (λ c. c.chunk_index) cs ≡ range k (length cs)
    → Ascending cs
unfolding range
numbered-Ascending k [] h = tt
numbered-Ascending k (c ∷ cs) h =
    let p : c.chunk_index ≡ k = cc in
    let q : map (λ c. c.chunk_index) cs ≡ range (suc k) (length cs) = cc in
    (numbered-AllFrom c.chunk_index (suc k) cs (omega arith) q, numbered-Ascending (suc k) cs q)

pub length-map {ℓ κ} :
    {A : Type ℓ} {B : Type κ} (f : A → B) (xs : List A) → length (map f xs) ≡ length xs
length-map f [] = refl
length-map f (x ∷ xs) = ap suc (length-map f xs)

abbrev committed : ℕ → Store → List TranscriptChunk
committed t s = select (λ c. c.transcript_id == t) s.chunks

committed-Ascending :
    (transcripts : List ℕ) (cs : List StreamCall) (t : ℕ)
    → Ascending (committed t (serve cs (no_streams transcripts)))
committed-Ascending transcripts cs t =
    let s = serve cs (no_streams transcripts) in
    let numbers = (serve-numbers transcripts cs t).0 in
    let n = length-map (λ c. c.chunk_index) (committed t s) in
    numbered-Ascending 0 (committed t s)
      (numbers ∙ upto-range (length (chunk_numbers t s.chunks)) ∙ ap (range 0) n)

-- The two sides of a cursor.
module _ (k : ℕ) where
  up_to-late :
      (j : ℕ) (cs : List TranscriptChunk)
      → k < j
      → AllFrom j cs
      → select (λ c. leb c.chunk_index k) cs ≡ []
  up_to-late j [] lt a = refl
  up_to-late j (c ∷ cs) lt a =
      let le = a.0 in
      let f : leb c.chunk_index k ≡ false = ground arith in rw f (up_to-late j cs lt a.1)

  after-late :
      (j : ℕ) (cs : List TranscriptChunk)
      → k < j
      → AllFrom j cs
      → select (λ c. ltb k c.chunk_index) cs ≡ cs
  after-late j [] lt a = refl
  after-late j (c ∷ cs) lt a =
      let le = a.0 in
      let t : ltb k c.chunk_index ≡ true = ground arith in
      rw t (ap (λ ds. c ∷ ds) (after-late j cs lt a.1))

  select-split :
      (cs : List TranscriptChunk)
      → Ascending cs
      → select (λ c. leb c.chunk_index k) cs ++ select (λ c. ltb k c.chunk_index) cs ≡ cs
  select-split [] a = refl
  select-split (c ∷ cs) a = elim (Bool-cases (leb c.chunk_index k)) [
    | inl le ↦
        let f : ltb k c.chunk_index ≡ false = ground arith in
        rw le (rw f (ap (λ ds. c ∷ ds) (select-split cs a.1)))
    | inr gt ↦
        let t : ltb k c.chunk_index ≡ true = ground arith in
        let lt : k < c.chunk_index = ground arith in
        rw gt (
          rw t (
            rw (up_to-late c.chunk_index cs lt a.0) (rw (after-late c.chunk_index cs lt a.0) refl)))
  ]

-- The chunks of the two range queries.
pub chunks-serve :
    (transcripts : List ℕ) (cs : List StreamCall) (t k : ℕ)
    → let s = serve cs (no_streams transcripts) in
      (chunks_up_to t k s ≡ select (λ c. leb c.chunk_index k) (committed t s))
      × (chunks_after t k s ≡ select (λ c. ltb k c.chunk_index) (committed t s))
chunks-serve transcripts cs t k =
    let s = serve cs (no_streams transcripts) in
    let a = committed-Ascending transcripts cs t in
    (
      by_index-Ascending _ (Ascending-select (λ c. leb c.chunk_index k) (committed t s) a),
      by_index-Ascending _ (Ascending-select (λ c. ltb k c.chunk_index) (committed t s) a),
    )

-- Whatever calls were made on tables without streams: the reconstruction of a transcript takes its
-- chunks in the order of their commits, and for every index the chunks up to it followed by those
-- after it are all of them, in that order.
pub reconstruct-serve :
    (transcripts : List ℕ) (cs : List StreamCall) (t k : ℕ)
    → let s = serve cs (no_streams transcripts) in
      (reconstruct t s ≡ build_result t (select (λ c. c.transcript_id == t) s.chunks) 0)
      × (chunks_up_to t k s ++ chunks_after t k s ≡ select (λ c. c.transcript_id == t) s.chunks)
unfolding reconstruct
reconstruct-serve transcripts cs t k =
    let s = serve cs (no_streams transcripts) in
    let a = committed-Ascending transcripts cs t in
    let whole = by_index-Ascending (committed t s) a in
    let (early, late) = chunks-serve transcripts cs t k in
    (ap (λ ds. build_result t ds 0) whole, rw early (rw late (select-split k (committed t s) a)))
