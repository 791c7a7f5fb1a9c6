-- ===== src/Mux/Frame/Writer/Rounds.antt =====
-- mux/mux/src/frame/io.rs: one round of the writer.
use tlsn_utils.Base.{
  ℕ, zero, suc, ◌+◌, ◌-◌, ◌≤◌, ◌≡◌, refl, ap, sym, ◌∙◌, inl, inr, true, List, [], ◌∷◌, ◌++◌,
  Bool-cases, arith, ltb, ◌==◌, length, take, drop, length-append, length-drop, take-append-drop,
  drop-drop, drop-all,
}
use mathlib.Core.List.{append-nil, append_assoc}
use tlsn_utils.Mux.Frame.Writer.{
  PollWrite, took, WriteState, init, header, body, poisoned, header_written, body_written, round,
  after,
}
use tlsn_utils.Mux.Frame.Writer.Laws.{IsWriting, IsTaken, IsRound}

-- `n` bytes taken from `offset` on, and what is left of the buffer.
take-rest :
    (offset n : ℕ) (buffer : List ℕ)
    → take n (drop offset buffer) ++ drop (offset + n) buffer ≡ drop offset buffer
take-rest offset n buffer =
    ap (λ bs. take n (drop offset buffer) ++ bs) (sym (drop-drop offset n buffer))
    ∙ take-append-drop n (drop offset buffer)

-- Bytes that the transport takes move from those owed to those written.
kept :
    (before after buffer : List ℕ) (offset n : ℕ)
    → after ≡ before ++ take n (drop offset buffer)
    → after ++ drop (offset + n) buffer ≡ before ++ drop offset buffer
kept before after buffer offset n e =
    ap (λ bs. bs ++ drop (offset + n) buffer) e
    ∙ append_assoc before (take n (drop offset buffer)) (drop (offset + n) buffer)
    ∙ ap (λ bs. before ++ bs) (take-rest offset n buffer)

kept_and :
    (before after buffer rest : List ℕ) (offset n : ℕ)
    → after ≡ before ++ take n (drop offset buffer)
    → after ++ (drop (offset + n) buffer ++ rest) ≡ before ++ (drop offset buffer ++ rest)
kept_and before after buffer rest offset n e =
    sym (append_assoc after (drop (offset + n) buffer) rest)
    ∙ ap (λ bs. bs ++ rest) (kept before after buffer offset n e)
    ∙ append_assoc before (drop offset buffer) rest

none_taken :
    (n : ℕ) (before after bytes : List ℕ)
    → (n == 0) ≡ true
    → after ≡ before ++ take n bytes
    → after ≡ before
none_taken zero before after bytes e f = f ∙ append-nil before
none_taken (suc n) before after bytes e f = absurd (ground arith)

no_bytes : (bytes : List ℕ) → (length bytes == 0) ≡ true → bytes ≡ []
no_bytes [] e = refl
no_bytes (b ∷ bytes) e = absurd (ground arith)

module _ {T : Type 0} (poll_write : List ℕ → T → PollWrite × T) (written : T → List ℕ) where
  body_written-IsRound :
      (buffer : List ℕ) (offset : ℕ) (t : T) (answer : PollWrite × T)
      → offset ≤ length buffer
      → IsTaken written (drop offset buffer) t answer
      → IsRound written (body buffer offset) t (body_written poll_write buffer offset answer)
  body_written-IsRound buffer offset t (PollWrite.pending, t') h a =
      (h, ap (λ bs. bs ++ drop offset buffer) a)
  body_written-IsRound buffer offset t (PollWrite.failed, t') h a =
      (h, ap (λ bs. bs ++ drop offset buffer) a)
  body_written-IsRound buffer offset t (took n, t') h a =
      let l : length (drop offset buffer) ≡ length buffer - offset = length-drop offset buffer in
      elim (Bool-cases (n == 0)) [
        | inl e ↦ rw e (
          h,
          ap (λ bs. bs ++ drop offset buffer)
              (none_taken n (written t) (written t') (drop offset buffer) e a.1),
        )
        | inr e ↦ elim (Bool-cases (ltb (length buffer) (offset + n))) [
          | inl f ↦ absurd (ground (arith, a.0, l))
          | inr f ↦ elim (Bool-cases (offset + n == length buffer)) [
            | inl g ↦
                rw (e, f, g)
                  (
                    tt,
                    ap (λ bs. written t' ++ bs) (sym (drop-all (offset + n) buffer (ground arith)))
                        ∙ kept (written t) (written t') buffer offset n a.1,
                    ground (arith, l),
                  )
            | inr g ↦
                rw (e, f, g)
                  (
                    ground (arith, a.0),
                    kept (written t) (written t') buffer offset n a.1,
                    ground (arith, a.0, l, length-drop (offset + n) buffer),
                  )
          ]
        ]
      ]

  header_written-IsRound :
      (head buffer : List ℕ) (offset : ℕ) (t : T) (answer : PollWrite × T)
      → offset ≤ length head
      → IsTaken written (drop offset head) t answer
      → IsRound written
          (header head buffer offset)
          t
          (header_written poll_write head buffer offset answer)
  header_written-IsRound head buffer offset t (PollWrite.pending, t') h a =
      (h, ap (λ bs. bs ++ (drop offset head ++ buffer)) a)
  header_written-IsRound head buffer offset t (PollWrite.failed, t') h a =
      (h, ap (λ bs. bs ++ (drop offset head ++ buffer)) a)
  header_written-IsRound head buffer offset t (took n, t') h a =
      let l : length (drop offset head) ≡ length head - offset = length-drop offset head in
      let whole : length (drop offset head ++ buffer) ≡ length (drop offset head) + length buffer =
        length-append (drop offset head) buffer in
      elim (Bool-cases (n == 0)) [
        | inl e ↦ rw e (
          h,
          ap (λ bs. bs ++ (drop offset head ++ buffer))
              (none_taken n (written t) (written t') (drop offset head) e a.1),
        )
        | inr e ↦ elim (Bool-cases (ltb (length head) (offset + n))) [
          | inl f ↦ absurd (ground (arith, a.0, l))
          | inr f ↦ elim (Bool-cases (offset + n == length head)) [
            | inl g ↦
                let done_head : written t' ++ buffer ≡ written t ++ (drop offset head ++ buffer) =
                  ap (λ bs. written t' ++ (bs ++ buffer))
                    (sym (drop-all (offset + n) head (ground arith)))
                  ∙ kept_and (written t) (written t') head buffer offset n a.1 in
                elim (Bool-cases (length buffer == 0)) [
                  | inl b ↦
                      rw (e, f, g, b)
                        (
                          tt,
                          ap (λ bs. written t' ++ bs) (sym (no_bytes buffer b)) ∙ done_head,
                          ground (arith, l, whole),
                        )
                  | inr b ↦ rw (e, f, g, b) (omega arith, done_head, ground (arith, l, whole))
                ]
            | inr g ↦
                rw (e, f, g)
                  (
                    ground (arith, a.0),
                    kept_and (written t) (written t') head buffer offset n a.1,
                    ground (
                      arith,
                      a.0,
                      l,
                      whole,
                      length-append (drop (offset + n) head) buffer,
                      length-drop (offset + n) head,
                    ),
                  )
          ]
        ]
      ]

  pub round-IsRound :
      (s : WriteState) (t : T)
      → ((bytes : List ℕ) (u : T) → IsTaken written bytes u (poll_write bytes u))
      → IsWriting s
      → IsRound written s t (round poll_write s t)
  unfolding round
  round-IsRound init t answers v = (refl, sym (append-nil (written t)))
  round-IsRound (header head buffer offset) t answers v =
      header_written-IsRound head buffer offset t (poll_write (drop offset head) t) v
        (answers (drop offset head) t)
  round-IsRound (body buffer offset) t answers v =
      body_written-IsRound buffer offset t (poll_write (drop offset buffer) t) v
        (answers (drop offset buffer) t)
  round-IsRound poisoned t answers v = absurd v
