-- ===== src/Mux/Frame/Reader/Rounds.antt =====
-- mux/mux/src/frame/io.rs: one round of the reader.
use tlsn_utils.Base.{
  ℕ, ◌-◌, ◌<◌, ◌≡◌, refl, ap, subst, sym, ◌∙◌, inl, inr, List, [], ◌++◌, Bool-cases, arith, ltb,
  ◌==◌, length, take, length-replicate, take-all,
}
use mathlib.Core.List.{append-nil, append_assoc}
use tlsn_utils.Mux.Header.{Header, Decoded, ok, not_a_header, header_size, decode}
use tlsn_utils.Mux.Frame.{new}
use tlsn_utils.Mux.Frame.Reader.{
  max_frame_body_len, PollRead, read, ReadState, init, header, body, Control, give, again, is_data,
  header_done, header_read, body_read, round,
}
use tlsn_utils.Mux.Frame.Reader.Laws.{IsAnswer, Reading, Same, IsNext, remaining}
use tlsn_utils.Mux.Frame.Reader.Buffer.{
  length-write_at, take-write_at, move, none_read, empty, zero_taken,
}

module _ {T : Type 0} (content : T → List ℕ) (consumed : List ℕ) (t : T) (left : ℕ) where
  -- What a round with `left` bytes and stages left may do.
  abbrev pub IsRound : Control T → Type 0
  IsRound (give item s' t') = IsNext content consumed t (item, s', t')
  IsRound (again s' t') =
      (consumed' : List ℕ) × Same content consumed t consumed' t'
      × Reading s' consumed'
      × (remaining s' < left)

module _ {T : Type 0} (poll_read : ℕ → T → PollRead × T) (content : T → List ℕ) where
  header_read-IsRound :
      (offset : ℕ) (buffer : List ℕ) (t : T) (answer : PollRead × T)
      → offset < header_size
      → length buffer ≡ header_size
      → IsAnswer poll_read content (header_size - offset) t answer
      → IsRound content
          (take offset buffer)
          t
          (remaining (header offset buffer))
          (header_read poll_read offset buffer answer)
  header_read-IsRound offset buffer t (PollRead.pending, t') h l a =
      (take offset buffer, ap (λ bs. take offset buffer ++ bs) a, (omega arith, l, refl))
  header_read-IsRound offset buffer t (PollRead.failed, t') h l a =
      (take offset buffer, ap (λ bs. take offset buffer ++ bs) a, (omega arith, l, refl))
  header_read-IsRound offset buffer t (read bytes, t') h l a =
      elim (Bool-cases (length bytes == 0)) [
        | inl e ↦ elim (Bool-cases (offset == 0)) [
          | inl f ↦
              rw (e, f)
                (ap (λ bs. bs ++ content t) (zero_taken offset buffer f) ∙ a.2 (empty bytes e))
          | inr f ↦
              rw (e, f)
                (
                  take offset buffer,
                  ap (λ bs. take offset buffer ++ bs) (none_read content bytes t t' e a.1),
                  (omega arith, l, refl),
                )
        ]
        | inr e ↦ rw e (
          take offset buffer ++ bytes,
          move content (take offset buffer) bytes t t' a.1,
          (
            omega (arith, a.0),
            length-write_at offset bytes buffer (omega (arith, a.0)) ∙ l,
            sym (take-write_at offset bytes buffer (omega (arith, a.0))),
          ),
          ground (arith, a.0),
        )
      ]

  body_read-IsRound :
      (h : Header) (offset : ℕ) (buffer : List ℕ) (consumed : List ℕ) (t : T)
      (answer : PollRead × T)
      → offset < h.length
      → Reading (body h offset buffer) consumed
      → IsAnswer poll_read content (h.length - offset) t answer
      → IsRound content consumed t
          (remaining (body h offset buffer))
          (body_read poll_read h offset buffer answer)
  body_read-IsRound h offset buffer consumed t (PollRead.pending, t') lt v a =
      (consumed, ap (λ bs. consumed ++ bs) a, v)
  body_read-IsRound h offset buffer consumed t (PollRead.failed, t') lt v a =
      (consumed, ap (λ bs. consumed ++ bs) a, v)
  body_read-IsRound h offset buffer consumed t (read bytes, t') lt (start, n, d, isd, b, o, l, c)
        a =
      elim (Bool-cases (length bytes == 0)) [
        | inl e ↦ rw e (
          consumed,
          ap (λ bs. consumed ++ bs) (none_read content bytes t t' e a.1),
          (start, n, d, isd, b, o, l, c),
        )
        | inr e ↦ rw e (
          consumed ++ bytes,
          move content consumed bytes t t' a.1,
          (
            start,
            n,
            d,
            isd,
            b,
            omega (arith, a.0),
            length-write_at offset bytes buffer (omega (arith, a.0)) ∙ l,
            ap (λ bs. bs ++ bytes) c
                ∙ append_assoc start (take offset buffer) bytes
                ∙ ap (λ bs. start ++ bs)
                    (sym (take-write_at offset bytes buffer (omega (arith, a.0)))),
          ),
          ground (arith, a.0),
        )
      ]

  header_done-IsRound :
      (buffer : List ℕ) (t : T) (decoded : Decoded)
      → length buffer ≡ header_size
      → decode buffer ≡ decoded
      → IsRound content
          (take header_size buffer)
          t
          (remaining (header header_size buffer))
          (header_done poll_read buffer t decoded)
  unfolding new
  header_done-IsRound buffer t (ok h) l e = elim (Bool-cases (is_data h.tag)) [
    | inl d ↦ elim (Bool-cases (ltb max_frame_body_len h.length)) [
      | inl g ↦ rw (d, g) (take header_size buffer, refl, (omega arith, l, refl))
      | inr g ↦
          rw (d, g)
            (
              take header_size buffer,
              refl,
              (
                buffer,
                l,
                e,
                d,
                ground arith,
                omega arith,
                length-replicate h.length 0,
                take-all header_size buffer (omega arith) ∙ sym (append-nil buffer),
              ),
              ground arith,
            )
    ]
    | inr d ↦ rw d (
      refl,
      (
        take header_size buffer,
        refl,
        record {
          start = buffer;
          start_size = l;
          header_read = e;
          all = take-all header_size buffer (omega arith) ∙ sym (append-nil buffer);
          size = rw d refl;
          bound = omega arith;
        },
      ),
    )
  ]
  header_done-IsRound buffer t (Decoded.unknown_type n) l e =
      (take header_size buffer, refl, (omega arith, l, refl))
  header_done-IsRound buffer t not_a_header l e =
      (take header_size buffer, refl, (omega arith, l, refl))

  pub round-IsRound :
      (s : ReadState) (consumed : List ℕ) (t : T)
      → ((n : ℕ) (u : T) → 0 < n → IsAnswer poll_read content n u (poll_read n u))
      → Reading s consumed
      → IsRound content consumed t (remaining s) (round poll_read s t)
  unfolding round
  round-IsRound init consumed t answers v =
      ([], ap (λ bs. bs ++ content t) (sym v), (omega arith, refl, refl), omega arith)
  round-IsRound (header offset buffer) consumed t answers (o, l, c) =
      elim (Bool-cases (offset == header_size)) [
        | inl e ↦
            let full : offset ≡ header_size = ground arith in
            rw (e, c)
              (subst
                (λ i.
                  IsRound content (take i buffer) t (remaining (header i buffer))
                    (header_done poll_read buffer t (decode buffer)))
                (sym full) (header_done-IsRound buffer t (decode buffer) l refl))
        | inr e ↦
            rw (e, c)
              (header_read-IsRound offset buffer t (poll_read (header_size - offset) t)
                (ground arith) l (answers (header_size - offset) t (ground arith)))
      ]
  round-IsRound (body h offset buffer) consumed t answers (start, n, d, isd, b, o, l, c) =
      elim (Bool-cases (offset == h.length)) [
        | inl e ↦ rw e (
          refl,
          (
            consumed,
            refl,
            record {
              start = start;
              start_size = n;
              header_read = d;
              all = c ∙ ap (λ bs. start ++ bs) (take-all offset buffer (ground arith));
              size = rw isd l;
              bound = omega arith;
            },
          ),
        )
        | inr e ↦ rw e (
            body_read-IsRound h offset buffer consumed t (poll_read (h.length - offset) t)
              (ground arith) (start, n, d, isd, b, o, l, c)
              (answers (h.length - offset) t (ground arith)))
      ]
