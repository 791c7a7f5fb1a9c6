-- ===== src/Mux/Frame/Reader/RoundTrip.antt =====
-- mux/mux/src/frame/io.rs: the reader against `header::encode`.
use tlsn_utils.Base.{
  ℕ, ◌<◌, ◌≡◌, refl, ap, ap₂, sym, ◌∙◌, List, [], ◌∷◌, ◌++◌, Returns, Returns-map, arith,
  if◌then◌else◌, length, take, drop, length-append,
}
use mathlib.Core.List.{append_assoc}
use tlsn_utils.Mux.Header.{Header, Decoded, ok, unknown_type, not_a_header, encode, decode}
use tlsn_utils.Mux.Header.Laws.{IsHeader, decode-encode, encode_bytes}
use tlsn_utils.Mux.Frame.{Frame}
use tlsn_utils.Mux.Frame.Reader.{
  PollRead, ReadState, init, PollNext, pending, ended, failed, frame, is_data, poll_next,
}
use tlsn_utils.Mux.Frame.Reader.Laws.{IsAnswer, Reading, IsFrame, IsNext, remaining}
use tlsn_utils.Mux.Frame.Reader.Loop.{poll_next-IsNext}
use tlsn_utils.Mux.Frame.Reader.Buffer.{take-length}

drop-length : (xs ys : List ℕ) → drop (length xs) (xs ++ ys) ≡ ys
drop-length [] ys = refl
drop-length (x ∷ xs) ys = drop-length xs ys

-- Two appends agree part by part, if the first parts are as long.
append-front :
    (xs xs' ys ys' : List ℕ)
    → length xs ≡ length xs'
    → xs ++ ys ≡ xs' ++ ys'
    → (xs ≡ xs') × (ys ≡ ys')
append-front xs xs' ys ys' n e = (
  sym (take-length xs ys)
      ∙ ap (take (length xs)) e
      ∙ ap (λ i. take i (xs' ++ ys')) n
      ∙ take-length xs' ys',
  sym (drop-length xs ys)
      ∙ ap (drop (length xs)) e
      ∙ ap (λ i. drop i (xs' ++ ys')) n
      ∙ drop-length xs' ys',
)

abbrev header_of : Header → Decoded → Header
header_of h (ok h') = h'
header_of h (unknown_type n) = h
header_of h not_a_header = h

-- A frame that the writer may send: its header fits its types and announces its body.
pub record IsSent (f : Frame) : Type 0 where
  pub header : IsHeader f.header
  pub size : length f.body ≡ (if is_data f.header.tag then f.header.length else 0)

module _ {T : Type 0} (content : T → List ℕ) (f : Frame) (rest : List ℕ) where
  -- The frame is `f`, and the bytes after it are still to come.
  abbrev pub IsRead : PollNext × ReadState × T → Type 0
  IsRead (frame g, s', t') = (g ≡ f) × (content t' ≡ rest) × (s' ≡ init)
  IsRead (pending, s', t') =
      (consumed : List ℕ) × Reading s' consumed
      × (consumed ++ content t' ≡ encode f.header ++ (f.body ++ rest))
  IsRead (ended, s', t') = ⊥
  IsRead (failed e, s', t') =
      (consumed : List ℕ) × Reading s' consumed
      × (consumed ++ content t' ≡ encode f.header ++ (f.body ++ rest))

  frame-IsRead :
      (v : IsSent f) (g : Frame) (bytes : List ℕ) (t' : T)
      → IsFrame bytes g
      → bytes ++ content t' ≡ encode f.header ++ (f.body ++ rest)
      → (g ≡ f) × (content t' ≡ rest)
  frame-IsRead v g bytes t' w e =
      let start =
        append-front w.start (encode f.header) (g.body ++ content t') (f.body ++ rest)
          (w.start_size ∙ sym (encode_bytes f.header v.header).0)
          (sym (append_assoc w.start g.body (content t'))
            ∙ ap (λ bs. bs ++ content t') (sym w.all)
            ∙ e) in
      let same_header : g.header ≡ f.header =
        ap (header_of f.header)
          (sym w.header_read ∙ ap decode start.0 ∙ decode-encode f.header v.header) in
      let body =
        append-front g.body f.body (content t') rest
          (w.size ∙ ap (λ h. if is_data h.tag then h.length else 0) same_header ∙ sym v.size)
          start.1 in
      (ap₂ (λ h b. record { header = h; body = b }) same_header body.0, body.1)

  IsNext-IsRead :
      (v : IsSent f) (t : T) (r : PollNext × ReadState × T)
      → content t ≡ encode f.header ++ (f.body ++ rest)
      → IsNext content [] t r
      → IsRead r
  IsNext-IsRead v t (frame g, s', t') e (i, (bytes, same, w)) =
      let p = frame-IsRead v g bytes t' w (same ∙ e) in (p.0, p.1, i)
  IsNext-IsRead v t (pending, s', t') e (consumed, same, w) = (consumed, w, same ∙ e)
  IsNext-IsRead v t (ended, s', t') e none_left =
      let z : length (encode f.header ++ (f.body ++ rest)) ≡ 0 = ap length (sym e ∙ none_left) in
      absurd (
        omega (
          arith,
          z,
          length-append (encode f.header) (f.body ++ rest),
          (encode_bytes f.header v.header).0,
        ))
  IsNext-IsRead v t (failed err, s', t') e (consumed, same, w) = (consumed, w, same ∙ e)

-- Where the bytes to come start with an encoded frame, a new call of `poll_next` gives that very frame,
-- however the transport splits them, and leaves the bytes after it; or it waits or fails with every byte
-- accounted for. It does not end the stream.
pub poll_next-IsRead :
    {T : Type 0} (poll_read : ℕ → T → PollRead × T) (content : T → List ℕ) (f : Frame)
    (rest : List ℕ)
    (answers : (n : ℕ) (u : T) → 0 < n → IsAnswer poll_read content n u (poll_read n u)) (fuel : ℕ)
    (t : T)
    → IsSent f
    → content t ≡ encode f.header ++ (f.body ++ rest)
    → remaining init < fuel
    → Returns (poll_next poll_read fuel init t) (IsRead content f rest)
poll_next-IsRead poll_read content f rest answers fuel t v e h =
    Returns-map (IsNext content [] t) (IsRead content f rest) (poll_next poll_read fuel init t)
      (λ r g. IsNext-IsRead content f rest v t r e g)
      (poll_next-IsNext poll_read content answers fuel init [] t refl h)
