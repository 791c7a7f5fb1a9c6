-- ===== src/Mux/Chunks/Copy.antt =====
-- The loop of `poll_read` (mux/mux/src/connection/stream.rs) that copies out of a stream's buffer.
use tlsn_utils.Base.{
  ℕ, zero, suc, ◌+◌, ◌-◌, ◌*◌, ◌≤◌, ◌<◌, ◌≡◌, ap, subst, sym, ◌∙◌, true, false, Option, none, some,
  List, [], ◌∷◌, ◌++◌, done, Returns, Returns-map, le→leb, ◌==◌, if◌then◌else◌, length, take, drop,
  min, tail, arith, length-drop, Bool-cases, inl, inr, take-all, drop-all, drop-drop, take-two,
  drop-two,
}
use mathlib.Core.List.{append-nil, append_assoc}
use tlsn_utils.Mux.Chunks.{
  Chunk, Chunks, chunk_len, chunk_rest, chunk_is_empty, advance, pop, copy_out, put_front,
}
use tlsn_utils.Mux.Chunks.Laws.{unread, unread_of, IsFresh, IsValid}

-- The result of the loop on the unread bytes `bytes`, with `out` copied and room for `room` more.
abbrev pub Got : List ℕ → ℕ → List ℕ → Option (List ℕ × Chunks) → Type 0
Got bytes room out none = ⊥
Got bytes room out (some (copied, s')) =
    (copied ≡ out ++ take room bytes) × (unread s' ≡ drop room bytes) × IsValid s'

-- Twice the chunks, and one more if the front chunk has bytes left.
abbrev pub rounds : List Chunk → ℕ
rounds [] = 0
rounds (c ∷ cs) = 2 * length cs + (if chunk_is_empty c then 1 else 2)

rounds-le : (cs : List Chunk) → rounds cs ≤ 2 * length cs
rounds-le [] = omega arith
rounds-le (c ∷ cs) = ground arith

module _ (c : Chunk) (cs : List Chunk) (total : ℕ)
    (v : IsValid (record { seq = c ∷ cs; total = total })) where
  pop-IsValid : IsValid (pop (record { seq = c ∷ cs; total = total })).1
  unfolding pop
  pop-IsValid = record {
    sum = omega (arith, v.sum, v.within.0);
    within = v.within.1;
    behind = IsFresh-tail cs v.behind;
  }
    where
      IsFresh-tail : (ds : List Chunk) → IsFresh ds → IsFresh (tail ds)
      IsFresh-tail [] h = tt
      IsFresh-tail (d ∷ ds) h = h.1

  abbrev moved : ℕ → Chunk
  moved k = record c { position = c.position + k }

  moved-IsValid :
      (k : ℕ)
      → k ≤ chunk_len c
      → IsValid (put_front (moved k) (record { seq = c ∷ cs; total = total }))
  moved-IsValid k h = record {
    sum = v.sum;
    within = (omega (arith, v.within.0), v.within.1);
    behind = v.behind;
  }

  advance_lem : (k : ℕ) → k ≤ chunk_len c → advance c k ≡ some (moved k)
  unfolding advance
  advance_lem k h = rw (le→leb (c.position + k) (length c.bytes) (omega (arith, v.within.0)))

  rest-moved : (k : ℕ) → chunk_rest (moved k) ≡ drop k (chunk_rest c)
  rest-moved k = sym (drop-drop c.position k c.bytes)

  length-rest : length (chunk_rest c) ≡ chunk_len c
  length-rest = length-drop c.position c.bytes

  copy_out-pop :
      (fuel room : ℕ) (out : List ℕ)
      → chunk_is_empty c ≡ true
      → copy_out (suc fuel) (record { seq = c ∷ cs; total = total }) room out
        ≡ copy_out fuel (pop (record { seq = c ∷ cs; total = total })).1 room out
  unfolding copy_out
  copy_out-pop fuel room out e = rw e

  copy_out_stop :
      (fuel room : ℕ) (out : List ℕ)
      → chunk_is_empty c ≡ false
      → (room - min (chunk_len c) room == 0) ≡ true
      → copy_out (suc fuel) (record { seq = c ∷ cs; total = total }) room out
        ≡ done (
            some (
              out ++ take (min (chunk_len c) room) (chunk_rest c),
              put_front (moved (min (chunk_len c) room)) (record { seq = c ∷ cs; total = total }),
            ))
  unfolding copy_out
  copy_out_stop fuel room out e f = rw (e, advance_lem (min (chunk_len c) room) (omega arith), f)

  copy_out_more :
      (fuel room : ℕ) (out : List ℕ)
      → chunk_is_empty c ≡ false
      → (room - min (chunk_len c) room == 0) ≡ false
      → copy_out (suc fuel) (record { seq = c ∷ cs; total = total }) room out
        ≡ copy_out fuel
            (put_front (moved (min (chunk_len c) room)) (record { seq = c ∷ cs; total = total }))
            (room - min (chunk_len c) room)
            (out ++ take (min (chunk_len c) room) (chunk_rest c))
  unfolding copy_out
  copy_out_more fuel room out e f = rw (e, advance_lem (min (chunk_len c) room) (omega arith), f)

-- One round that copies `k` bytes, and the rest of the loop.
Got-step :
    (k room : ℕ) (xs ys out : List ℕ) (r : Option (List ℕ × Chunks))
    → k ≤ length xs
    → k ≤ room
    → Got (drop k xs ++ ys) (room - k) (out ++ take k xs) r
    → Got (xs ++ ys) room out r
Got-step k room xs ys out none h j g = g
Got-step k room xs ys out (some (copied, s')) h j g =
    let e : k + (room - k) ≡ room = omega arith in
    (
      g.0
          ∙ append_assoc out (take k xs) (take (room - k) (drop k xs ++ ys))
          ∙ ap (λ zs. out ++ zs)
              (sym (take-two k (room - k) xs ys h) ∙ ap (λ i. take i (xs ++ ys)) e),
      g.1 ∙ sym (drop-two k (room - k) xs ys h) ∙ ap (λ i. drop i (xs ++ ys)) e,
      g.2,
    )

Got-cast :
    (bytes bytes' : List ℕ) (room : ℕ) (out : List ℕ) (r : Option (List ℕ × Chunks))
    → bytes ≡ bytes'
    → Got bytes room out r
    → Got bytes' room out r
Got-cast bytes bytes' room out none e g = g
Got-cast bytes bytes' room out (some (copied, s')) e g =
    (g.0 ∙ ap (λ bs. out ++ take room bs) e, g.1 ∙ ap (λ bs. drop room bs) e, g.2)

Got-zero :
    (n : ℕ) (bytes out : List ℕ) (s' : Chunks)
    → n ≡ 0
    → unread s' ≡ bytes
    → IsValid s'
    → Got bytes n out (some (out, s'))
Got-zero zero bytes out s' e u v = (sym (append-nil out), u, v)
Got-zero (suc n) bytes out s' e u v = absurd (omega arith)

rounds-moved :
    (c : Chunk) (cs : List Chunk) (fuel : ℕ)
    → chunk_is_empty c ≡ true
    → 2 * length cs + 1 < fuel
    → rounds (c ∷ cs) < fuel
rounds-moved c cs fuel e h = rw e h

after_full :
    (c : Chunk) (cs : List Chunk) (fuel : ℕ)
    → chunk_is_empty c ≡ false
    → rounds (c ∷ cs) < suc fuel
    → 2 * length cs + 1 < fuel
after_full c cs fuel e h =
    let g : 2 * length cs + (if false then 1 else 2) < suc fuel =
      subst (λ b. 2 * length cs + (if b then 1 else 2) < suc fuel) e h in
    omega arith

len-empty : (c : Chunk) → chunk_is_empty c ≡ true → length c.bytes ≤ c.position
len-empty c e = ground arith

abbrev of_seq : List Chunk → ℕ → Chunks
of_seq cs total = record { seq = cs; total = total }

after_pop :
    (fuel : ℕ) (c : Chunk) (cs : List Chunk) (total room : ℕ) (out : List ℕ)
    → IsValid (of_seq (c ∷ cs) total)
    → (IsValid (of_seq cs (total - (chunk_len c + c.position)))
        → rounds cs < fuel
        → Returns
            (copy_out fuel (of_seq cs (total - (chunk_len c + c.position))) room out)
            (Got (unread_of cs) room out))
    → rounds cs < fuel
    → Returns (copy_out fuel (pop (of_seq (c ∷ cs) total)).1 room out) (Got (unread_of cs) room out)
unfolding pop
after_pop fuel c cs total room out v ih h = ih (pop-IsValid c cs total v) h

-- With fuel past the rounds the loop ends. It never panics, copies the first unread bytes, as many as
-- there is room for, and leaves the others in order in a valid buffer.
pub copy_out-Got :
    (fuel : ℕ) (cs : List Chunk) (total room : ℕ) (out : List ℕ)
    → IsValid (of_seq cs total)
    → rounds cs < fuel
    → Returns (copy_out fuel (of_seq cs total) room out) (Got (unread_of cs) room out)
copy_out-Got zero cs total room out v h = absurd (omega arith)
copy_out-Got (suc fuel) [] total room out v h =
    unfold copy_out in
    (
      sym (append-nil out) ∙ ap (λ zs. out ++ zs) (sym (take-all room [] (omega arith))),
      sym (drop-all room [] (omega arith)),
      v,
    )
copy_out-Got (suc fuel) (c ∷ cs) total room out v h = elim (Bool-cases (chunk_is_empty c)) [
  | inl e ↦ rw (copy_out-pop c cs total v fuel room out e) (
      Returns-map (Got (unread_of cs) room out) (Got (unread_of (c ∷ cs)) room out)
        (copy_out fuel (pop (of_seq (c ∷ cs) total)).1 room out)
        (λ r g.
          Got-cast (unread_of cs) (unread_of (c ∷ cs)) room out r
            (ap (λ bs. bs ++ unread_of cs) (sym (drop-all c.position c.bytes (len-empty c e)))) g)
        (after_pop fuel c cs total room out v
          (copy_out-Got fuel cs (total - (chunk_len c + c.position)) room out)
          (ground (arith, e, rounds-le cs))))
  | inr e ↦
      let k = min (chunk_len c) room in
      let i : k ≤ chunk_len c = omega arith in
      let j : k ≤ length (chunk_rest c) = omega (arith, length-rest c cs total v) in
      let moved_on = of_seq (moved c cs total v k ∷ cs) total in
      let rest : chunk_rest (moved c cs total v k) ++ unread_of cs
          ≡ drop k (chunk_rest c) ++ unread_of cs =
        ap (λ bs. bs ++ unread_of cs) (rest-moved c cs total v k) in
      let valid : IsValid moved_on = moved-IsValid c cs total v k i in
      elim (Bool-cases (room - k == 0)) [
        | inl f ↦ rw (copy_out_stop c cs total v fuel room out e f) (
            Got-step k room (chunk_rest c) (unread_of cs) out
              (some (out ++ take k (chunk_rest c), moved_on)) j (omega arith)
              (Got-zero (room - k) (drop k (chunk_rest c) ++ unread_of cs)
                (out ++ take k (chunk_rest c)) moved_on (ground arith) rest valid))
        | inr f ↦ rw (copy_out_more c cs total v fuel room out e f) (
            Returns-map
              (Got (chunk_rest (moved c cs total v k) ++ unread_of cs) (room - k)
                (out ++ take k (chunk_rest c)))
              (Got (unread_of (c ∷ cs)) room out)
              (copy_out fuel moved_on (room - k) (out ++ take k (chunk_rest c)))
              (λ r g. Got-step k room (chunk_rest c) (unread_of cs) out r j (omega arith) (
                Got-cast (chunk_rest (moved c cs total v k) ++ unread_of cs)
                  (drop k (chunk_rest c) ++ unread_of cs) (room - k) (out ++ take k (chunk_rest c))
                  r rest g))
              (copy_out-Got fuel (moved c cs total v k ∷ cs) total (room - k)
                (out ++ take k (chunk_rest c)) valid
                (rounds-moved (moved c cs total v k) cs fuel (ground arith)
                  (after_full c cs fuel e h))))
      ]
]
