-- ===== src/Mux/Frame/Writer/RoundTrip.antt =====
-- mux/mux/src/frame/io.rs: what the writer has written, read by the reader.
use tlsn_utils.Base.{ℕ, ◌<◌, ◌≡◌, ap, subst, sym, ◌∙◌, List, [], ◌++◌, done, Returns, length, arith}
use mathlib.Core.List.{append-nil}
use tlsn_utils.Mux.Header.{encode}
use tlsn_utils.Mux.Frame.{Frame}
use tlsn_utils.Mux.Frame.Writer.{PollWrite, WriteState, ok, start_send, poll_ready}
use tlsn_utils.Mux.Frame.Writer.Laws.{IsTaken, IsReady}
use tlsn_utils.Mux.Frame.Writer.Loop.{poll_ready-IsReady}
use tlsn_utils.Mux.Frame.Reader.{PollRead, init, poll_next}
use tlsn_utils.Mux.Frame.Reader.Laws.{IsAnswer, remaining}
use tlsn_utils.Mux.Frame.Reader.RoundTrip.{IsSent, IsRead, poll_next-IsRead}

module _ {T : Type 0} (poll_write : List ℕ → T → PollWrite × T) (written : T → List ℕ) where
  start_send-written :
      (answers : (bytes : List ℕ) (u : T) → IsTaken written bytes u (poll_write bytes u)) (fuel : ℕ)
      (f : Frame) (t t' : T) (s : WriteState)
      → length (encode f.header ++ f.body) < fuel
      → poll_ready poll_write fuel (start_send f) t ≡ done (ok, s, t')
      → written t' ≡ written t ++ (encode f.header ++ f.body)
  unfolding start_send
  start_send-written answers fuel f t t' s h e =
      (subst (λ r. Returns r (IsReady written (start_send f) t)) e
        (poll_ready-IsReady poll_write written answers fuel (start_send f) t (omega arith) h)).1

-- Once a frame that is sent over a new transport is written, a reader to which exactly the bytes
-- written are to come gives that frame and leaves none, however both transports split them; or it waits
-- or fails with every byte accounted for.
pub start_send-poll_next :
    {T U : Type 0} (poll_write : List ℕ → T → PollWrite × T) (written : T → List ℕ)
    (poll_read : ℕ → U → PollRead × U) (content : U → List ℕ)
    (answers_write : (bytes : List ℕ) (t : T) → IsTaken written bytes t (poll_write bytes t))
    (answers_read : (n : ℕ) (u : U) → 0 < n → IsAnswer poll_read content n u (poll_read n u))
    (write_fuel read_fuel : ℕ) (f : Frame) (t t' : T) (s : WriteState) (u : U)
    → IsSent f
    → length (encode f.header ++ f.body) < write_fuel
    → remaining init < read_fuel
    → written t ≡ []
    → poll_ready poll_write write_fuel (start_send f) t ≡ done (ok, s, t')
    → content u ≡ written t'
    → Returns (poll_next poll_read read_fuel init u) (IsRead content f [])
start_send-poll_next poll_write written poll_read content answers_write answers_read write_fuel
      read_fuel f t t' s u v h k empty sent same =
    poll_next-IsRead poll_read content f [] answers_read read_fuel u v
      (same
        ∙ start_send-written poll_write written answers_write write_fuel f t t' s h sent
        ∙ ap (λ bs. bs ++ (encode f.header ++ f.body)) empty
        ∙ ap (λ bs. encode f.header ++ bs) (sym (append-nil f.body)))
      k
