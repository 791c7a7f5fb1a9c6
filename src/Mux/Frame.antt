-- ===== src/Mux/Frame.antt =====
-- mux/mux/src/frame.rs: frames, a header with a body, and their constructors.
pub mod Laws
pub mod Reader
pub mod Writer
use tlsn_utils.Base.{ℕ, Option, none, some, List, [], leb, length, u32_max, if◌then◌else◌}
use tlsn_utils.Mux.Header as Header
use tlsn_utils.Mux.Header.{Header, StreamId, fin, syn, data_header}

pub record Frame : Type 0 where
  pub header : Header
  pub body : List ℕ

unfoldable pub new : Header → Frame
new header = record { header = header; body = [] }

-- `none` is the `TryFromIntError`.
unfoldable pub data_frame : StreamId → List ℕ → Option Frame
data_frame id b =
    if leb (length b) u32_max
    then some (record { header = data_header id (length b); body = b })
    else none

unfoldable pub close_stream : StreamId → Frame
unfolding new
close_stream id = new (fin (data_header id 0))

unfoldable pub window_update : StreamId → ℕ → Frame
window_update id credit = record { header = Header.window_update id credit; body = [] }

unfoldable pub ping : ℕ → Frame
ping nonce = record { header = syn (Header.ping nonce); body = [] }

unfoldable pub term : Frame
term = record { header = Header.term; body = [] }

unfoldable pub protocol_error : Frame
protocol_error = record { header = Header.protocol_error; body = [] }

unfoldable pub internal_error : Frame
internal_error = record { header = Header.internal_error; body = [] }
