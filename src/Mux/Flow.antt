-- ===== src/Mux/Flow.antt =====
-- mux/mux/src/connection/stream/flow_control.rs: the windows of one stream. What it shares with the
-- connection, the last round-trip time and `accumulated_max_stream_windows`, is a state of its own.
-- Times are numbers of nanoseconds. `none` as the outer result is a panic: a failed assertion (of a
-- build with debug assertions) or an arithmetic overflow.
pub mod Update
pub mod Drop
use tlsn_utils.Base.{
  ℕ, ◌+◌, ◌-◌, ◌*◌, ◌/◌, ◌≤◌, ◌≡◌, Bool, true, false, not, ◌&&◌, Option, none, some, ltb, leb, ◌==◌,
  min, u32_max, usize_max, if◌then◌else◌,
}
use tlsn_utils.Mux.Config.{Config, default_credit, saturating_mul}

pub record FlowController : Type 0 where
  pub config : Config
  pub last_window_update : ℕ
  pub receive_window : ℕ
  pub max_receive_window : ℕ
  pub send_window : ℕ

-- The state behind `rtt: Rtt` and `accumulated_max_stream_windows: Arc<Mutex<usize>>`.
pub record Pooled : Type 0 where
  pub rtt : Option ℕ
  pub accumulated : ℕ

unfoldable pub new : ℕ → ℕ → Config → ℕ → FlowController
new receive_window send_window config now = record {
  config = config;
  last_window_update = now;
  receive_window = receive_window;
  max_receive_window = default_credit;
  send_window = send_window;
}

-- `max_connection_receive_window.unwrap_or(usize::MAX)`
abbrev pub limit_of : Option ℕ → ℕ
limit_of none = usize_max
limit_of (some n) = n

-- What the connection may grant beyond `DEFAULT_CREDIT` for each stream (saturating).
abbrev pub spare : Config → ℕ
spare c = limit_of c.max_connection_receive_window - saturating_mul c.max_num_streams default_credit

-- `try_into().unwrap_or(u32::MAX)`
abbrev pub to_u32 : ℕ → ℕ
to_u32 n = min n u32_max

abbrev no_rtt_default : Option ℕ → ℕ → Bool
no_rtt_default none max = max == default_credit
no_rtt_default (some t) max = true

-- The subtractions of `DEFAULT_CREDIT` panic below it.
unfoldable pub assert_invariants : FlowController → Pooled → ℕ → Bool
assert_invariants s p buffer_len =
    leb buffer_len s.max_receive_window
    && (leb s.receive_window s.max_receive_window
        && (leb default_credit s.max_receive_window
            && (leb (s.max_receive_window - default_credit) (spare s.config)
                && (leb (s.max_receive_window - default_credit) p.accumulated
                    && no_rtt_default p.rtt s.max_receive_window))))

-- `rtt.map(|rtt| elapsed < rtt * 2).unwrap_or(false)`
abbrev pub exhausted_fast : Option ℕ → ℕ → Bool
exhausted_fast none elapsed = false
exhausted_fast (some rtt) elapsed = ltb elapsed (rtt * 2)

-- The new maximum of the window, and with it the accumulated windows: doubled, as far as the limit of
-- the connection allows.
abbrev pub new_max : FlowController → Pooled → ℕ
new_max s p =
    min (min (s.max_receive_window * 2) u32_max)
      (to_u32 (s.max_receive_window + (spare s.config - p.accumulated)))

unfoldable pub auto_tune : FlowController → Pooled → Option (FlowController × Pooled)
auto_tune s p =
    if leb (s.max_receive_window + (spare s.config - p.accumulated)) usize_max
      && (leb s.max_receive_window (new_max s p)
          && leb (p.accumulated + (new_max s p - s.max_receive_window)) usize_max)
    then some (
      record s { max_receive_window = new_max s p },
      record p { accumulated = p.accumulated + (new_max s p - s.max_receive_window) },
    )
    else none

-- `max_receive_window - receive_window`, less what is still in the buffer (saturating)
abbrev pub update_size : FlowController → ℕ → ℕ
update_size s buffer_len = (s.max_receive_window - s.receive_window) - to_u32 buffer_len

-- The end of `next_window_update`, on the state that may have been tuned.
unfoldable pub grant : ℕ → ℕ → FlowController → Pooled → Option (Option ℕ × FlowController × Pooled)
unfolding assert_invariants
grant buffer_len now s p =
    let next = update_size s buffer_len in
    let s' = record s { last_window_update = now; receive_window = s.receive_window + next } in
    if leb s.receive_window s.max_receive_window
      && (leb (s.receive_window + next) u32_max && assert_invariants s' p buffer_len)
    then some (some next, s', p)
    else none

abbrev grant_tuned :
    ℕ → ℕ → Option (FlowController × Pooled) → Option (Option ℕ × FlowController × Pooled)
grant_tuned buffer_len now none = none
grant_tuned buffer_len now (some (s, p)) = grant buffer_len now s p

unfoldable pub next_window_update :
    FlowController → Pooled → ℕ → ℕ → ℕ → Option (Option ℕ × FlowController × Pooled)
unfolding assert_invariants auto_tune grant
next_window_update s p buffer_len elapsed now =
    if assert_invariants s p buffer_len
    then (if ltb (update_size s buffer_len) (s.max_receive_window / 2)
        then some (none, s, p)
        else if exhausted_fast p.rtt elapsed
        then grant_tuned buffer_len now (auto_tune s p)
        else grant buffer_len now s p)
    else none

unfoldable pub consume_send_window : FlowController → ℕ → Option FlowController
consume_send_window s i =
    if leb i s.send_window then some (record s { send_window = s.send_window - i }) else none

unfoldable pub increase_send_window_by : FlowController → ℕ → Option FlowController
increase_send_window_by s i =
    if leb (s.send_window + i) u32_max
    then some (record s { send_window = s.send_window + i })
    else none

unfoldable pub consume_receive_window : FlowController → ℕ → Option FlowController
consume_receive_window s i =
    if leb i s.receive_window
    then some (record s { receive_window = s.receive_window - i })
    else none

-- `Drop for FlowController`
unfoldable pub drop : FlowController → Pooled → Option Pooled
drop s p =
    if leb default_credit s.max_receive_window
      && leb (s.max_receive_window - default_credit) p.accumulated
    then some (record p { accumulated = p.accumulated - (s.max_receive_window - default_credit) })
    else none
