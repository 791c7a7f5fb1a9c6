-- ===== src/Mux/Connection/Driver/Handlers.antt =====
-- mux/mux/src/connection/active.rs: the invariant of an active connection, kept by its frame handlers.
use tlsn_utils.Base.{
  ℕ, ◌≤◌, ◌≡◌, refl, false, ◌||◌, Option, none, some, ltb, leb, length, arith, inl, inr, Bool-cases,
}
use tlsn_utils.Mux.Config.{Config, default_credit}
use tlsn_utils.Mux.Header.{
  StreamId, Tag, data_, window_update_, ping_, go_away_, contains, is_session, syn_flag, rst_flag,
  ack_flag, connection_id,
}
use tlsn_utils.Mux.Frame.{Frame}
use tlsn_utils.Mux.Flow.{FlowController, consume_receive_window, increase_send_window_by}
use tlsn_utils.Mux.Rtt.{Rtt, Action, handle_pong}
use tlsn_utils.Mux.Connection.IdMap.{lookup, same_id, is_some, length-insert}
use tlsn_utils.Mux.Connection.Registry.{reset_at, handle_peer_reset}
use tlsn_utils.Mux.Connection.Registry.Links.{IsLinked-move, IsLinked-open}
use tlsn_utils.Mux.Connection.Registry.Invariant.{IsRegistry}
use tlsn_utils.Mux.Connection.Active.{
  Active, Handled, OnFrame, handled, gone_away, body_len, delivered, deliver, add_stream, open_cell,
  open_stream, data_at, on_data, credited, credit_at, on_window_update, on_ping, by_tag, on_frame,
}

-- The registry is valid, under the configuration `c`, and at most one close frame is owed.
pub record IsActive (c : Config) (a : Active) : Type 0 where
  pub config : a.registry.config ≡ c
  pub registry : IsRegistry a.registry
  pub owed : length a.registry.owed_close ≤ 1

abbrev pub IsKept : Config → Handled → Type 0
IsKept c none = Unit
IsKept c (some (action, a)) = IsActive c a

module _ (c : Config) where
  deliver-IsKept : (f : Frame) (addr : ℕ) (a : Active) → IsActive c a → IsKept c (deliver f addr a)
  unfolding deliver
  deliver-IsKept f addr a v =
      elim (Bool-cases
        (ltb ((a.registry.cells addr).flow_controller.receive_window) (body_len f))) [
          | inl e ↦ simp e v
          | inr e ↦
              rw e
                (go (consume_receive_window ((a.registry.cells addr).flow_controller) (body_len f)))
        ]
    where
      go : (controller : Option FlowController) → IsKept c (delivered f addr a controller)
      go none = tt
      go (some controller) = record {
        config = v.config;
        registry = record { bounded = v.registry.bounded; links = v.registry.links };
        owed = v.owed;
      }

  open_stream-IsActive :
      (now : ℕ) (id : StreamId) (a : Active)
      → IsActive c a
      → lookup id a.registry.streams ≡ none
      → leb a.registry.config.max_num_streams (length a.registry.streams) ≡ false
      → IsActive c (record a { registry = (open_stream now id a.registry).1 })
  unfolding open_stream
  open_stream-IsActive now id a v e room = go (lookup id a.registry.inactive) refl
    where
      go :
          (found : Option ℕ)
          → lookup id a.registry.inactive ≡ found
          → IsActive c
              (record a { registry = (add_stream id (open_cell now id a.registry found)).1 })
      go none f = record {
        config = v.config;
        registry = record {
          bounded = ground (arith, length-insert id a.registry.next_cell a.registry.streams);
          links =
              IsLinked-open a.registry.streams a.registry.inactive a.registry.handles
                v.registry.links id a.registry.next_cell e f;
        };
        owed = v.owed;
      }
      go (some addr) f = record {
        config = v.config;
        registry = record {
          bounded = ground (arith, length-insert id addr a.registry.streams);
          links =
              IsLinked-move a.registry.streams a.registry.inactive a.registry.handles
                v.registry.links id addr e f;
        };
        owed = v.owed;
      }

  data_at-IsKept :
      (now : ℕ) (f : Frame) (a : Active) (found : Option ℕ)
      → IsActive c a
      → lookup f.header.stream_id a.registry.streams ≡ found
      → IsKept c (data_at now f a found)
  data_at-IsKept now f a (some addr) v e = deliver-IsKept f addr a v
  data_at-IsKept now f a none v e = elim (Bool-cases (contains f.header.flags syn_flag)) [
    | inl syn ↦ elim (Bool-cases (ltb default_credit (body_len f))) [
      | inl big ↦ rw (syn, big) v
      | inr small ↦
          elim (Bool-cases (leb a.registry.config.max_num_streams (length a.registry.streams))) [
            | inl full ↦ rw (syn, small, full) v
            | inr room ↦
                rw (syn, small, room)
                  (deliver-IsKept f ((open_stream now f.header.stream_id a.registry).0)
                    (record a { registry = (open_stream now f.header.stream_id a.registry).1 })
                    (open_stream-IsActive now f.header.stream_id a v e room))
          ]
    ]
    | inr other ↦ rw other v
  ]

  reset-IsActive :
      (id : StreamId) (a : Active)
      → IsActive c a
      → IsActive c (record a { registry = handle_peer_reset a.registry id })
  unfolding handle_peer_reset
  reset-IsActive id a v = go (lookup id a.registry.streams)
    where
      go : (found : Option ℕ) → IsActive c (record a { registry = reset_at a.registry found })
      go none = v
      go (some addr) = record {
        config = v.config;
        registry = record { bounded = v.registry.bounded; links = v.registry.links };
        owed = v.owed;
      }

  on_data-IsKept : (now : ℕ) (f : Frame) (a : Active) → IsActive c a → IsKept c (on_data now f a)
  unfolding on_data
  on_data-IsKept now f a v = elim (Bool-cases (contains f.header.flags rst_flag)) [
    | inl reset ↦ rw reset (reset-IsActive f.header.stream_id a v)
    | inr other ↦ elim (Bool-cases (is_session f.header.stream_id)) [
      | inl session ↦ rw (other, session) v
      | inr stream ↦
          rw (other, stream)
            (data_at-IsKept now f a (lookup f.header.stream_id a.registry.streams) v refl)
    ]
  ]

  on_window_update-IsKept :
      (f : Frame) (a : Active) → IsActive c a → IsKept c (on_window_update f a)
  unfolding on_window_update
  on_window_update-IsKept f a v = go (lookup f.header.stream_id a.registry.streams)
    where
      at : (addr : ℕ) (controller : Option FlowController) → IsKept c (credited addr a controller)
      at addr none = tt
      at addr (some controller) = record {
        config = v.config;
        registry = record { bounded = v.registry.bounded; links = v.registry.links };
        owed = v.owed;
      }

      go : (found : Option ℕ) → IsKept c (credit_at f a found)
      go none = v
      go (some addr) =
          at addr
            (increase_send_window_by ((a.registry.cells addr).flow_controller) f.header.length)

  on_ping-IsKept :
      (elapsed : ℕ → ℕ) (now : ℕ) (f : Frame) (a : Active)
      → IsActive c a
      → IsKept c (on_ping elapsed now f a)
  unfolding on_ping
  on_ping-IsKept elapsed now f a v = elim (Bool-cases (contains f.header.flags ack_flag)) [
    | inl e ↦ rw e (go (handle_pong a.registry.rtt f.header.length elapsed now))
    | inr e ↦
        elim (Bool-cases (
          same_id f.header.stream_id connection_id
          || is_some (lookup f.header.stream_id a.registry.streams))) [
            | inl x ↦ rw (e, x) v
            | inr x ↦ rw (e, x) v
          ]
  ]
    where
      go :
          (out : Action × Rtt)
          → IsKept c (some (out.0, record a { registry = record a.registry { rtt = out.1 } }))
      go (action, rtt) = record {
        config = v.config;
        registry = record { bounded = v.registry.bounded; links = v.registry.links };
        owed = v.owed;
      }

  abbrev pub IsAccepted : OnFrame → Type 0
  IsAccepted (handled h) = IsKept c h
  IsAccepted (gone_away e) = Unit

  pub on_frame-IsAccepted :
      (elapsed : ℕ → ℕ) (now : ℕ) (f : Frame) (a : Active)
      → IsActive c a
      → IsAccepted (on_frame elapsed now f a)
  unfolding on_frame
  on_frame-IsAccepted elapsed now f a v = elim (Bool-cases a.terminating) [
    | inl e ↦ simp e v
    | inr e ↦ simp e (go f.header.tag)
  ]
    where
      go : (tag : Tag) → IsAccepted (by_tag elapsed now f a tag)
      go data_ = on_data-IsKept now f a v
      go window_update_ = on_window_update-IsKept f a v
      go ping_ = on_ping-IsKept elapsed now f a v
      go go_away_ = tt
