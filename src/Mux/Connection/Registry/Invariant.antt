-- ===== src/Mux/Connection/Registry/Invariant.antt =====
-- mux/mux/src/connection/active.rs: the invariant of the registry, kept by each of its operations.
use tlsn_utils.Base.{
  ℕ, ◌≤◌, ◌≡◌, refl, sym, subst, ◌∙◌, ap, Bool, true, false, Option, none, some, List, [], ◌∷◌,
  ◌++◌, leb, length, All, arith, inl, inr, Bool-cases,
}
use tlsn_utils.Mux.Header.{StreamId}
use tlsn_utils.Mux.Stream.{State}
use tlsn_utils.Mux.Connection.IdMap.{lookup, remove, length-remove, length-insert}
use tlsn_utils.Mux.Connection.Registry.{
  Registry, strong_count, is_held, reset_at, handle_peer_reset, adopt_at, try_claim_slot,
  new_stream, stream_at, close_and_wake, wake_slot_waiters, register_slot_waker, on_drop_stream,
  drop_at, close_frame, owe, claimed, adopt_or_claim, poll_activate, Activated, active_slots,
}
use tlsn_utils.Mux.Connection.Registry.Links.{
  IsHeld, IsLinked, IsLinked-move, IsLinked-create, IsLinked-join, IsLinked-adopt, IsLinked-remove,
  IsLinked-forget,
}

-- The streams that buffer data of the peer are no more than the configuration allows, no identifier is
-- both active and inactive, and each handle shares the cell of its identifier.
pub record IsRegistry (r : Registry) : Type 0 where
  pub bounded : length r.streams ≤ r.config.max_num_streams
  pub links : IsLinked r.streams r.inactive r.handles

pub handle_peer_reset-IsRegistry :
    (r : Registry) (id : StreamId) → IsRegistry r → IsRegistry (handle_peer_reset r id)
unfolding handle_peer_reset
handle_peer_reset-IsRegistry r id v = go (lookup id r.streams)
  where
    go : (found : Option ℕ) → IsRegistry (reset_at r found)
    go none = v
    go (some addr) = record { bounded = v.bounded; links = v.links }

pub new_stream-IsRegistry :
    (now : ℕ) (id : StreamId) (r : Registry) → IsRegistry r → IsRegistry (new_stream now id r)
unfolding new_stream
new_stream-IsRegistry now id r v = go (lookup id r.streams) (lookup id r.inactive) refl refl
  where
    go :
        (s i : Option ℕ)
        → lookup id r.streams ≡ s
        → lookup id r.inactive ≡ i
        → IsRegistry (stream_at now id r s i)
    go (some addr) i e f = record {
      bounded = v.bounded;
      links = IsLinked-join r.streams r.inactive r.handles v.links id addr (inl e);
    }
    go none (some addr) e f = record {
      bounded = v.bounded;
      links = IsLinked-join r.streams r.inactive r.handles v.links id addr (inr f);
    }
    go none none e f = record {
      bounded = v.bounded;
      links = IsLinked-create r.streams r.inactive r.handles v.links id r.next_cell e f;
    }

not_held : (r : Registry) (addr : ℕ) → is_held r (some addr) ≡ false → strong_count r addr ≤ 1
not_held r addr e = ground arith

owe-IsRegistry :
    (id : StreamId) (frame : Option _) (r : Registry) → IsRegistry r → IsRegistry (owe id frame r)
unfolding wake_slot_waiters
owe-IsRegistry id none r v = record { bounded = v.bounded; links = v.links }
owe-IsRegistry id (some f) r v = record { bounded = v.bounded; links = v.links }

drop_at-IsRegistry :
    (id : StreamId) (r : Registry) (found : Option ℕ)
    → IsRegistry r
    → lookup id r.streams ≡ found
    → is_held r found ≡ false
    → is_held r (lookup id r.inactive) ≡ false
    → IsRegistry (drop_at id r found)
unfolding close_and_wake
drop_at-IsRegistry id r none v e f g = record {
  bounded = v.bounded;
  links =
      IsLinked-forget r.streams r.inactive r.handles v.links id e
        λ addr h. not_held r addr (ap (is_held r) (sym h) ∙ g);
}
drop_at-IsRegistry id r (some addr) v e f g =
    owe-IsRegistry id (close_frame id ((r.cells addr).state))
      (close_and_wake State.closed addr (record r { streams = remove id r.streams }))
      (record {
        bounded = omega (arith, length-remove id r.streams, v.bounded);
        links =
            IsLinked-remove r.streams r.inactive r.handles v.links id addr e (not_held r addr f);
      })

pub on_drop_stream-IsRegistry :
    (id : StreamId) (r : Registry) → IsRegistry r → IsRegistry (on_drop_stream id r)
unfolding on_drop_stream
on_drop_stream-IsRegistry id r v = elim (Bool-cases (is_held r (lookup id r.streams))) [
  | inl e ↦ rw e v
  | inr e ↦ elim (Bool-cases (is_held r (lookup id r.inactive))) [
    | inl f ↦ rw (e, f) v
    | inr f ↦ rw (e, f) (drop_at-IsRegistry id r (lookup id r.streams) v refl e f)
  ]
]

module _ {A : Type 0} (P : A → Type 0) where
  pub All-at : (before after : List A) (x : A) → All P (before ++ (x ∷ after)) → P x
  All-at [] after x h = h.0
  All-at (b ∷ before) after x h = All-at before after x h.1

  All-replace :
      (before after : List A) (x y : A)
      → All P (before ++ (x ∷ after))
      → P y
      → All P (before ++ (y ∷ after))
  All-replace [] after x y h k = (k, h.1)
  All-replace (b ∷ before) after x y h k = (h.0, All-replace before after x y h.1 k)

  All-without :
      (before after : List A) (x : A) → All P (before ++ (x ∷ after)) → All P (before ++ after)
  All-without [] after x h = h.1
  All-without (b ∷ before) after x h = (h.0, All-without before after x h.1)

-- The registry once the handle between `before` and `after` has the address and registry of a result.
abbrev pub with_handle :
    List (StreamId × ℕ) → StreamId → List (StreamId × ℕ) → Activated × ℕ × Registry → Registry
with_handle before id after (polled, addr, r) = record r {
  handles = before ++ ((id, addr) ∷ after);
}

module _ (before after : List (StreamId × ℕ)) (id : StreamId) (addr : ℕ) (r : Registry)
    (v : IsRegistry r) (e : r.handles ≡ before ++ ((id, addr) ∷ after)) where
  handles-IsHeld : All (IsHeld r.streams r.inactive) (before ++ ((id, addr) ∷ after))
  handles-IsHeld = subst (All (IsHeld r.streams r.inactive)) e v.links.held

  handles-IsLinked : IsLinked r.streams r.inactive (before ++ ((id, addr) ∷ after))
  handles-IsLinked = record { apart = v.links.apart; held = handles-IsHeld }

  claimed-IsRegistry :
      (waker : ℕ) (sender_closed : Bool)
      → lookup id r.streams ≡ none
      → IsRegistry (
          with_handle before id after (claimed waker sender_closed addr (try_claim_slot r id addr)))
  unfolding try_claim_slot register_slot_waker
  claimed-IsRegistry waker sender_closed f =
      elim (Bool-cases (leb r.config.max_num_streams (active_slots r))) [
        | inl full ↦ rw full (refused sender_closed)
        | inr free ↦ rw free (record {
          bounded = ground (arith, length-insert id addr r.streams);
          links =
              IsLinked-move r.streams r.inactive (before ++ ((id, addr) ∷ after)) handles-IsLinked
                id addr f
                (inactive_here
                  (All-at (IsHeld r.streams r.inactive) before after (id, addr) handles-IsHeld));
        })
      ]
    where
      refused :
          (closed : Bool)
          → IsRegistry (with_handle before id after (claimed waker closed addr (false, r)))
      refused true = record { bounded = v.bounded; links = handles-IsLinked }
      refused false = record { bounded = v.bounded; links = handles-IsLinked }

      inactive_here : IsHeld r.streams r.inactive (id, addr) → lookup id r.inactive ≡ some addr
      inactive_here (inl h) = cc
      inactive_here (inr h) = h

  pub poll_activate-IsRegistry :
      (waker : ℕ) (sender_closed : Bool)
      → IsRegistry (with_handle before id after (poll_activate waker sender_closed id addr r))
  unfolding poll_activate
  poll_activate-IsRegistry waker sender_closed = elim (Bool-cases ((r.cells addr).activated)) [
    | inl active ↦ rw active (record { bounded = v.bounded; links = handles-IsLinked })
    | inr inactive ↦ rw inactive (go (lookup id r.streams) refl)
  ]
    where
      go :
          (found : Option ℕ)
          → lookup id r.streams ≡ found
          → IsRegistry (
              with_handle before id after
                (adopt_or_claim waker sender_closed id addr (adopt_at r id found)))
      go none f = claimed-IsRegistry waker sender_closed f
      go (some addr') f = record {
        bounded = v.bounded;
        links =
            IsLinked-adopt r.streams r.inactive (before ++ ((id, addr') ∷ after))
              (record {
                apart = v.links.apart;
                held =
                    All-replace (IsHeld r.streams r.inactive) before after (id, addr) (id, addr')
                      handles-IsHeld (inl f);
              })
              id addr' f;
      }

  pub release-IsRegistry : IsRegistry (record r { handles = before ++ after })
  release-IsRegistry = record {
    bounded = v.bounded;
    links = record {
      apart = v.links.apart;
      held = All-without (IsHeld r.streams r.inactive) before after (id, addr) handles-IsHeld;
    };
  }
