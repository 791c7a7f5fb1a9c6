-- ===== src/Mux/Frame/Writer/Laws.antt =====
-- mux/mux/src/frame/io.rs: what the writer owes to the transport.
use tlsn_utils.Base.{ℕ, ◌≤◌, ◌<◌, ◌≡◌, List, [], ◌++◌, length, take, drop}
use tlsn_utils.Mux.Frame.Writer.{
  PollWrite, took, WriteState, init, header, body, poisoned, PollReady, ok, Control, give, again,
}

-- The bytes that the state has still to write.
abbrev pub owed : WriteState → List ℕ
owed init = []
owed (header head buffer offset) = drop offset head ++ buffer
owed (body buffer offset) = drop offset buffer
owed poisoned = []

abbrev pub IsWriting : WriteState → Type 0
IsWriting init = Unit
IsWriting (header head buffer offset) = offset ≤ length head
IsWriting (body buffer offset) = offset ≤ length buffer
IsWriting poisoned = ⊥

module _ {T : Type 0} (written : T → List ℕ) where
  -- What a transport that has taken the bytes `written` may answer to `bytes`.
  abbrev pub IsTaken : List ℕ → T → PollWrite × T → Type 0
  IsTaken bytes t (PollWrite.pending, t') = written t' ≡ written t
  IsTaken bytes t (PollWrite.failed, t') = written t' ≡ written t
  IsTaken bytes t (took n, t') = (n ≤ length bytes) × (written t' ≡ written t ++ take n bytes)

  -- The bytes written and those owed are together what they were.
  abbrev pub Kept : WriteState → T → WriteState → T → Type 0
  Kept s t s' t' = written t' ++ owed s' ≡ written t ++ owed s

  abbrev pub IsReady : WriteState → T → PollReady × WriteState × T → Type 0
  IsReady s t (ok, s', t') = (s' ≡ init) × (written t' ≡ written t ++ owed s)
  IsReady s t (PollReady.pending, s', t') = IsWriting s' × Kept s t s' t'
  IsReady s t (PollReady.failed e, s', t') = IsWriting s' × Kept s t s' t'

  abbrev pub IsRound : WriteState → T → Control T → Type 0
  IsRound s t (give item s' t') = IsReady s t (item, s', t')
  IsRound s t (again s' t') = IsWriting s' × Kept s t s' t' × (length (owed s') < length (owed s))
