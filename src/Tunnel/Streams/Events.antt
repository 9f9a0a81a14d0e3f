-- ===== src/Tunnel/Streams/Events.antt =====
-- Which events the connections of a proxy report.
use chisel_uds.Prelude.{
  ℕ, zero, suc, ◌+◌, Text, Bool, true, false, some, List, [], ◌∷◌, ◌==◌, ◌≤◌, ◌<◌, if◌then◌else◌,
  ◌≡◌, refl, arith, inl, inr, Option-cases, ◌&&◌, leb, subst,
}
use chisel_uds.Settings.Remote.Types.{Remote}
use chisel_uds.Tunnel.Streams.{
  StreamState, StreamEvent, Streams, Action, accept, start, report_open, fail, finish, take_out,
  step, Reachable, begin, next, no_streams,
}

-- how often a number stands in a list
abbrev occurrences : ℕ → List ℕ → ℕ
occurrences n [] = 0
occurrences n (c ∷ rest) = (if c == n then 1 else 0) + occurrences n rest

take_out-occurrences :
    (c n : ℕ) (l others : List ℕ)
    → take_out c l ≡ some others
    → occurrences n l ≡ (if c == n then 1 else 0) + occurrences n others
unfolding take_out
take_out-occurrences c n [] others h = absurd cc
take_out-occurrences c n (d ∷ rest) others h = elim (Option-cases (take_out c rest)) [
  | inl e ↦ ground arith
  | inr (more, e) ↦ ground (arith, take_out-occurrences c n rest more e)
]

same : {s t : Streams} → some s ≡ some t → s ≡ t
same h = cc

-- how many events of a kind a list holds for a connection
abbrev pub is_opened : StreamState → Bool
is_opened StreamState.accepted = false
is_opened StreamState.opened = true
is_opened StreamState.error = false
is_opened StreamState.closed = false

abbrev pub is_end : StreamState → Bool
is_end StreamState.accepted = false
is_end StreamState.opened = false
is_end StreamState.error = true
is_end StreamState.closed = true

abbrev is_accepted : StreamState → Bool
is_accepted StreamState.accepted = true
is_accepted StreamState.opened = false
is_accepted StreamState.error = false
is_accepted StreamState.closed = false

-- The number of events of a kind about the connection `n`.
pub reports : (StreamState → Bool) → ℕ → List StreamEvent → ℕ
reports kind n [] = 0
reports kind n (e ∷ rest) = (if kind e.state && e.conn_id == n then 1 else 0) + reports kind n rest

-- The number of events of a kind.
pub total : (StreamState → Bool) → List StreamEvent → ℕ
total kind [] = 0
total kind (e ∷ rest) = (if kind e.state then 1 else 0) + total kind rest

-- Each number up to the count stands once among the numbered and the reported connections; what was
-- opened runs or has ended; and each accepted connection waits or has a number.
pub record IsConsistent (s : Streams) : Type 0 where
  pub numbering :
      (n : ℕ)
      → occurrences n s.numbered + reports is_opened n s.events
        ≡ (if leb 1 n && leb n s.count then 1 else 0)
  pub ending :
      (n : ℕ) → reports is_opened n s.events ≡ occurrences n s.running + reports is_end n s.events
  pub accepting : total is_accepted s.events ≡ s.count + s.waiting

module _ (session_id : Text) (r : Remote) (accept_protocol : Text) where
  step-IsConsistent :
      (now : ℕ) (a : Action) (s t : Streams)
      → step session_id r accept_protocol now a s ≡ some t
      → IsConsistent s
      → IsConsistent t
  unfolding step reports total
  step-IsConsistent now accept s t h c = subst IsConsistent (same h) (record {
    numbering = λ n. ground (arith, c.numbering n);
    ending = λ n. ground (arith, c.ending n);
    accepting = ground (arith, c.accepting);
  })
  step-IsConsistent now start s t h c = started s.waiting refl
    where
      started : (w : ℕ) → s.waiting ≡ w → IsConsistent t
      started zero e = absurd (ground arith)
      started (suc w) e = subst IsConsistent (same (rw (step, e) at h)) (record {
        numbering = λ n. ground (arith, c.numbering n);
        ending = λ n. ground (arith, c.ending n);
        accepting = ground (arith, c.accepting);
      })
  step-IsConsistent now (report_open cid) s t h c = elim (Option-cases (take_out cid s.numbered)) [
    | inl e ↦ absurd (ground arith)
    | inr (others, e) ↦ subst IsConsistent (same (rw (step, e) at h)) (record {
      numbering =
          λ n. ground (arith, c.numbering n, take_out-occurrences cid n s.numbered others e);
      ending = λ n. ground (arith, c.ending n);
      accepting = ground (arith, c.accepting);
    })
  ]
  step-IsConsistent now (fail cid message) s t h c = elim (Option-cases (take_out cid s.running)) [
    | inl e ↦ absurd (ground arith)
    | inr (others, e) ↦ subst IsConsistent (same (rw (step, e) at h)) (record {
      numbering = λ n. ground (arith, c.numbering n);
      ending = λ n. ground (arith, c.ending n, take_out-occurrences cid n s.running others e);
      accepting = ground (arith, c.accepting);
    })
  ]
  step-IsConsistent now (finish cid) s t h c = elim (Option-cases (take_out cid s.running)) [
    | inl e ↦ absurd (ground arith)
    | inr (others, e) ↦ subst IsConsistent (same (rw (step, e) at h)) (record {
      numbering = λ n. ground (arith, c.numbering n);
      ending = λ n. ground (arith, c.ending n, take_out-occurrences cid n s.running others e);
      accepting = ground (arith, c.accepting);
    })
  ]

  no_streams-IsConsistent : IsConsistent no_streams
  unfolding reports total
  no_streams-IsConsistent = record {
    numbering = λ n. ground arith;
    ending = λ n. refl;
    accepting = refl;
  }

  -- Whatever the order in which the goroutines of a proxy run, each number from 1 to the count belongs
  -- to one connection, what was reported open runs or has ended, and the accept events are as many as
  -- the connections that wait or have a number.
  pub Reachable-IsConsistent :
      (s : Streams) → Reachable session_id r accept_protocol s → IsConsistent s
  Reachable-IsConsistent _ begin = no_streams-IsConsistent
  Reachable-IsConsistent t (next {s = s} now a h e) =
      step-IsConsistent now a s t e (Reachable-IsConsistent s h)

  -- No two connections of a proxy are reported open under one number; a connection ends, with an error
  -- or closed, at most once and only after it was reported open; and its number is at most the count.
  pub reports_once :
      (s : Streams)
      → Reachable session_id r accept_protocol s
      → (n : ℕ)
      → (reports is_opened n s.events ≤ 1)
        × (reports is_end n s.events ≤ reports is_opened n s.events)
        × (s.count < n → reports is_opened n s.events ≡ 0)
  reports_once s h n =
      let c = Reachable-IsConsistent s h in ground (arith, c.numbering n, c.ending n)
