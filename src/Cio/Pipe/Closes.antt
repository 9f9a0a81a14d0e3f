-- ===== src/Cio/Pipe/Closes.antt =====
-- When a pipe closes its streams, and that it returns.
use chisel_uds.Prelude.{
  ℕ, ◌+◌, ◌≤◌, Bool, true, false, ◌||◌, Option, none, some, ◌≡◌, ◌≢◌, ◌⊎◌, refl, arith,
  if◌then◌else◌, ap, sym, ◌∙◌, Bool-cases, or_true, inl, inr,
}
use chisel_uds.Cio.Pipe.{
  Phase, copies, copied, closed, finished, Copy, Pipe, Effect, CopyStep, moves, ends, does, dones,
  close_once, apply, Step, sends, receives, returns, Reachable, begin, next,
}

-- the goroutine has gone through o.Do
abbrev pub has_closed : Phase → Bool
has_closed copies = false
has_closed copied = false
has_closed closed = true
has_closed finished = true

abbrev pub unfinished : Phase → ℕ
unfinished copies = 1
unfinished copied = 1
unfinished closed = 1
unfinished finished = 0

pub record IsPiped (p : Pipe) : Type 0 where
  once_eq : p.once ≡ (has_closed p.sender.phase || has_closed p.receiver.phase)
  src_eq : p.src_closes ≡ (if p.once then 1 else 0)
  dst_eq : p.dst_closes ≡ (if p.once then 1 else 0)
  pub waiting_eq : p.waiting ≡ unfinished p.sender.phase + unfinished p.receiver.phase
  result_eq :
      (a b : ℕ)
      → p.result ≡ some (a, b)
      → (p.sender.phase ≡ finished)
        × (p.receiver.phase ≡ finished)
        × (a ≡ p.sender.count)
        × (b ≡ p.receiver.count)

-- A goroutine that can step has not finished.
busy : (c d : Copy) (e : Effect) → CopyStep c e d → c.phase ≢ finished
busy c _ _ (moves n q) f = absurd cc
busy c _ _ (ends q) f = absurd cc
busy c _ _ (does q) f = absurd cc
busy c _ _ (dones q) f = absurd cc

-- The streams are closed by the first goroutine that comes to o.Do.
close_once-IsPiped :
    (o : Bool) (p : Pipe)
    → p.once ≡ o
    → (has_closed p.sender.phase || has_closed p.receiver.phase) ≡ true
    → p.src_closes ≡ (if o then 1 else 0)
    → p.dst_closes ≡ (if o then 1 else 0)
    → p.waiting ≡ unfinished p.sender.phase + unfinished p.receiver.phase
    → p.result ≡ none
    → IsPiped (close_once o p)
unfolding close_once
close_once-IsPiped true p o c s d w r = record {
  once_eq = o ∙ sym c;
  src_eq = s ∙ ap (λ x. if x then 1 else 0) (sym o);
  dst_eq = d ∙ ap (λ x. if x then 1 else 0) (sym o);
  waiting_eq = w;
  result_eq = λ a b q. absurd cc;
}
close_once-IsPiped false p o c s d w r = record {
  once_eq = sym c;
  src_eq = ground (arith, s);
  dst_eq = ground (arith, d);
  waiting_eq = w;
  result_eq = λ a b q. absurd cc;
}

-- While a goroutine is busy, Pipe has not returned.
unreturned :
    (p : Pipe)
    → IsPiped p
    → p.sender.phase ≢ finished ⊎ p.receiver.phase ≢ finished
    → p.result ≡ none
unreturned p h (inl f) = by_result p.result refl
  where
    by_result : (r : Option (ℕ × ℕ)) → p.result ≡ r → p.result ≡ none
    by_result none q = q
    by_result (some (a, b)) q = absurd (f (h.result_eq a b q).0)
unreturned p h (inr f) = by_result p.result refl
  where
    by_result : (r : Option (ℕ × ℕ)) → p.result ≡ r → p.result ≡ none
    by_result none q = q
    by_result (some (a, b)) q = absurd (f (h.result_eq a b q).1)

send-IsPiped :
    (p : Pipe) (e : Effect) (c : Copy)
    → CopyStep p.sender e c
    → IsPiped p
    → IsPiped (apply e (record p { sender = c }))
unfolding apply
send-IsPiped p _ _ (moves n q) h = record {
  once_eq = h.once_eq;
  src_eq = h.src_eq;
  dst_eq = h.dst_eq;
  waiting_eq = h.waiting_eq;
  result_eq = λ a b r. absurd (busy p.sender _ _ (moves n q) (h.result_eq a b r).0);
}
send-IsPiped p _ _ (ends q) h = record {
  once_eq = h.once_eq ∙ ap (λ x. has_closed x || has_closed p.receiver.phase) q;
  src_eq = h.src_eq;
  dst_eq = h.dst_eq;
  waiting_eq = h.waiting_eq ∙ ap (λ x. unfinished x + unfinished p.receiver.phase) q;
  result_eq = λ a b r. absurd (busy p.sender _ _ (ends q) (h.result_eq a b r).0);
}
send-IsPiped p _ _ (does q) h =
    close_once-IsPiped p.once (record p { sender = record p.sender { phase = closed } }) refl refl
      h.src_eq h.dst_eq (h.waiting_eq ∙ ap (λ x. unfinished x + unfinished p.receiver.phase) q)
      (unreturned p h (inl (busy p.sender _ _ (does q))))
send-IsPiped p _ _ (dones q) h = record {
  once_eq = h.once_eq ∙ ap (λ x. has_closed x || has_closed p.receiver.phase) q;
  src_eq = h.src_eq;
  dst_eq = h.dst_eq;
  waiting_eq = ground (arith, h.waiting_eq, ap unfinished q);
  result_eq = λ a b r. absurd (busy p.sender _ _ (dones q) (h.result_eq a b r).0);
}

receive-IsPiped :
    (p : Pipe) (e : Effect) (c : Copy)
    → CopyStep p.receiver e c
    → IsPiped p
    → IsPiped (apply e (record p { receiver = c }))
unfolding apply
receive-IsPiped p _ _ (moves n q) h = record {
  once_eq = h.once_eq;
  src_eq = h.src_eq;
  dst_eq = h.dst_eq;
  waiting_eq = h.waiting_eq;
  result_eq = λ a b r. absurd (busy p.receiver _ _ (moves n q) (h.result_eq a b r).1);
}
receive-IsPiped p _ _ (ends q) h = record {
  once_eq = h.once_eq ∙ ap (λ x. has_closed p.sender.phase || has_closed x) q;
  src_eq = h.src_eq;
  dst_eq = h.dst_eq;
  waiting_eq = h.waiting_eq ∙ ap (λ x. unfinished p.sender.phase + unfinished x) q;
  result_eq = λ a b r. absurd (busy p.receiver _ _ (ends q) (h.result_eq a b r).1);
}
receive-IsPiped p _ _ (does q) h =
    close_once-IsPiped p.once (record p { receiver = record p.receiver { phase = closed } }) refl
      (or_true (has_closed p.sender.phase)) h.src_eq h.dst_eq
      (h.waiting_eq ∙ ap (λ x. unfinished p.sender.phase + unfinished x) q)
      (unreturned p h (inr (busy p.receiver _ _ (does q))))
receive-IsPiped p _ _ (dones q) h = record {
  once_eq = h.once_eq ∙ ap (λ x. has_closed p.sender.phase || has_closed x) q;
  src_eq = h.src_eq;
  dst_eq = h.dst_eq;
  waiting_eq = ground (arith, h.waiting_eq, ap unfinished q);
  result_eq = λ a b r. absurd (busy p.receiver _ _ (dones q) (h.result_eq a b r).1);
}

finished-waiting : (s r : Phase) → unfinished s + unfinished r ≡ 0 → (s ≡ finished) × (r ≡ finished)
finished-waiting finished finished e = (refl, refl)
finished-waiting finished copies e = absurd (ground arith)
finished-waiting finished copied e = absurd (ground arith)
finished-waiting finished closed e = absurd (ground arith)
finished-waiting copies r e = absurd (ground arith)
finished-waiting copied r e = absurd (ground arith)
finished-waiting closed r e = absurd (ground arith)

Step-IsPiped : (p q : Pipe) → Step p q → IsPiped p → IsPiped q
Step-IsPiped p _ (sends {e} {c} s) h = send-IsPiped p e c s h
Step-IsPiped p _ (receives {e} {c} s) h = receive-IsPiped p e c s h
Step-IsPiped p _ (returns w r) h = record {
  once_eq = h.once_eq;
  src_eq = h.src_eq;
  dst_eq = h.dst_eq;
  waiting_eq = h.waiting_eq;
  result_eq = λ a b q.
      let (s, t) = finished-waiting p.sender.phase p.receiver.phase (sym h.waiting_eq ∙ w) in
      (s, t, cc, cc);
}

pub Reachable-IsPiped : (p : Pipe) → Reachable p → IsPiped p
Reachable-IsPiped _ begin = record {
  once_eq = refl;
  src_eq = refl;
  dst_eq = refl;
  waiting_eq = refl;
  result_eq = λ a b q. absurd cc;
}
Reachable-IsPiped q (next {p = p} r s) = Step-IsPiped p q s (Reachable-IsPiped p r)

-- However the goroutines of a pipe run, each stream is closed at most once, and both together; and when
-- Pipe has returned, both directions have ended, each stream was closed exactly once, and the result is
-- the number of bytes that each direction moved.
pub closes_streams :
    (p : Pipe)
    → Reachable p
    → (p.src_closes ≤ 1)
      × (p.dst_closes ≡ p.src_closes)
      × ((a b : ℕ)
          → p.result ≡ some (a, b)
          → (p.src_closes ≡ 1)
            × (p.sender ≡ record { phase = finished; count = a })
            × (p.receiver ≡ record { phase = finished; count = b }))
closes_streams p r =
    let h = Reachable-IsPiped p r in
    (
      ground (arith, h.src_eq, Bool-cases p.once),
      h.dst_eq ∙ sym h.src_eq,
      λ a b q.
          let (s, t, u, v) = h.result_eq a b q in
          (
            h.src_eq
                ∙ ap (λ x. if x then 1 else 0)
                    (h.once_eq ∙ ap (λ x. has_closed x || has_closed p.receiver.phase) s),
            cc,
            cc,
          ),
    )
