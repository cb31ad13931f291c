-- ===== src/Pump/Writing.antt =====
-- What a caller of send and the queue of internal/copilot/conn_pump.go can rely on.
use copilot_openai_proxy.Base.{
  ◌≡◌, refl, sym, ap, ◌∙◌, ◌⊎◌, inl, inr, Bool, true, false, not, ◌||◌, none, some, List, [], ◌∷◌,
  ◌++◌, map, length, arith, Bool-cases, if◌then◌else◌,
}
use mathlib.Core.List.{append-nil, append_assoc}
use mathlib.Core.Path.{subst}
use mathlib.Core.Bool.{false≢true}
use copilot_openai_proxy.Errors.{Err, is_nil}
use copilot_openai_proxy.Pump.{
  Pump, WriteRequest, close, put_result, write_next, Queued, queued, closed_first, ended_first,
  Answered, answered, seen_closed, ended, send_result,
}
use copilot_openai_proxy.Pump.Steps.{
  Reach, Orderly, List-cases, Failed, none_failed, one_failed, succeeded, Reach-Orderly,
}

-- The list has the element.
abbrev pub Has : {A : Type 0} → A → List A → Type 0
Has x [] = ⊥
Has x (y ∷ ys) = (x ≡ y) ⊎ Has x ys

-- What the selects of a send can yield, whose request this is, in a state of the pump: a result that
-- the writer has put into its channel, the end of its context, which is an error, or a closed pump.
pub data Yields (p : Pump) (req : WriteRequest) : Queued → Answered → Type 0 where
  result : (e : Err) → Has (req, e) p.results → Yields p req queued (answered e)
  late_result : (e : Err) → Has (req, e) p.results → Yields p req queued (seen_closed (some e))
  no_result : p.close_ch ≡ true → Yields p req queued (seen_closed none)
  expired : (e : Err) → is_nil e ≡ false → Yields p req queued (ended e)
  closed_before : (a : Answered) → p.close_ch ≡ true → Yields p req closed_first a
  expired_before : (e : Err) (a : Answered) → is_nil e ≡ false → Yields p req (ended_first e) a

not-Failed :
    {b : Bool} (req : WriteRequest) {fs : List (WriteRequest × Err)}
    → Failed b fs
    → Has (req, Err.nil) fs
    → ⊥
not-Failed req none_failed h = h
not-Failed req (one_failed other e bad done) (inl same) =
    absurd (false≢true (sym bad ∙ ap (λ (r : WriteRequest × Err). is_nil r.1) (sym same)))
not-Failed req (one_failed other e bad done) (inr h) = h

on_wire :
    {b : Bool} (req : WriteRequest) (wire : List WriteRequest) {fs : List (WriteRequest × Err)}
    → Failed b fs
    → Has (req, Err.nil) (map succeeded wire ++ fs)
    → Has req wire
on_wire req [] f h = absurd (not-Failed req f h)
on_wire req (w ∷ wire) f (inl same) = inl (ap (λ (r : WriteRequest × Err). r.0) same)
on_wire req (w ∷ wire) f (inr h) = inr (on_wire req wire f h)

nil_result-wire :
    {p : Pump} (req : WriteRequest) (e : Err)
    → Orderly p
    → Has (req, e) p.results
    → e ≡ Err.nil
    → Has req p.wire
nil_result-wire {p} req e v h fine = on_wire req p.wire v.failed (rw v.answers at (rw fine at h))

-- When send returns without an error, in any state that a pump can reach, its message is on the wire.
pub sent-wire :
    {p : Pump} (req : WriteRequest) (q : Queued) (a : Answered)
    → Reach p
    → Yields p req q a
    → send_result q a ≡ Err.nil
    → Has req p.wire
unfolding send_result
sent-wire req q a r (result e h) fine = nil_result-wire req e (Reach-Orderly r) h fine
sent-wire req q a r (late_result e h) fine = nil_result-wire req e (Reach-Orderly r) h fine
sent-wire req q a r (no_result shut) fine = cc
sent-wire req q a r (expired e bad) fine = absurd (false≢true (sym bad ∙ ap is_nil fine))
sent-wire req q a r (closed_before a' shut) fine = cc
sent-wire req q a r (expired_before e a' bad) fine = absurd (false≢true (sym bad ∙ ap is_nil fine))

-- The writer's loop while it finds nothing but requests, with what sendEvent gives for each.
unfoldable pub write_all : List Err → Pump → Pump
unfolding write_next
write_all [] p = p
write_all (e ∷ es) p = let rest = write_all es (write_next e p) in if p.writer_done then p else rest

write_all_stopped : (es : List Err) (p : Pump) → p.writer_done ≡ true → write_all es p ≡ p
unfolding write_all
write_all_stopped [] p h = refl
write_all_stopped (e ∷ es) p h = ground arith

failing :
    (req : WriteRequest) (e : Err) (p : Pump)
    → is_nil e ≡ false
    → ((put_result req e p).writer_done ≡ true) × ((put_result req e p).close_ch ≡ true)
unfolding put_result close
failing req e p h = ground arith

succeeding :
    (req : WriteRequest) (e : Err) (p : Pump)
    → is_nil e ≡ true
    → ((put_result req e p).writes ≡ p.writes)
      × ((put_result req e p).wire ≡ p.wire ++ req ∷ [])
      × ((put_result req e p).writer_done ≡ p.writer_done)
      × ((put_result req e p).close_ch ≡ p.close_ch)
unfolding put_result
succeeding req e p h = ground arith

empty_queue : {A : Type 0} (l : List A) → 0 ≡ length l → l ≡ []
empty_queue [] h = refl
empty_queue (x ∷ xs) h = absurd (omega arith)

-- One of the errors is one.
abbrev pub any_error : List Err → Bool
any_error [] = false
any_error (e ∷ es) = not (is_nil e) || any_error es

-- With these outcomes of the writes, all that waits in the first state is on the wire of the second one,
-- the writer goes on, and the pump is closed only if it was before; or a write failed, and the pump is
-- closed.
abbrev pub Drained : List Err → Pump → Pump → Type 0
Drained es p q =
    ((any_error es ≡ true) × (q.close_ch ≡ true))
    ⊎ ((q.writes ≡ [])
        × (q.wire ≡ p.wire ++ p.writes)
        × (q.writer_done ≡ false)
        × (q.close_ch ≡ p.close_ch))

turn :
    (e : Err) (es : List Err) (p : Pump)
    → p.writer_done ≡ false
    → write_all (e ∷ es) p ≡ write_all es (write_next e p)
unfolding write_all
turn e es p h = ap (λ (b : Bool). if b then p else write_all es (write_next e p)) h

-- A request that is written moves from the queue to the end of the wire.
Drained-written :
    (e : Err) (es : List Err) (req : WriteRequest) (rest : List WriteRequest) (p p' q : Pump)
    → p.writes ≡ req ∷ rest
    → p'.writes ≡ rest
    → p'.wire ≡ p.wire ++ req ∷ []
    → p'.close_ch ≡ p.close_ch
    → Drained es p' q
    → Drained (e ∷ es) p q
Drained-written e es req rest p p' q waiting left written unclosed (inl (bad, shut)) =
    inl (ground (arith, bad), shut)
Drained-written e es req rest p p' q waiting left written unclosed
      (inr (empty, wire, running, same)) =
    inr (
      empty,
      wire ∙ rw (left, written, waiting) (append_assoc p.wire (req ∷ []) rest),
      running,
      same ∙ unclosed,
    )

Drained-failed :
    (e : Err) (es : List Err) (req : WriteRequest) (p p' : Pump)
    → p.writer_done ≡ false
    → write_next e p ≡ put_result req e p'
    → is_nil e ≡ false
    → Drained (e ∷ es) p (write_all (e ∷ es) p)
Drained-failed e es req p p' running step bad =
    let (done, shut) = failing req e p' bad in
    subst (Drained (e ∷ es) p)
      (sym (
        turn e es p running
        ∙ ap (write_all es) step
        ∙ write_all_stopped es (put_result req e p') done))
      (inl (ground (arith, bad), shut))

-- From any state whose writer runs, with one turn of the writer for each request that waits: either a
-- write failed and the pump is closed, or all the requests are on the wire, behind what was there and in
-- their order, the writer goes on, and the pump is closed only if it was before. So where no write
-- fails, everything is written.
pub write_all-Drained :
    (es : List Err) (p : Pump)
    → p.writer_done ≡ false
    → length es ≡ length p.writes
    → Drained es p (write_all es p)
unfolding write_all
write_all-Drained [] p running h =
    let empty = empty_queue p.writes h in
    inr (empty, rw empty (sym (append-nil p.wire)), running, refl)
write_all-Drained (e ∷ es) p running h = elim (List-cases p.writes) [
  | inl empty ↦ absurd (omega (arith, ap length empty))
  | inr (req, rest, waiting) ↦
      let p' = record p { writes = rest } in
      let step : write_next e p ≡ put_result req e p' = rw (waiting, write_next) refl in
      elim (Bool-cases (is_nil e)) [
        | inr bad ↦ Drained-failed e es req p p' running step bad
        | inl fine ↦
            let (left, written, goes_on, unclosed) = succeeding req e p' fine in
            let left' = ap (λ (q : Pump). q.writes) step ∙ left in
            let ih =
              write_all-Drained es (write_next e p)
                (ap (λ (q : Pump). q.writer_done) step ∙ goes_on ∙ running)
                (omega (arith, ap length waiting, ap length left')) in
            subst (Drained (e ∷ es) p) (sym (turn e es p running)) (
              Drained-written e es req rest p (write_next e p) (write_all es (write_next e p))
                waiting left' (ap (λ (q : Pump). q.wire) step ∙ written)
                (ap (λ (q : Pump). q.close_ch) step ∙ unclosed) ih)
      ]
]
