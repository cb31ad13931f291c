-- ===== src/Pump/Refines.antt =====
-- What a pump of internal/copilot/conn_pump.go promises its callers, without its channels and goroutines.
use copilot_openai_proxy.Base.{
  ◌≡◌, refl, sym, ap, ◌⊎◌, inl, inr, Bool, true, false, not, List, [], ◌∷◌, ◌++◌, length, arith,
  if_cases,
}
use mathlib.Core.Path.{subst}
use copilot_openai_proxy.Errors.{Err, is_nil}
use copilot_openai_proxy.Pump.{
  Pump, WriteRequest, close, enqueue, put_result, write_next, ping, stop_writer,
}
use copilot_openai_proxy.Pump.Steps.{
  Step, queues, writes, pings, stops, closes, Reach, start, next, List-cases,
}

-- A queue of messages to the upstream: all that were submitted, those delivered, those that wait, and
-- whether the queue is open.
pub record Delivery : Type 0 where
  pub submitted : List WriteRequest
  pub delivered : List WriteRequest
  pub waiting : List WriteRequest
  pub is_open : Bool

abbrev pub nothing_submitted : Delivery
nothing_submitted = record { submitted = []; delivered = []; waiting = []; is_open = true }

-- A message is submitted under the next number; the oldest one that waits is delivered, or rejected,
-- which closes the queue for good; or the queue is closed.
pub data Delivers : Delivery → Delivery → Type 0 where
  submit :
      (d : Delivery) (req : WriteRequest)
      → req.0 ≡ length d.submitted
      → Delivers d
          (record d { submitted = d.submitted ++ req ∷ []; waiting = d.waiting ++ req ∷ [] })
  deliver :
      (d : Delivery) (req : WriteRequest) (rest : List WriteRequest)
      → d.waiting ≡ req ∷ rest
      → Delivers d (record d { delivered = d.delivered ++ req ∷ []; waiting = rest })
  reject :
      (d : Delivery) (req : WriteRequest) (rest : List WriteRequest)
      → d.waiting ≡ req ∷ rest
      → Delivers d (record d { waiting = rest; is_open = false })
  shut : (d : Delivery) → Delivers d (record d { is_open = false })

pub data Runs (d : Delivery) : Delivery → Type 0 where
  done : Runs d d
  then_delivers : {e f : Delivery} → Runs d e → Delivers e f → Runs d f

abbrev pub view : Pump → Delivery
view p = record {
  submitted = p.issued;
  delivered = p.wire;
  waiting = p.writes;
  is_open = not p.close_ch;
}

-- At most one step of the queue.
abbrev Follows : Delivery → Delivery → Type 0
Follows d e = (e ≡ d) ⊎ Delivers d e

close-view : (p : Pump) → view (close p) ≡ record (view p) { is_open = false }
unfolding close
close-view p = ground arith

put_result-Follows :
    (req : WriteRequest) (rest : List WriteRequest) (e : Err) (p : Pump)
    → p.writes ≡ req ∷ rest
    → Delivers (view p) (view (put_result req e (record p { writes = rest })))
unfolding put_result close
put_result-Follows req rest e p waiting =
    if_cases (λ (q : Pump). Delivers (view p) (view q)) (is_nil e) _ _
      (λ fine. deliver (view p) req rest waiting)
      (λ bad.
        if_cases (λ (q : Pump). Delivers (view p) (view (record q { writer_done = true })))
          p.close_ch _ _
          (λ closed.
            subst
              (λ (b : Bool). Delivers (view p) (record (view p) { waiting = rest; is_open = b }))
              (sym (ap not closed)) (reject (view p) req rest waiting))
          (λ open_still. reject (view p) req rest waiting))

write_next-nil : (e : Err) (p : Pump) → p.writes ≡ [] → write_next e p ≡ p
unfolding write_next
write_next-nil e p empty =
    ap
      (λ (l : List WriteRequest). elim l as (λ _. Pump) [
        | [] ↦ p
        | req ∷ rest ↦ put_result req e (record p { writes = rest })
      ])
      empty

Step-Follows : {p q : Pump} → Step p q → Follows (view p) (view q)
unfolding enqueue write_next ping stop_writer
Step-Follows (queues p message room) = inr (submit (view p) (length p.issued, message) refl)
Step-Follows (writes p e running) = elim (List-cases p.writes) [
  | inl empty ↦ inl (ap view (write_next-nil e p empty))
  | inr (req, rest, waiting) ↦
      let step : write_next e p ≡ put_result req e (record p { writes = rest }) =
        rw (waiting, write_next) refl in
      inr (
        subst (λ (q : Pump). Delivers (view p) (view q)) (sym step)
          (put_result-Follows req rest e p waiting))
]
Step-Follows (pings p e running) =
    if_cases (λ (q : Pump). Follows (view p) (view q)) (is_nil e) _ _ (λ fine. inl refl)
      (λ bad. inr (subst (Delivers (view p)) (sym (close-view p)) (shut (view p))))
Step-Follows (stops p running closed) = inl refl
Step-Follows (closes p) = inr (subst (Delivers (view p)) (sym (close-view p)) (shut (view p)))

follow : {d e f : Delivery} → Runs d e → Follows e f → Runs d f
follow r (inl same) = subst (Runs _) (sym same) r
follow r (inr step) = then_delivers r step

-- Whatever its goroutines do, and in whatever order, a pump is a queue that delivers what it is given
-- in order: every state that it can reach, without the results and the writer's state, is one that
-- submitting, delivering the oldest, rejecting the oldest and closing, or closing lead to.
pub Reach-Runs : {p : Pump} → Reach p → Runs nothing_submitted (view p)
Reach-Runs start = done
Reach-Runs (next r st) = follow (Reach-Runs r) (Step-Follows st)
