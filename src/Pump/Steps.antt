-- ===== src/Pump/Steps.antt =====
-- The steps of the goroutines of a pump of internal/copilot/conn_pump.go, and what holds after them.
use copilot_openai_proxy.Base.{
  ◌<◌, ◌≡◌, refl, sym, ap, ◌∙◌, ◌⊎◌, inl, inr, Bool, true, false, List, [], ◌∷◌, ◌++◌, map, length,
  arith, if◌then◌else◌, Bool-cases, if_cases,
}
use mathlib.Core.List.{append-nil, append_assoc, map-append}
use copilot_openai_proxy.Errors.{Err, is_nil}
use copilot_openai_proxy.Outbound.{Outgoing}
use copilot_openai_proxy.Pump.{
  Pump, WriteRequest, new_conn_pump, writes_capacity, close, enqueue, put_result, write_next, ping,
  stop_writer,
}

-- A step of a sender, of the writer, of the ticker, or of what closes the pump: the end of the reader,
-- or of the context. Of the branches of a `select` that are ready, any may be taken.
pub data Step : Pump → Pump → Type 0 where
  queues :
      (p : Pump) (message : Outgoing)
      → length p.writes < writes_capacity
      → Step p (enqueue message p)
  writes : (p : Pump) (e : Err) → p.writer_done ≡ false → Step p (write_next e p)
  pings : (p : Pump) (e : Err) → p.writer_done ≡ false → Step p (ping e p)
  stops : (p : Pump) → p.writer_done ≡ false → p.close_ch ≡ true → Step p (stop_writer p)
  closes : (p : Pump) → Step p (close p)

-- The states of a pump, from its construction on.
pub data Reach : Pump → Type 0 where
  start : Reach new_conn_pump
  next : {p q : Pump} → Reach p → Step p q → Reach q

abbrev pub succeeded : WriteRequest → WriteRequest × Err
succeeded req = (req, Err.nil)

-- The request that failed, if one did: there is none while the writer runs.
pub data Failed (writer_done : Bool) : List (WriteRequest × Err) → Type 0 where
  none_failed : Failed writer_done []
  one_failed :
      (req : WriteRequest) (e : Err)
      → is_nil e ≡ false
      → writer_done ≡ true
      → Failed writer_done ((req, e) ∷ [])

pub record Orderly (p : Pump) : Type 0 where
  pub closed_once : p.conn_closes ≡ (if p.close_ch then 1 else 0)
  pub closed_with_writer : (p.writer_done ≡ false) ⊎ (p.close_ch ≡ true)
  pub failures : List (WriteRequest × Err)
  pub failed : Failed p.writer_done failures
  -- the writer's answers: success for what is on the wire, and then at most one error
  pub answers : p.results ≡ map succeeded p.wire ++ failures
  -- every request that was queued is on the wire, failed or waiting, in this order
  pub in_order : p.issued ≡ p.wire ++ (map (λ r. r.0) failures ++ p.writes)

start-Orderly : Orderly new_conn_pump
start-Orderly = record {
  closed_once = refl;
  closed_with_writer = inl refl;
  failures = [];
  failed = none_failed;
  answers = refl;
  in_order = refl;
}

enqueue-Orderly : (message : Outgoing) {p : Pump} → Orderly p → Orderly (enqueue message p)
unfolding enqueue
enqueue-Orderly message {p} v =
    let req : WriteRequest = (length p.issued, message) in
    let fs = map (λ (r : WriteRequest × Err). r.0) v.failures in
    record {
      closed_once = v.closed_once;
      closed_with_writer = v.closed_with_writer;
      failures = v.failures;
      failed = v.failed;
      answers = v.answers;
      in_order =
          ap (λ (l : List WriteRequest). l ++ req ∷ []) v.in_order
          ∙ append_assoc p.wire (fs ++ p.writes) (req ∷ [])
          ∙ ap (λ (l : List WriteRequest). p.wire ++ l) (append_assoc fs p.writes (req ∷ []));
    }

close-Orderly : {p : Pump} → Orderly p → Orderly (close p)
unfolding close
close-Orderly {p} v =
    if_cases Orderly p.close_ch _ _ (λ shut. v)
      (λ not_yet. record {
        closed_once = ground (arith, v.closed_once);
        closed_with_writer = inr refl;
        failures = v.failures;
        failed = v.failed;
        answers = v.answers;
        in_order = v.in_order;
      })

-- The writer runs to its end only with the pump closed.
finish-Orderly : {p : Pump} → p.close_ch ≡ true → Orderly p → Orderly (stop_writer p)
unfolding stop_writer
finish-Orderly {p} shut v = record {
  closed_once = v.closed_once;
  closed_with_writer = inr shut;
  failures = v.failures;
  failed = done v.failed;
  answers = v.answers;
  in_order = v.in_order;
}
  where
    done : {b : Bool} {fs : List (WriteRequest × Err)} → Failed b fs → Failed true fs
    done none_failed = none_failed
    done (one_failed req e bad h) = one_failed req e bad refl

pub close-close_ch : (p : Pump) → (close p).close_ch ≡ true
unfolding close
close-close_ch p = ground arith

no_failure : {b : Bool} {fs : List (WriteRequest × Err)} → Failed b fs → b ≡ false → fs ≡ []
no_failure none_failed h = refl
no_failure (one_failed req e bad done) h = cc

pub is_nil-eq : (e : Err) → is_nil e ≡ true → e ≡ Err.nil
is_nil-eq Err.nil h = refl
is_nil-eq _ h = cc

pub List-cases : {A : Type 0} (l : List A) → (l ≡ []) ⊎ ((x : A) × (xs : List A) × (l ≡ x ∷ xs))
List-cases [] = inl refl
List-cases (x ∷ xs) = inr (x, xs, refl)

module _ {p : Pump} (running : p.writer_done ≡ false) (v : Orderly p) where
  no_failures : v.failures ≡ []
  no_failures = no_failure v.failed running

  answered_so_far : p.results ≡ map succeeded p.wire
  answered_so_far = v.answers ∙ rw no_failures (append-nil (map succeeded p.wire))

  in_line : p.issued ≡ p.wire ++ p.writes
  in_line = rw no_failures at v.in_order

  module _ (req : WriteRequest) (rest : List WriteRequest) (waiting : p.writes ≡ req ∷ rest) where
    -- The oldest request, once it is taken.
    taken : p.issued ≡ p.wire ++ req ∷ rest
    taken = rw waiting at in_line

    written-Orderly : Orderly (put_result req Err.nil (record p { writes = rest }))
    unfolding put_result
    written-Orderly = record {
      closed_once = v.closed_once;
      closed_with_writer = v.closed_with_writer;
      failures = [];
      failed = none_failed;
      answers =
          ap (λ (l : List (WriteRequest × Err)). l ++ succeeded req ∷ []) answered_so_far
          ∙ sym (map-append succeeded p.wire (req ∷ []))
          ∙ sym (append-nil _);
      in_order = taken ∙ sym (append_assoc p.wire (req ∷ []) rest);
    }

    failed-Orderly :
        (e : Err) → is_nil e ≡ false → Orderly (put_result req e (record p { writes = rest }))
    unfolding put_result close
    failed-Orderly e bad =
        rw (bad, put_result)
          (if_cases (λ (q : Pump). Orderly (record q { writer_done = true })) p.close_ch _ _
            (λ shut. record {
              closed_once = v.closed_once;
              closed_with_writer = inr shut;
              failures = (req, e) ∷ [];
              failed = one_failed req e bad refl;
              answers = ap (λ (l : List (WriteRequest × Err)). l ++ (req, e) ∷ []) answered_so_far;
              in_order = taken;
            })
            (λ not_yet. record {
              closed_once = ground (arith, v.closed_once);
              closed_with_writer = inr refl;
              failures = (req, e) ∷ [];
              failed = one_failed req e bad refl;
              answers = ap (λ (l : List (WriteRequest × Err)). l ++ (req, e) ∷ []) answered_so_far;
              in_order = taken;
            }))

    put_result-Orderly : (e : Err) → Orderly (put_result req e (record p { writes = rest }))
    put_result-Orderly e = elim (Bool-cases (is_nil e)) [
      | inl fine ↦ rw (is_nil-eq e fine) written-Orderly
      | inr bad ↦ failed-Orderly e bad
    ]

  pub write_next-Orderly : (e : Err) → Orderly (write_next e p)
  unfolding write_next
  write_next-Orderly e = elim (List-cases p.writes) [
    | inl empty ↦ rw (empty, write_next) v
    | inr (req, rest, waiting) ↦ rw (waiting, write_next) (put_result-Orderly req rest waiting e)
  ]

ping-Orderly : (e : Err) {p : Pump} → Orderly p → Orderly (ping e p)
unfolding ping stop_writer
ping-Orderly e {p} v =
    if_cases Orderly (is_nil e) p (stop_writer (close p)) (λ fine. v)
      (λ bad. finish-Orderly (close-close_ch p) (close-Orderly v))

Step-Orderly : {p q : Pump} → Step p q → Orderly p → Orderly q
Step-Orderly (queues p message room) v = enqueue-Orderly message v
Step-Orderly (writes p e running) v = write_next-Orderly running v e
Step-Orderly (pings p e running) v = ping-Orderly e v
Step-Orderly (stops p running shut) v = finish-Orderly shut v
Step-Orderly (closes p) v = close-Orderly v

-- In every state that the goroutines of a pump can reach, in whatever order they run: the connection
-- has been closed once if the pump is closed, and else never; the requests that were queued are, in
-- the order in which they were, on the wire, then failed, then waiting; the writer has answered those
-- on the wire with success, and at most one more, with its error, and a writer that met an error or
-- returned has closed the pump.
pub Reach-Orderly : {p : Pump} → Reach p → Orderly p
Reach-Orderly start = start-Orderly
Reach-Orderly (next r st) = Step-Orderly st (Reach-Orderly r)
