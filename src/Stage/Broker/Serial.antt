-- ===== src/Stage/Broker/Serial.antt =====
-- Whatever the order of the threads, the broker answers as one sequential server would.
use distributed_layer_infere.Common.{
  if_true, if_false, ◌≤◌, ◌≡◌, inl, inr, refl, ◌∙◌, sym, ap, arith, Bool, true, false, leb,
  if◌then◌else◌, Bool-cases, List, [], ◌∷◌, ◌++◌, Option, none, some, Result, length, length-append,
  ℤ,
}
use mathlib.Core.List.{append-nil, append_assoc}
use mathlib.Core.Path.{subst}
use distributed_layer_infere.Http.{HttpRequest, HttpResponse}
use distributed_layer_infere.Stage.Broker.{
  Thrown, Broker, constructed, queue_limit, submit, taken, finished, request_stop, take_job,
  finish_job,
}
use distributed_layer_infere.Stage.Broker.Sequential.{serve, after_one, serve-append}

some_inj : {A : Type 0} {x y : A} → some x ≡ some y → x ≡ y
some_inj e = cc

apart : {b : Bool} → b ≡ false → b ≡ true → ⊥
apart n y = cc

abbrev pub in_hand : Option HttpRequest → List HttpRequest
in_hand none = []
in_hand (some job) = job ∷ []

module _ {S : Type 0} (size : ℤ) (handle : HttpRequest → S → S × Result Thrown HttpResponse)
    (initial : S) where
  -- The brokers that some interleaving reaches, by the requests that were queued, in their order.
  pub data Reaches : List HttpRequest → Broker S → Type 0 where
    start : Reaches [] (constructed initial)
    submitted :
        {accepted : List HttpRequest} {b : Broker S} (request : HttpRequest)
        → Reaches accepted b
        → Reaches
            (if (submit size request b).1 then accepted ++ (request ∷ []) else accepted)
            (submit size request b).0
    took :
        {accepted : List HttpRequest} {b b' : Broker S}
        → Reaches accepted b
        → take_job b ≡ some b'
        → Reaches accepted b'
    completed :
        {accepted : List HttpRequest} {b b' : Broker S}
        → Reaches accepted b
        → finish_job handle b ≡ some b'
        → Reaches accepted b'
    stopped :
        {accepted : List HttpRequest} {b : Broker S}
        → Reaches accepted b
        → Reaches accepted (request_stop b)

  -- `done` are the requests that were answered.
  pub record IsSerial (accepted done : List HttpRequest) (b : Broker S) : Type 0 where
    pub order : accepted ≡ done ++ (in_hand b.hand ++ b.queue)
    pub answers : serve handle initial done ≡ (b.runtime, b.served)
    pub bounded : length b.queue ≤ queue_limit size
    pub left_empty : b.exited ≡ true → (b.queue ≡ []) × (b.hand ≡ none) × (b.stop_requested ≡ true)

  submit-IsSerial :
      (accepted done : List HttpRequest) (b : Broker S) (request : HttpRequest)
      → IsSerial accepted done b
      → IsSerial
          (if (submit size request b).1 then accepted ++ (request ∷ []) else accepted)
          done
          (submit size request b).0
  unfolding submit
  submit-IsSerial accepted done b request v = elim (Bool-cases b.stop_requested) [
    | inl y ↦ rw y (record {
      order = v.order;
      answers = v.answers;
      bounded = v.bounded;
      left_empty = λ e. ((v.left_empty e).0, (v.left_empty e).1, refl);
    })
    | inr n ↦ elim (Bool-cases (leb (queue_limit size) (length b.queue))) [
      | inl full ↦
          rw (n, full)
            (record {
              order = v.order;
              answers = v.answers;
              bounded = v.bounded;
              left_empty = λ e. absurd (apart n (v.left_empty e).2);
            })
      | inr room ↦
          rw (n, room)
            (record {
              order =
                  ap (λ t. t ++ (request ∷ [])) v.order
                  ∙ append_assoc done (in_hand b.hand ++ b.queue) (request ∷ [])
                  ∙ ap (λ t. done ++ t) (append_assoc (in_hand b.hand) b.queue (request ∷ []));
              answers = v.answers;
              bounded = ground (arith, length-append b.queue (request ∷ []));
              left_empty = λ e. absurd (apart n (v.left_empty e).2);
            })
    ]
  ]

  taken-IsSerial :
      (accepted done : List HttpRequest) (b b' : Broker S) (queue : List HttpRequest)
      (hand : Option HttpRequest)
      → IsSerial accepted done b
      → b.exited ≡ false
      → b.queue ≡ queue
      → b.hand ≡ hand
      → taken b queue hand ≡ some b'
      → IsSerial accepted done b'
  taken-IsSerial accepted done b b' queue (some job) v here q h e = absurd (cc)
  taken-IsSerial accepted done b b' (job ∷ queue) none v here q h e =
      subst (λ x. IsSerial accepted done x) (some_inj e)
        (record {
          order = v.order ∙ rw (q, h) refl;
          answers = v.answers;
          bounded = omega (arith, v.bounded, ap length q);
          left_empty = λ y. absurd (apart here y);
        })
  taken-IsSerial accepted done b b' [] none v here q h e = elim (Bool-cases b.stop_requested) [
    | inr n ↦ absurd (ground arith)
    | inl y ↦
        subst (λ x. IsSerial accepted done x) (some_inj (sym (if_true _ _ y) ∙ e))
          (record {
            order = v.order ∙ rw (q, h) refl;
            answers = v.answers;
            bounded = omega arith;
            left_empty = λ w. (refl, refl, y);
          })
  ]

  take_job-IsSerial :
      (accepted done : List HttpRequest) (b b' : Broker S)
      → IsSerial accepted done b
      → take_job b ≡ some b'
      → IsSerial accepted done b'
  unfolding take_job
  take_job-IsSerial accepted done b b' v e = elim (Bool-cases b.exited) [
    | inl gone ↦ absurd (ground arith)
    | inr here ↦
        taken-IsSerial accepted done b b' b.queue b.hand v here refl refl
          (sym (if_false _ _ here) ∙ e)
  ]

  finished-IsSerial :
      (accepted done : List HttpRequest) (b b' : Broker S) (hand : Option HttpRequest)
      → IsSerial accepted done b
      → b.hand ≡ hand
      → finished handle b hand ≡ some b'
      → (done' : List HttpRequest) × IsSerial accepted done' b'
  finished-IsSerial accepted done b b' none v h e = absurd (cc)
  finished-IsSerial accepted done b b' (some job) v h e = (
    done ++ (job ∷ []),
    subst (λ x. IsSerial accepted (done ++ (job ∷ [])) x) (some_inj e)
        (record {
          order = v.order ∙ rw h (sym (append_assoc done (job ∷ []) b.queue));
          answers = serve-append handle initial done job ∙ ap (after_one handle job) v.answers;
          bounded = v.bounded;
          left_empty = λ w. ((v.left_empty w).0, refl, (v.left_empty w).2);
        }),
  )

  finish_job-IsSerial :
      (accepted done : List HttpRequest) (b b' : Broker S)
      → IsSerial accepted done b
      → finish_job handle b ≡ some b'
      → (done' : List HttpRequest) × IsSerial accepted done' b'
  unfolding finish_job
  finish_job-IsSerial accepted done b b' v e = finished-IsSerial accepted done b b' b.hand v refl e

  -- In every broker that some interleaving of submissions, worker steps and a stop reaches, the
  -- accepted requests are, in their order, those answered, then the one in hand, then the queue;
  -- the answers and the runtime's state are those of the sequential server on the answered ones;
  -- the queue is within its limit; and a worker that has left has left nothing behind.
  pub Reaches-IsSerial :
      {accepted : List HttpRequest} {b : Broker S}
      → Reaches accepted b
      → (done : List HttpRequest) × IsSerial accepted done b
  unfolding serve
  Reaches-IsSerial start = (
    [],
    record { order = refl; answers = refl; bounded = omega arith; left_empty = λ e. absurd (cc) },
  )
  Reaches-IsSerial (submitted request r) =
      let (done, v) = Reaches-IsSerial r in (done, submit-IsSerial _ done _ request v)
  Reaches-IsSerial (took r e) =
      let (done, v) = Reaches-IsSerial r in (done, take_job-IsSerial _ done _ _ v e)
  Reaches-IsSerial (completed r e) =
      let (done, v) = Reaches-IsSerial r in finish_job-IsSerial _ done _ _ v e
  Reaches-IsSerial (stopped r) =
      let (done, v) = Reaches-IsSerial r in
      (
        done,
        record {
          order = v.order;
          answers = v.answers;
          bounded = v.bounded;
          left_empty = λ e. ((v.left_empty e).0, (v.left_empty e).1, refl);
        },
      )

  -- Once the worker has left, after a stop, every accepted request has been answered, in the order
  -- in which it was accepted, with the answer of the sequential server.
  pub all_answered :
      {accepted : List HttpRequest} {b : Broker S}
      → Reaches accepted b
      → b.exited ≡ true
      → serve handle initial accepted ≡ (b.runtime, b.served)
  all_answered {accepted} {b} r left =
      let (done, v) = Reaches-IsSerial r in
      let (empty, idle, stop) = v.left_empty left in
      ap (serve handle initial) (v.order ∙ rw (empty, idle) (append-nil done)) ∙ v.answers
