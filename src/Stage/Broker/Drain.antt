-- ===== src/Stage/Broker/Drain.antt =====
-- After a stop the worker answers what was accepted and leaves.
use distributed_layer_infere.Common.{
  ◌≡◌, inl, inr, refl, ◌∙◌, true, false, Bool-cases, List, [], ◌∷◌, ◌++◌, none, some, Option-cases,
  Result, ℤ,
}
use distributed_layer_infere.Http.{HttpRequest, HttpResponse}
use distributed_layer_infere.Stage.Broker.{Thrown, Broker, take_job, finish_job, settled}
use distributed_layer_infere.Stage.Broker.Sequential.{serve}
use distributed_layer_infere.Stage.Broker.Serial.{Reaches, took, completed, all_answered}

module _ {S : Type 0} (handle : HttpRequest → S → S × Result Thrown HttpResponse) where
  -- Any number of steps of the worker.
  pub data Works : Broker S → Broker S → Type 0 where
    rests : {b : Broker S} → Works b b
    takes : {b b' b'' : Broker S} → take_job b ≡ some b' → Works b' b'' → Works b b''
    finishes : {b b' b'' : Broker S} → finish_job handle b ≡ some b' → Works b' b'' → Works b b''

  pub Reaches-Works :
      (size : ℤ) (initial : S) {accepted : List HttpRequest} {b b' : Broker S}
      → Reaches size handle initial accepted b
      → Works b b'
      → Reaches size handle initial accepted b'
  Reaches-Works size initial r rests = r
  Reaches-Works size initial r (takes e w) = Reaches-Works size initial (took r e) w
  Reaches-Works size initial r (finishes e w) = Reaches-Works size initial (completed r e) w

  -- The worker can get from `b` to where it has left.
  abbrev pub CanLeave : Broker S → Type 0
  CanLeave b = (b' : Broker S) × Works b b' × (b'.exited ≡ true)

  take_last :
      (b : Broker S)
      → b.exited ≡ false
      → b.queue ≡ []
      → b.hand ≡ none
      → b.stop_requested ≡ true
      → (b' : Broker S) × (take_job b ≡ some b') × (b'.exited ≡ true)
  unfolding take_job
  take_last b here q h stop = (left_broker, rw (here, q, h, stop) refl, refl)
    where
      left_broker : Broker S
      left_broker = record {
        queue = [];
        hand = none;
        runtime = b.runtime;
        served = b.served;
        refused = b.refused;
        stop_requested = b.stop_requested;
        exited = true;
      }

  take_next :
      (b : Broker S) (job : HttpRequest) (queue : List HttpRequest)
      → b.exited ≡ false
      → b.queue ≡ job ∷ queue
      → b.hand ≡ none
      → b.stop_requested ≡ true
      → (b' : Broker S) × (take_job b ≡ some b')
        × (b'.queue ≡ queue)
        × (b'.hand ≡ some job)
        × (b'.stop_requested ≡ true)
        × (b'.exited ≡ false)
  unfolding take_job
  take_next b job queue here q h stop = (busy, rw (here, q, h) refl, refl, refl, stop, here)
    where
      busy : Broker S
      busy = record {
        queue = queue;
        hand = some job;
        runtime = b.runtime;
        served = b.served;
        refused = b.refused;
        stop_requested = b.stop_requested;
        exited = b.exited;
      }

  finish_one :
      (b : Broker S) (job : HttpRequest)
      → b.hand ≡ some job
      → (b' : Broker S) × (finish_job handle b ≡ some b')
        × (b'.queue ≡ b.queue)
        × (b'.hand ≡ none)
        × (b'.stop_requested ≡ b.stop_requested)
        × (b'.exited ≡ b.exited)
  unfolding finish_job
  finish_one b job h = (idle, rw h refl, refl, refl, refl, refl)
    where
      idle : Broker S
      idle = record {
        queue = b.queue;
        hand = none;
        runtime = (handle job b.runtime).0;
        served = b.served ++ ((job, settled (handle job b.runtime).1) ∷ []);
        refused = b.refused;
        stop_requested = b.stop_requested;
        exited = b.exited;
      }

  drain_idle :
      (queue : List HttpRequest) (b : Broker S)
      → b.queue ≡ queue
      → b.hand ≡ none
      → b.stop_requested ≡ true
      → b.exited ≡ false
      → CanLeave b
  drain_idle [] b q h stop here =
      let (b', e, left) = take_last b here q h stop in (b', takes e rests, left)
  drain_idle (job ∷ queue) b q h stop here =
      let (b', e, q', h', stop', here') = take_next b job queue here q h stop in
      let (b'', e', q'', h'', stop'', here'') = finish_one b' job h' in
      let (last, works, left) =
        drain_idle queue b'' (q'' ∙ q') h'' (stop'' ∙ stop') (here'' ∙ here') in
      (last, takes e (finishes e' works), left)

  drain : (b : Broker S) → b.stop_requested ≡ true → CanLeave b
  drain b stop = elim (Bool-cases b.exited) [
    | inl left ↦ (b, rests, left)
    | inr here ↦ elim (Option-cases b.hand) [
      | inl h ↦ drain_idle b.queue b refl h stop here
      | inr (job, h) ↦
          let (b', e, q', h', stop', here') = finish_one b job h in
          let (last, works, left) = drain_idle b'.queue b' refl h' (stop' ∙ stop) (here' ∙ here) in
          (last, finishes e works, left)
    ]
  ]

  -- From every broker that is reached and was told to stop, steps of the worker alone lead to one
  -- whose worker has left, and there every accepted request has the answer of the sequential
  -- server.
  pub stop_drains :
      (size : ℤ) (initial : S) (accepted : List HttpRequest) (b : Broker S)
      → Reaches size handle initial accepted b
      → b.stop_requested ≡ true
      → (b' : Broker S) × Works b b'
        × (b'.exited ≡ true)
        × (serve handle initial accepted ≡ (b'.runtime, b'.served))
  stop_drains size initial accepted b r stop =
      let (b', works, left) = drain b stop in
      (b', works, left, all_answered size handle initial (Reaches-Works size initial r works) left)
