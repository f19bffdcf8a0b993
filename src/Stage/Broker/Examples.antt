-- ===== src/Stage/Broker/Examples.antt =====
-- A broker with a queue of one job, and a handler that counts its calls.
use distributed_layer_infere.Common.{
  ℕ, zero, suc, ◌≡◌, refl, true, List, [], ◌∷◌, Result, none, false, ok, err, Bytes, codes, pos,
  some,
}
use distributed_layer_infere.Http.{HttpRequest, HttpResponse, make_binary_response}
use distributed_layer_infere.Stage.Broker.{
  Thrown, exception, Broker, submit, take_job, finish_job, settled,
}
use distributed_layer_infere.Stage.Broker.Drain.{Works, stop_drains}
use distributed_layer_infere.Stage.Broker.Sequential.{serve}
use distributed_layer_infere.Stage.Broker.Serial.{
  Reaches, start, submitted, took, completed, stopped, IsSerial, Reaches-IsSerial, all_answered,
}

abbrev post : Bytes → HttpRequest
post body = record {
  method = codes "POST";
  path = codes "/forward-binary";
  headers = [];
  body = body;
}

abbrev handler : HttpRequest → ℕ → ℕ × Result Thrown HttpResponse
handler request zero = (1, ok (make_binary_response 200 (codes "OK") request.body))
handler request (suc n) = (suc (suc n), err (exception (codes "no session")))

-- One request, from its submission to the end of the worker.
abbrev one_queued : Broker ℕ
one_queued = record {
  queue = post (1 ∷ []) ∷ [];
  hand = none;
  runtime = 0;
  served = [];
  refused = [];
  stop_requested = false;
  exited = false;
}

abbrev in_worker : Broker ℕ
in_worker = record {
  queue = [];
  hand = some (post (1 ∷ []));
  runtime = 0;
  served = [];
  refused = [];
  stop_requested = false;
  exited = false;
}

abbrev answered_one : Broker ℕ
answered_one = record {
  queue = [];
  hand = none;
  runtime = 1;
  served = (post (1 ∷ []), make_binary_response 200 (codes "OK") (1 ∷ [])) ∷ [];
  refused = [];
  stop_requested = true;
  exited = false;
}

abbrev left_worker : Broker ℕ
left_worker = record {
  queue = [];
  hand = none;
  runtime = 1;
  served = (post (1 ∷ []), make_binary_response 200 (codes "OK") (1 ∷ [])) ∷ [];
  refused = [];
  stop_requested = true;
  exited = true;
}

queued : Reaches (pos 1) handler 0 (post (1 ∷ []) ∷ []) one_queued
unfolding submit
queued = submitted (post (1 ∷ [])) start

working : Reaches (pos 1) handler 0 (post (1 ∷ []) ∷ []) in_worker
unfolding take_job
working = took queued refl

-- The stop comes while the job is in the worker's hand.
ran : Reaches (pos 1) handler 0 (post (1 ∷ []) ∷ []) answered_one
unfolding finish_job settled
ran = completed (stopped working) refl

left : Reaches (pos 1) handler 0 (post (1 ∷ []) ∷ []) left_worker
unfolding take_job
left = took ran refl

Reaches-IsSerial_example :
    (done : List HttpRequest) × IsSerial (pos 1) handler 0 (post (1 ∷ []) ∷ []) done left_worker
Reaches-IsSerial_example = Reaches-IsSerial (pos 1) handler 0 left

all_answered_example : serve handler 0 (post (1 ∷ []) ∷ []) ≡ (1, left_worker.served)
all_answered_example = all_answered (pos 1) handler 0 left refl

stop_drains_example :
    (b' : Broker ℕ) × Works handler answered_one b'
    × (b'.exited ≡ true)
    × (serve handler 0 (post (1 ∷ []) ∷ []) ≡ (b'.runtime, b'.served))
stop_drains_example = stop_drains handler (pos 1) 0 (post (1 ∷ []) ∷ []) answered_one ran refl
