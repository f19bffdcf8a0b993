-- ===== src/Stage/Broker.antt =====
-- The queue before a stage's runtime: ForwardBroker and handle_request of
-- src/native/dli_stage_cpp/src/server.cpp. Each step holds the broker's mutex or runs in its one
-- worker thread, so the interleavings of the threads are the orders of the steps.
pub mod Sequential
pub mod Serial
pub mod Drain
mod Examples
use distributed_layer_infere.Common.{
  ℕ, zero, suc, ◌+◌, Bool, true, false, not, ◌&&◌, ◌||◌, if◌then◌else◌, leb, max, List, [], ◌∷◌,
  ◌++◌, Option, none, some, Result, ok, err, length, is_empty, Bytes, codes, eqb, ℤ, pos_part,
}
use distributed_layer_infere.Http.{HttpRequest, HttpResponse, make_json_response, http_error_json}

-- What escapes the handler: a std::exception with its text, or something else.
pub data Thrown : Type 0 where
  exception : Bytes → Thrown
  unknown : Thrown

-- A request's promise is its place in `served` or `refused`. The queue holds the accepted requests;
-- `hand` is the job that the worker has taken out of it; `runtime` is the state of the handler.
pub record Broker (S : Type 0) : Type 0 where
  pub queue : List HttpRequest
  pub hand : Option HttpRequest
  pub runtime : S
  pub served : List (HttpRequest × HttpResponse)
  pub refused : List (HttpRequest × HttpResponse)
  pub stop_requested : Bool
  pub exited : Bool

abbrev pub constructed : {S : Type 0} → S → Broker S
constructed runtime = record {
  queue = [];
  hand = none;
  runtime = runtime;
  served = [];
  refused = [];
  stop_requested = false;
  exited = false;
}

-- `std::max(1, env_int("DLI_NATIVE_FORWARD_QUEUE_SIZE", 1))`
abbrev pub queue_limit : ℤ → ℕ
queue_limit size = max 1 (pos_part size)

abbrev pub stopping : HttpResponse
stopping =
    make_json_response 503 (codes "Service Unavailable")
      (http_error_json (codes "native forward broker is stopping"))

abbrev pub queue_full : HttpResponse
queue_full =
    make_json_response 429 (codes "Too Many Requests")
      (http_error_json (codes "native forward queue is full"))

abbrev refuse : {S : Type 0} → HttpRequest → HttpResponse → Broker S → Broker S
refuse request response b = record {
  queue = b.queue;
  hand = b.hand;
  runtime = b.runtime;
  served = b.served;
  refused = b.refused ++ ((request, response) ∷ []);
  stop_requested = b.stop_requested;
  exited = b.exited;
}

abbrev enqueue : {S : Type 0} → HttpRequest → Broker S → Broker S
enqueue request b = record {
  queue = b.queue ++ (request ∷ []);
  hand = b.hand;
  runtime = b.runtime;
  served = b.served;
  refused = b.refused;
  stop_requested = b.stop_requested;
  exited = b.exited;
}

-- The broker after the call, and whether the request was queued.
unfoldable pub submit : {S : Type 0} → ℤ → HttpRequest → Broker S → Broker S × Bool
submit size request b =
    if b.stop_requested
    then (refuse request stopping b, false)
    else if leb (queue_limit size) (length b.queue)
    then (refuse request queue_full b, false)
    else (enqueue request b, true)

-- The destructor's `stop` up to the join.
abbrev pub request_stop : {S : Type 0} → Broker S → Broker S
request_stop b = record {
  queue = b.queue;
  hand = b.hand;
  runtime = b.runtime;
  served = b.served;
  refused = b.refused;
  stop_requested = true;
  exited = b.exited;
}

-- One pass of the worker through its critical section, when the wait is over: it leaves, or takes
-- the first job. `none` where it still waits, or is busy, or has left.
abbrev pub taken :
    {S : Type 0} → Broker S → List HttpRequest → Option HttpRequest → Option (Broker S)
taken b queue (some job) = none
taken b [] none =
    if b.stop_requested
    then some (record {
      queue = [];
      hand = none;
      runtime = b.runtime;
      served = b.served;
      refused = b.refused;
      stop_requested = b.stop_requested;
      exited = true;
    })
    else none
taken b (job ∷ queue) none = some (record {
  queue = queue;
  hand = some job;
  runtime = b.runtime;
  served = b.served;
  refused = b.refused;
  stop_requested = b.stop_requested;
  exited = b.exited;
})

unfoldable pub take_job : {S : Type 0} → Broker S → Option (Broker S)
take_job b = if b.exited then none else taken b b.queue b.hand

-- The three ways in which the promise is set.
unfoldable pub settled : Result Thrown HttpResponse → HttpResponse
settled (ok response) = response
settled (err (exception what)) =
    make_json_response 500 (codes "Internal Server Error") (http_error_json what)
settled (err unknown) =
    make_json_response 500 (codes "Internal Server Error")
      (http_error_json (codes "unknown native forward broker failure"))

abbrev pub finished :
    {S : Type 0}
    → (HttpRequest → S → S × Result Thrown HttpResponse)
    → Broker S
    → Option HttpRequest
    → Option (Broker S)
finished handle b none = none
finished handle b (some job) =
    let (after, outcome) = handle job b.runtime in
    some (record {
      queue = b.queue;
      hand = none;
      runtime = after;
      served = b.served ++ ((job, settled outcome) ∷ []);
      refused = b.refused;
      stop_requested = b.stop_requested;
      exited = b.exited;
    })

-- The worker outside its critical section: `handle` is handle_forward_binary on the runtime.
unfoldable pub finish_job :
    {S : Type 0} → (HttpRequest → S → S × Result Thrown HttpResponse) → Broker S → Option (Broker S)
finish_job handle b = finished handle b b.hand
