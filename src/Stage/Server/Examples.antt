-- ===== src/Stage/Server/Examples.antt =====
-- A stage with the stub runtime.
use distributed_layer_infere.Common.{
  All, Result, ℕ, suc, ◌+◌, ◌-◌, ltb, leb, decimal, refl, true, false, none, some, [], ◌∷◌, ◌++◌,
  ok, codes, pos,
}
use distributed_layer_infere.Stage.Broker.{Thrown, Broker, submit, take_job, finish_job, settled}
use distributed_layer_infere.Stage.Broker.Serial.{Reaches, start, submitted, took, completed}
use distributed_layer_infere.Stage.Server.Brokered.{served-IsAnswer}
use distributed_layer_infere.Metadata.Request.{Double}
use distributed_layer_infere.Http.{HttpRequest, HttpResponse}
use distributed_layer_infere.Stage.Config.{StageConfig}
use distributed_layer_infere.Stage.StubRuntime.{stub_forward}
use distributed_layer_infere.Stage.Server.{Stage, handle_forward_binary}
use distributed_layer_infere.Stage.Server.Answers.{
  IsAnswer, Answered, IsServed, handle_forward_binary-IsAnswer,
}

-- Whole milliseconds.
abbrev whole : Double ℕ
whole = record {
  stod = λ text. none;
  to_long_long = λ d. pos d;
  to_uint64 = λ d. d;
  nought = 0;
  plus = λ c d. c + d;
  minus = λ c d. c - d;
  less = ltb;
  at_most = leb;
  streamed = decimal;
  to_text = decimal;
}

abbrev config : StageConfig
config = record {
  stage_id = pos 1;
  port = pos 8000;
  config_path = [];
  service_name = codes "s1";
  physical_node = [];
  partition_file = [];
  native_partition_file = [];
  backend = codes "stub";
  next_stage_url = codes "http://s2:8000/forward-binary";
  components = record { embedding = true; layers = pos 0 ∷ []; norm = false; lm_head = false };
}

-- A stub that counts its runs before a next stage that is busy.
abbrev stage : Stage ℕ ℕ ℕ
stage = record {
  config = config;
  forward = λ request s. (suc s, ok (stub_forward whole 3 request));
  post_binary_once = λ url body w. (
    suc w,
    ok (record {
      status_code = pos 503;
      reason = codes "Service Unavailable";
      headers = [];
      body = [];
    }),
  );
  close_connection = λ url w. w;
  elapsed_ms = λ before after. 1;
  chaining = some (codes "1");
}

-- A frame with the metadata `{}` and one byte.
abbrev posted : HttpRequest
posted = record {
  method = codes "POST";
  path = codes "/forward-binary";
  headers = [];
  body =
      (68 ∷ 76 ∷ 73 ∷ 50 ∷ 2 ∷ 0 ∷ 0 ∷ 0 ∷ 2 ∷ 0 ∷ 0 ∷ 0 ∷ 1 ∷ 0 ∷ 0 ∷ 0 ∷ 0 ∷ 0 ∷ 0 ∷ 0 ∷ [])
      ++ (codes "{}" ++ (9 ∷ []));
}

handle_forward_binary-IsAnswer_example :
    IsServed whole stage (0, 0) (handle_forward_binary whole stage posted (0, 0)).0
    × Answered (handle_forward_binary whole stage posted (0, 0)).1
handle_forward_binary-IsAnswer_example =
    handle_forward_binary-IsAnswer whole stage (λ request s t h. absurd (cc)) posted 0 0

-- The posted frame through the broker's queue, to its answer.
abbrev handler : HttpRequest → ℕ × ℕ → (ℕ × ℕ) × Result Thrown HttpResponse
handler = handle_forward_binary whole stage

abbrev served_one : Broker (ℕ × ℕ)
served_one = record {
  queue = [];
  hand = none;
  runtime = (handler posted (0, 0)).0;
  served = (posted, settled (handler posted (0, 0)).1) ∷ [];
  refused = [];
  stop_requested = false;
  exited = false;
}

abbrev in_hand : Broker (ℕ × ℕ)
in_hand = record {
  queue = [];
  hand = some posted;
  runtime = (0, 0);
  served = [];
  refused = [];
  stop_requested = false;
  exited = false;
}

taken : Reaches (pos 1) handler (0, 0) (posted ∷ []) in_hand
unfolding submit take_job
taken = took (submitted posted start) refl

answered : Reaches (pos 1) handler (0, 0) (posted ∷ []) served_one
unfolding finish_job
answered = completed taken refl

served-IsAnswer_example : All (λ p. IsAnswer p.1) served_one.served
served-IsAnswer_example =
    served-IsAnswer whole stage (pos 1) (0, 0) (λ request s t h. absurd (cc)) answered
