-- ===== src/Stage/Server/Brokered.antt =====
-- The handler behind the broker's queue.
use distributed_layer_infere.Common.{◌≡◌, sym, ap, List, [], ◌∷◌, All, Result, err, ℤ}
use mathlib.Core.Path.{subst}
use distributed_layer_infere.Metadata.Request.{Double}
use distributed_layer_infere.Http.{HttpRequest, HttpResponse}
use distributed_layer_infere.Stage.Broker.{Thrown, Broker, settled}
use distributed_layer_infere.Stage.Broker.Sequential.{serve}
use distributed_layer_infere.Stage.Broker.Serial.{Reaches, Reaches-IsSerial}
use distributed_layer_infere.Stage.Server.{Stage, handle_forward_binary}
use distributed_layer_infere.Stage.Server.Texts.{StageRequest}
use distributed_layer_infere.Stage.Server.Answers.{
  IsAnswer, Answered, IsException, handle_forward_binary-IsAnswer,
}

module _ {S W D : Type 0} (double : Double D) (stage : Stage S W D) (size : ℤ) (initial : S × W)
    (decent : (request : StageRequest D) (s : S) (t : Thrown)
      → (stage.forward request s).1 ≡ err t
      → IsException t) where
  settled-IsAnswer : (o : Result Thrown HttpResponse) → Answered o → IsAnswer (settled o)
  unfolding settled
  settled-IsAnswer o (r, e, h) = subst (λ x. IsAnswer (settled x)) (sym e) h

  abbrev HasAnswers : List (HttpRequest × HttpResponse) → Type 0
  HasAnswers = All (λ p. IsAnswer p.1)

  serve-HasAnswers :
      (requests : List HttpRequest) (state : S × W)
      → HasAnswers (serve (handle_forward_binary double stage) state requests).1
  unfolding serve
  serve-HasAnswers [] state = tt
  serve-HasAnswers (r ∷ rs) state =
      let answered = (handle_forward_binary-IsAnswer double stage decent r state.0 state.1).1 in
      (
        settled-IsAnswer _ answered,
        serve-HasAnswers rs (handle_forward_binary double stage r state).0,
      )

  -- Whatever the order in which the connections, the worker and the stop run, every response that the
  -- broker has served is a frame that can be decoded, with status 200, or has status 400 or 502; none
  -- has the status 500 of the broker. The runtime throws nothing but std::exceptions.
  pub served-IsAnswer :
      {accepted : List HttpRequest} {b : Broker (S × W)}
      → Reaches size (handle_forward_binary double stage) initial accepted b
      → All (λ p. IsAnswer p.1) b.served
  served-IsAnswer reaches =
      let (done, serial) =
        Reaches-IsSerial size (handle_forward_binary double stage) initial reaches in
      subst HasAnswers (ap (λ p. p.1) serial.answers) (serve-HasAnswers done initial)
