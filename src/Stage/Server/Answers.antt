-- ===== src/Stage/Server/Answers.antt =====
-- What a stage answers to a posted frame, and what it does for it.
use distributed_layer_infere.Common.{
  ◌≡◌, ◌⊎◌, inl, inr, refl, sym, Bool, true, false, not, if◌then◌else◌, if_true, if_false,
  Bool-cases, Result, ok, err, ◌>>=◌, Bytes, codes,
}
use mathlib.Core.Path.{subst}
use distributed_layer_infere.Protocol.{DliFrame, ProtocolError, encode_frame, decode_frame}
use distributed_layer_infere.Protocol.RoundTrip.{decode_frame-encode_frame}
use distributed_layer_infere.Metadata.{MetadataError}
use distributed_layer_infere.Metadata.Request.{Double}
use distributed_layer_infere.Http.{HttpRequest, HttpResponse, make_binary_response}
use distributed_layer_infere.Http.Client.{HttpClientResponse}
use distributed_layer_infere.Gateway.Routing.{is_success}
use distributed_layer_infere.Stage.Broker.{Thrown, exception}
use distributed_layer_infere.Stage.Server.Texts.{StageRequest, StageResponse}
use distributed_layer_infere.Stage.Server.{
  Stage, caught, protocol_what, metadata_what, protocol_thrown, metadata_thrown, transport_thrown,
  make_runtime_request, accepted, sent_again, post_binary, after_next, chained, output_of,
  after_forward, after_request, handle_forward_binary,
}

-- A frame that can be decoded, with status 200, or one of the two errors.
abbrev pub IsAnswer : HttpResponse → Type 0
IsAnswer r =
    ((r.status_code ≡ 200) × ((f : DliFrame) × (decode_frame r.body ≡ ok f)))
    ⊎ ((r.status_code ≡ 400) ⊎ (r.status_code ≡ 502))

abbrev pub Answered : Result Thrown HttpResponse → Type 0
Answered o = (r : HttpResponse) × (o ≡ ok r) × IsAnswer r

-- What was thrown is a std::exception.
abbrev pub IsException : Thrown → Type 0
IsException t = (what : Bytes) × (t ≡ exception what)

abbrev IsDecent : Result Thrown HttpResponse → Type 0
IsDecent (ok r) = IsAnswer r
IsDecent (err t) = IsException t

caught-IsDecent : (o : Result Thrown HttpResponse) → IsDecent o → Answered (caught o)
caught-IsDecent (ok r) h = (r, refl, h)
caught-IsDecent (err t) (what, e) =
    subst (λ x. Answered (caught (err x))) (sym e) (_, refl, inr (inl refl))

module _ {S W D : Type 0} (double : Double D) (stage : Stage S W D) where
  bytes-IsDecent :
      (frame : DliFrame) (o : Result ProtocolError Bytes)
      → encode_frame frame ≡ o
      → IsDecent (protocol_thrown o >>= λ body. ok (make_binary_response 200 (codes "OK") body))
  bytes-IsDecent frame (ok body) e = inl (refl, (frame, decode_frame-encode_frame frame body e))
  bytes-IsDecent frame (err x) e = (_, refl)

  accepted-IsDecent : (frame : DliFrame) → IsDecent (accepted double stage frame)
  accepted-IsDecent frame = bytes-IsDecent frame _ refl

  downstream-IsDecent :
      (next : DliFrame → DliFrame) (o : Result ProtocolError DliFrame)
      → IsDecent (protocol_thrown o >>= λ frame. accepted double stage (next frame))
  downstream-IsDecent next (ok frame) = accepted-IsDecent (next frame)
  downstream-IsDecent next (err x) = (_, refl)

  after_next-IsDecent :
      (response : StageResponse D) (wall : D) (body : Bytes) (answer : HttpClientResponse)
      → IsDecent (after_next double stage response wall body answer)
  after_next-IsDecent response wall body answer =
      elim (Bool-cases (not (is_success answer.status_code))) [
        | inl failed ↦ subst IsDecent (sym (if_true _ _ failed)) (inr (inr refl))
        | inr fine ↦
            subst IsDecent (sym (if_false _ _ fine))
              (downstream-IsDecent _ (decode_frame answer.body))
      ]

  answer-IsDecent :
      (response : StageResponse D) (wall : D) (body : Bytes) (o : Result Bytes HttpClientResponse)
      → IsDecent (transport_thrown o >>= after_next double stage response wall body)
  answer-IsDecent response wall body (err text) = (text, refl)
  answer-IsDecent response wall body (ok answer) = after_next-IsDecent response wall body answer

  chained-IsDecent :
      (response : StageResponse D) (w : W) (o : Result ProtocolError Bytes)
      → IsDecent (chained double stage response w (protocol_thrown o)).1
  chained-IsDecent response w (err x) = (_, refl)
  chained-IsDecent response w (ok body) =
      answer-IsDecent response _ body
        (post_binary stage.post_binary_once stage.close_connection stage.config.next_stage_url body
          w).1

  -- The world after `body` was sent to the next stage: one sending that was answered, or two, the
  -- second behind a first one that failed.
  abbrev pub IsSent : Bytes → W → W → Type 0
  IsSent body w w' =
      let once = stage.post_binary_once stage.config.next_stage_url body in
      ((answer : HttpClientResponse) × (once w ≡ (w', ok answer)))
      ⊎ ((failed : W) × (text : Bytes) × (once w ≡ (failed, err text))
          × (w' ≡ (once (stage.close_connection stage.config.next_stage_url failed)).0))

  -- The state before and after: nothing happened, or the runtime ran once and the next stage was
  -- sent to as above, if at all.
  abbrev pub IsServed : S × W → S × W → Type 0
  IsServed (s, w) (s', w') =
      ((s' ≡ s) × (w' ≡ w))
      ⊎ ((request : StageRequest D) × (s' ≡ (stage.forward request s).0)
          × ((w' ≡ w) ⊎ ((body : Bytes) × IsSent body w w')))

  sent_again-IsSent :
      (body : Bytes) (w : W) (r : W × Result Bytes HttpClientResponse)
      → stage.post_binary_once stage.config.next_stage_url body w ≡ r
      → IsSent body w
          (sent_again stage.post_binary_once stage.close_connection stage.config.next_stage_url body
            r).0
  sent_again-IsSent body w (w', ok answer) e = inl (answer, e)
  sent_again-IsSent body w (w', err text) e = inr (w', text, e, refl)

  post_binary-IsSent :
      (body : Bytes) (w : W)
      → IsSent body w
          (post_binary stage.post_binary_once stage.close_connection stage.config.next_stage_url
            body w).0
  unfolding post_binary
  post_binary-IsSent body w =
      sent_again-IsSent body w (stage.post_binary_once stage.config.next_stage_url body w) refl

  chained_world :
      (response : StageResponse D) (w : W) (o : Result Thrown Bytes)
      → let after = (chained double stage response w o).0 in
        (after ≡ w) ⊎ ((body : Bytes) × IsSent body w after)
  chained_world response w (err e) = inl refl
  chained_world response w (ok body) = inr (body, post_binary-IsSent body w)

  module _
      (decent : (request : StageRequest D) (s : S) (t : Thrown)
        → (stage.forward request s).1 ≡ err t
        → IsException t) where
    IsHandled : S × W → (S × W) × Result Thrown HttpResponse → Type 0
    IsHandled before (after, outcome) = IsServed before after × IsDecent outcome

    either_way :
        (before : S × W) (c : Bool) (x y : (S × W) × Result Thrown HttpResponse)
        → IsHandled before x
        → IsHandled before y
        → IsHandled before (if c then x else y)
    either_way before true x y h k = h
    either_way before false x y h k = k

    forwarded :
        (request : StageRequest D) (s s' : S) (w : W) (o : Result Thrown (StageResponse D))
        → (stage.forward request s).0 ≡ s'
        → ((t : Thrown) → o ≡ err t → IsException t)
        → IsHandled (s, w) (after_forward double stage request w (s', o))
    unfolding IsHandled
    forwarded request s s' w (err t) e only = (inr (request, sym e, inl refl), only t refl)
    forwarded request s s' w (ok response) e only =
        let output = output_of double stage request response in
        either_way (s, w) _ _ _
          (
            inr (request, sym e, chained_world response w (protocol_thrown (encode_frame output))),
            chained-IsDecent response w (encode_frame output),
          )
          (inr (request, sym e, inl refl), accepted-IsDecent output)

    requested :
        (s : S) (w : W) (o : Result Thrown (StageRequest D))
        → ((t : Thrown) → o ≡ err t → IsException t)
        → IsHandled (s, w) (after_request double stage (s, w) o)
    unfolding IsHandled
    requested s w (err t) only = (inl (refl, refl), only t refl)
    requested s w (ok request) only = forwarded request s _ w _ refl (λ t h. decent request s t h)

    metadata-IsException :
        {A : Type 0} (o : Result MetadataError A) (t : Thrown)
        → metadata_thrown o ≡ err t
        → IsException t
    metadata-IsException (ok a) t h = absurd (cc)
    metadata-IsException (err e) t h = (metadata_what e, cc)

    read-IsException :
        (o : Result ProtocolError DliFrame) (t : Thrown)
        → (protocol_thrown o >>= λ frame. metadata_thrown (make_runtime_request double stage frame))
          ≡ err t
        → IsException t
    read-IsException (ok frame) t h =
        metadata-IsException (make_runtime_request double stage frame) t h
    read-IsException (err e) t h = (protocol_what e, cc)

    -- handle_forward_binary answers every request: with status 200 and a frame that can be decoded,
    -- or with status 400 or 502. The runtime runs at most once for it, and only then a frame is sent
    -- to the next stage: not at all, once with an answer, or, behind a first sending that failed, a
    -- second time on a new connection and never a third time; otherwise nothing has changed. The
    -- runtime throws nothing but std::exceptions.
    pub handle_forward_binary-IsAnswer :
        (request : HttpRequest) (s : S) (w : W)
        → let result = handle_forward_binary double stage request (s, w) in
          IsServed (s, w) result.0 × Answered result.1
    unfolding handle_forward_binary IsHandled
    handle_forward_binary-IsAnswer request s w =
        let frame = decode_frame request.body in
        let handled =
          requested s w
            (protocol_thrown frame >>= λ f. metadata_thrown (make_runtime_request double stage f))
            (read-IsException frame) in
        (handled.0, caught-IsDecent _ handled.1)
