-- ===== src/Stage/Broker/Sequential.antt =====
-- The reference for the ForwardBroker of server.cpp: one sequential server.
use distributed_layer_infere.Common.{◌≡◌, refl, List, [], ◌∷◌, ◌++◌, Result}
use distributed_layer_infere.Http.{HttpRequest, HttpResponse}
use distributed_layer_infere.Stage.Broker.{Thrown, settled}

module _ {S : Type 0} (handle : HttpRequest → S → S × Result Thrown HttpResponse) where
  -- The sequential server: the requests one by one, each on the state that the one before left.
  unfoldable pub serve : S → List HttpRequest → S × List (HttpRequest × HttpResponse)
  serve s [] = (s, [])
  serve s (r ∷ rs) =
      let (after, outcome) = handle r s in
      let (last, answers) = serve after rs in (last, (r, settled outcome) ∷ answers)

  abbrev pub after_one :
      HttpRequest → S × List (HttpRequest × HttpResponse) → S × List (HttpRequest × HttpResponse)
  after_one r (s, l) = ((handle r s).0, l ++ ((r, settled (handle r s).1) ∷ []))

  pub serve-append :
      (s : S) (xs : List HttpRequest) (r : HttpRequest)
      → serve s (xs ++ (r ∷ [])) ≡ after_one r (serve s xs)
  unfolding serve
  serve-append s [] r = refl
  serve-append s (x ∷ xs) r = rw (serve-append (handle x s).0 xs r) refl
