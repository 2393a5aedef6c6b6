-- ===== src/Main/Router.antt =====
-- `build_router` of api.rs: which handler stands at which path and method, over the accelerator that
-- all handlers share. What axum does with a request that no route fits is not part of it.
use kv260_sigverify.Prelude.{ℕ, List, [], ◌∷◌, String}
use kv260_sigverify.Accelerator.Host.{M}
use kv260_sigverify.Accelerator.SingleFlight.{Accelerator}
use kv260_sigverify.Api.Types.{Response, Crates}
use kv260_sigverify.Api.Handlers.{get_status, post_verify_transaction, post_verify_batch}

pub data Method : Type 0 where
  get post : Method

-- A handler gets the request's number and its body.
pub record Route (W : Type 0) : Type 0 where
  pub path : String
  pub method : Method
  pub handler : String → List ℕ → M W Response

unfoldable pub build_router : {W : Type 0} → Crates → Accelerator W → List (Route W)
build_router c accelerator =
    (record {
      path = "/v1/status";
      method = get;
      handler = λ request_id body. get_status c accelerator;
    })
    ∷ (record {
      path = "/v1/verify-transaction";
      method = post;
      handler = post_verify_transaction c accelerator;
    })
    ∷ (record {
      path = "/v1/verify-batch";
      method = post;
      handler = post_verify_batch c accelerator;
    })
    ∷ []
