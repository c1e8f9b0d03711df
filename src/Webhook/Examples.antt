-- ===== src/Webhook/Examples.antt =====
-- A signed event for a pool of one place, and a forged one.
use multirunner.Common.{◌≡◌, refl, ◌⊎◌, some, [], ◌∷◌, codes, arith}
use multirunner.Pool.Access.{PoolConfig}
use multirunner.Autoscale.{Scaler, on_queued}
use multirunner.Webhook.{Payload, Request, Outside, handle, take, body_limit}
use multirunner.Webhook.Signed.{IsSigned, signature_of, handle-authentic, handle-delivers}

abbrev queued : Payload
queued = record { action = codes "queued"; labels = []; run_id = 1; full_name = 97 ∷ [] }

-- The HMAC of this example is the secret.
abbrev outside : Outside
outside = record {
  hmac = λ secret body. secret;
  unmarshal = λ body. some queued;
  client_for = λ repo. some repo;
}

abbrev config : PoolConfig
config = record {
  size = 1;
  labels = [];
  repository = [];
  workflows = [];
  workflow_event = [];
  workflow_actor = [];
  workflow_ref = [];
}

abbrev idle : Scaler
idle = record { states = record { config = config; held = [] } ∷ []; pending = [] }

abbrev forged : Request
forged = record {
  body = some (1 ∷ []);
  signature = codes "sha256=00";
  event = codes "workflow_job";
}

handle-authentic_example :
    ((handle outside (7 ∷ []) forged idle).1 ≡ idle)
    ⊎ IsSigned outside (7 ∷ []) (codes "sha256=00") (take body_limit (1 ∷ []))
handle-authentic_example = handle-authentic outside (7 ∷ []) forged (1 ∷ []) idle refl refl

handle-delivers_example :
    handle outside
      (7 ∷ [])
      (record {
        body = some (1 ∷ []);
        signature = signature_of outside (7 ∷ []) (1 ∷ []);
        event = codes "workflow_job";
      })
      idle
    ≡ (200, on_queued (some (97 ∷ [])) (97 ∷ []) 1 [] idle)
handle-delivers_example =
    handle-delivers outside (7 ∷ []) (1 ∷ []) queued idle (omega arith, tt) (omega arith)
      (omega arith) refl refl
