-- ===== src/Health/Tests.antt =====
-- The answer of a service that is not ready.
use dns_ingress.Prelude.{◌≡◌, refl, false, ◌∷◌, [], ok}
use dns_ingress.Prelude.Text.{codes, text_eq, decimal}
use dns_ingress.Metrics.{new}
use dns_ingress.Message.{get}
use dns_ingress.Forward.{Response}
use dns_ingress.Health.{Printer, handle_healthcheck}

abbrev sample : Printer
sample = record {
  snapshot_json = λ s. ok (codes "{}");
  status_json = λ status service. status;
  seconds = decimal;
}

abbrev answer : Response
answer = record {
  status = 503;
  headers = (codes "content-type", codes "application/json") ∷ [];
  body = codes "not_ready";
}

unready_run :
    handle_healthcheck sample get (codes "/health") (codes "/health") new false ≡ ok answer
unfolding handle_healthcheck text_eq
unready_run = refl
