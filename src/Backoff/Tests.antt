-- ===== src/Backoff/Tests.antt =====
-- A run of the delay.
use dns_ingress.Prelude.{◌≡◌, refl}
use dns_ingress.Backoff.{exponential_backoff}

exponential_backoff_third : exponential_backoff 3 100 5000 ≡ 800
unfolding exponential_backoff
exponential_backoff_third = refl
