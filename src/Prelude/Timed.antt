-- ===== src/Prelude/Timed.antt =====
-- What a call of a library yields under `tokio::time::timeout`, and the errors that the code makes
-- of it.
use mathlib.Core.Path.{◌≡◌}
use dns_ingress.Prelude.Outcome.{Result, ok, err}
use dns_ingress.Prelude.Text.{Text}

pub data Timed {ℓ} (A : Type ℓ) : Type ℓ where
  done : A → Timed A
  broken : Text → Timed A
  late : Timed A

-- `timeout(call).await.map_err(_)?.map_err(_)`
abbrev pub awaited {ℓ κ} : {E : Type ℓ} {A : Type κ} → E → (Text → E) → Timed A → Result E A
awaited expired failure (done a) = ok a
awaited expired failure (broken e) = err (failure e)
awaited expired failure late = err expired

pub awaited-ok {ℓ κ} :
    {E : Type ℓ} {A : Type κ} (x : E) (f : Text → E) (t : Timed A) {a : A}
    → awaited x f t ≡ ok a
    → t ≡ done a
awaited-ok x f (done b) h = cc
awaited-ok x f (broken e) h = cc
awaited-ok x f late h = cc
