-- ===== src/Triggers/Policy/Decide.antt =====
-- internal/engine/triggers/policy.go: `Decide`.
pub mod Laws
use astrate.Base.{ℕ, suc, Option, none, some, List, [], ◌∷◌, if◌then◌else◌, ℤ, eq_ℤ}
use astrate.Triggers.Policy.Handler.{
  Strategy, discard, On, Handler, within, status_transport, claims,
}
use astrate.Triggers.Policy.Compile.{Policy}

-- The reasons, without their wording.
pub data Reason : Type 0 where
  no_policy not_a_failure unclaimed_transport : Reason
  unclaimed : ℤ → Reason
  handler_transport handler_status : ℕ → On → Strategy → Reason

pub record Decision : Type 0 where
  pub strategy : Strategy
  pub reason : Reason

-- The loop of `Decide`, from handler number `i`.
pub decide_from : ℕ → List Handler → ℤ → Decision
decide_from i [] status =
    if eq_ℤ status status_transport
    then record { strategy = discard; reason = unclaimed_transport }
    else record { strategy = discard; reason = unclaimed status }
decide_from i (h ∷ hs) status =
    let rest = decide_from (suc i) hs status in
    if claims h status
    then if eq_ℤ status status_transport
      then record { strategy = h.strategy; reason = handler_transport (suc i) h.on h.strategy }
      else record { strategy = h.strategy; reason = handler_status (suc i) h.on h.strategy }
    else rest

-- `Decide`; the receiver may be nil.
pub decide : Option Policy → ℤ → Decision
decide none status = record { strategy = discard; reason = no_policy }
decide (some p) status =
    if within 200 399 status
    then record { strategy = discard; reason = not_a_failure }
    else decide_from 0 p.handlers status
