-- ===== src/Billing/Reconcile/Tests.antt =====
-- A sweep and a matching of orphans on concrete rows.
use hamboom.Base.{ℕ, ◌≡◌, refl, String, none, some, List, [], ◌∷◌, All₂}
use hamboom.Base.Dict.{ne_of_false}
use hamboom.Base.Int.{pos, negsuc}
use hamboom.Billing.Reconcile.{
  PendingPaymentSnapshot, SweepPolicy, SweepDecision, skip, expire, too_young, asked_and_aged, ok,
  err, expires_before_stale, not_an_orphan, plan_sweep, UnverifiedPayment, AdoptionDecision, adopt,
  refuse, no_candidate, many_orphans, match_orphans,
}
use hamboom.Billing.Reconcile.Sweep.{IsPlanned, plan_sweep-IsPlanned}
use hamboom.Billing.Reconcile.Adoption.{IsMatched, match_orphans-IsMatched}
use hamboom.Billing.Reconcile.Distinct.{AreDistinct, authorities}

abbrev policy : SweepPolicy
policy = record { now = 1000; stale_after_ms = pos 100; expire_after_ms = pos 500 }

abbrev young : PendingPaymentSnapshot
young = record {
  id = "p1";
  authority = none;
  amount_rial = 5000;
  requested_at = 1200;
  failure_code = none;
}

abbrev asked : PendingPaymentSnapshot
asked = record {
  id = "p2";
  authority = some "A2";
  amount_rial = 5000;
  requested_at = 100;
  failure_code = some "-51";
}

abbrev plan : List SweepDecision
plan =
    record { payment_id = "p1"; action = skip; reason = too_young; age_ms = negsuc 199 }
    ∷ record { payment_id = "p2"; action = expire; reason = asked_and_aged; age_ms = pos 900 }
    ∷ []

swept : plan_sweep (young ∷ asked ∷ []) policy ≡ ok plan
unfolding plan_sweep
swept = refl

-- An expiry before the stale age would void payments that were never asked about.
refused : plan_sweep [] (record policy { expire_after_ms = pos 100 }) ≡ err expires_before_stale
unfolding plan_sweep
refused = refl

plan_sweep-IsPlanned_example : All₂ (IsPlanned policy) (young ∷ asked ∷ []) plan
plan_sweep-IsPlanned_example = plan_sweep-IsPlanned (young ∷ asked ∷ []) policy swept

abbrev lost : String → ℕ → PendingPaymentSnapshot
lost id amount = record {
  id = id;
  authority = none;
  amount_rial = amount;
  requested_at = 0;
  failure_code = none;
}

abbrev lost_rows : List PendingPaymentSnapshot
lost_rows = lost "o1" 7000 ∷ lost "o2" 8000 ∷ lost "o3" 9000 ∷ lost "o4" 9000 ∷ []

abbrev gateway_list : List UnverifiedPayment
gateway_list =
    record { authority = "A7"; amount_rial = 7000 }
    ∷ record { authority = "A8"; amount_rial = 8000 }
    ∷ record { authority = "A9"; amount_rial = 9000 }
    ∷ []

abbrev adoptions : List AdoptionDecision
adoptions =
    adopt "o1" "A7"
    ∷ refuse "o2" no_candidate
    ∷ refuse "o3" many_orphans
    ∷ refuse "o4" many_orphans
    ∷ []

-- A8 already belongs to a payment, and two orphans share 9000.
matched : match_orphans lost_rows gateway_list ("A8" ∷ []) ≡ ok adoptions
unfolding match_orphans
matched = refl

owned : match_orphans (asked ∷ []) gateway_list [] ≡ err not_an_orphan
unfolding match_orphans
owned = refl

match_orphans-IsMatched_example :
    All₂ (IsMatched lost_rows gateway_list ("A8" ∷ [])) lost_rows adoptions
match_orphans-IsMatched_example = match_orphans-IsMatched lost_rows gateway_list ("A8" ∷ []) matched

gateway_list-AreDistinct : AreDistinct (authorities gateway_list)
gateway_list-AreDistinct = (
  (ne_of_false "A7" "A8" refl, (ne_of_false "A7" "A9" refl, tt)),
  ((ne_of_false "A8" "A9" refl, tt), (tt, tt)),
)
