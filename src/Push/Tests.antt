-- ===== src/Push/Tests.antt =====
-- Runs of the push provider.
use taksees.Prelude.{◌≡◌, ◌↔◌, ◌⊎◌, refl, true, [], ◌∷◌, none, some, Text, codes}
use taksees.Push.{
  PushSubscription, pruned, PushError, Delivery, rejected, on_error, of_delivery, send,
}
use taksees.Push.Laws.{pruned_iff}

abbrev subscription : PushSubscription
subscription = record { endpoint = codes "https://push"; p256dh = codes "k"; auth = codes "a" }

abbrev gone : PushError
gone = record { status_code = some 410; retry_after = none; message = codes "Gone" }

abbrev push : PushSubscription → Text → Delivery
push s payload = rejected gone

gone_test : (send push true subscription (codes "{}") []).0 ≡ pruned
unfolding send of_delivery on_error
gone_test = refl

pruned_iff_example :
    ((send push true subscription (codes "{}") []).1 ≡ (subscription, codes "{}") ∷ [])
    × (((send push true subscription (codes "{}") []).0 ≡ pruned) ↔ (
        (e : PushError) × (rejected gone ≡ rejected e)
        × ((e.status_code ≡ some 404) ⊎ (e.status_code ≡ some 410))))
pruned_iff_example = pruned_iff push subscription (codes "{}") []
