-- ===== src/Push/Laws.antt =====
-- What a notification's result says of the delivery.
use taksees.Prelude.{
  ℕ, ◌≡◌, ◌≢◌, refl, sym, ap, subst, ◌↔◌, ◌⊎◌, inl, inr, true, List, ◌∷◌, Option, none, some, Text,
  arith, ==_iff, Bool-cases, if◌then◌else◌,
}
use taksees.Push.{
  PushSubscription, pruned, retriable, failed, PushError, Delivery, delivered, rejected, is_status,
  on_error, of_delivery, send,
}

some-injective : {m n : ℕ} → some m ≡ some n → m ≡ n
some-injective {m} {n} e = ground (arith, e)

is_status_iff : (o : Option ℕ) (n : ℕ) → (is_status o n ≡ true) ↔ (o ≡ some n)
is_status_iff none n = (λ h. cc, λ h. cc)
is_status_iff (some m) n = (λ h. ap some ((==_iff m n).0 h), λ h. (==_iff m n).1 (some-injective h))

abbrev error_or : PushError → Delivery → PushError
error_or other delivered = other
error_or other (rejected e) = e

other-ne-pruned :
    (status retry : Option ℕ) (message : Text)
    → (if is_status status 429 then retriable retry else failed message) ≢ pruned
other-ne-pruned status retry message h = elim (Bool-cases (is_status status 429)) [
  | inl e ↦ cc (rw e at h)
  | inr e ↦ cc (rw e at h)
]

on_error-pruned_iff :
    (e : PushError)
    → (on_error e ≡ pruned) ↔ ((e.status_code ≡ some 404) ⊎ (e.status_code ≡ some 410))
unfolding on_error
on_error-pruned_iff e = elim (Bool-cases (is_status e.status_code 404)) [
  | inl h ↦ (λ _. inl ((is_status_iff e.status_code 404).0 h), λ _. rw h refl)
  | inr h ↦ elim (Bool-cases (is_status e.status_code 410)) [
    | inl k ↦ (λ _. inr ((is_status_iff e.status_code 410).0 k), λ _. rw (h, k) refl)
    | inr k ↦ (
      λ same. absurd (other-ne-pruned e.status_code e.retry_after e.message (rw (h, k) at same)),
      λ is_gone. elim is_gone [
        | inl gone ↦ cc (h, (is_status_iff e.status_code 404).1 gone)
        | inr gone ↦ cc (k, (is_status_iff e.status_code 410).1 gone)
      ],
    )
  ]
]

of_delivery-pruned_iff :
    (d : Delivery)
    → (of_delivery d ≡ pruned) ↔ (
        (e : PushError) × (d ≡ rejected e)
        × ((e.status_code ≡ some 404) ⊎ (e.status_code ≡ some 410)))
unfolding of_delivery
of_delivery-pruned_iff delivered = (λ h. cc, λ (e, same, _). cc)
of_delivery-pruned_iff (rejected e) = (
  λ h. (e, refl, (on_error-pruned_iff e).0 h),
  λ (e', same, gone). (on_error-pruned_iff e).1 (
      subst (λ x. (x.status_code ≡ some 404) ⊎ (x.status_code ≡ some 410))
        (sym (ap (error_or e) same)) gone),
)

-- With the keys configured, one call of the library is made, and its result is `pruned` just if the
-- library rejects with the status 404 or 410: no other failure drops a subscription.
pub pruned_iff :
    (push : PushSubscription → Text → Delivery) (subscription : PushSubscription) (payload : Text)
    (calls : List (PushSubscription × Text))
    → ((send push true subscription payload calls).1 ≡ (subscription, payload) ∷ calls)
      × (((send push true subscription payload calls).0 ≡ pruned) ↔ (
          (e : PushError) × (push subscription payload ≡ rejected e)
          × ((e.status_code ≡ some 404) ⊎ (e.status_code ≡ some 410))))
unfolding send
pruned_iff push subscription payload calls =
    (refl, of_delivery-pruned_iff (push subscription payload))
