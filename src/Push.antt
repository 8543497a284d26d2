-- ===== src/Push.antt =====
-- infrastructure/push/web-push.provider.ts. The library `web-push` is a parameter: whether it takes
-- the keys, and what a call of it answers.
pub mod Laws
mod Tests
use taksees.Prelude.{
  ℕ, Bool, true, false, not, ◌&&◌, ◌||◌, List, [], ◌∷◌, Option, none, some, Text, codes, is_empty,
  ◌==◌, if◌then◌else◌,
}

pub record PushSubscription : Type 0 where
  pub endpoint : Text
  pub p256dh : Text
  pub auth : Text

-- `SendResult`
pub data SendResult : Type 0 where
  sent : SendResult
  pruned : SendResult
  retriable : (retry_after : Option ℕ) → SendResult
  failed : (error : Text) → SendResult

-- What the library throws: the status that it carries, its `retry-after` header as a finite number,
-- and its message.
pub record PushError : Type 0 where
  pub status_code : Option ℕ
  pub retry_after : Option ℕ
  pub message : Text

pub data Delivery : Type 0 where
  delivered : Delivery
  rejected : PushError → Delivery

-- The keys of the configuration, absent or empty if not set.
pub record Vapid : Type 0 where
  pub public_key : Option Text
  pub private_key : Option Text
  pub subject : Option Text

abbrev pub is_set : Option Text → Bool
is_set none = false
is_set (some s) = not (is_empty s)

-- The constructor: `this.configured`. `accepts` says whether `setVapidDetails` takes the details.
unfoldable pub configured : (accepts : Vapid → Bool) → Vapid → Bool
configured accepts keys =
    if is_set keys.public_key && (is_set keys.private_key && is_set keys.subject)
    then accepts keys
    else false

-- `status === n`
abbrev pub is_status : Option ℕ → ℕ → Bool
is_status none n = false
is_status (some status) n = status == n

-- The `catch` of `send`.
unfoldable pub on_error : PushError → SendResult
on_error e =
    if is_status e.status_code 404 || is_status e.status_code 410
    then pruned
    else if is_status e.status_code 429
    then retriable e.retry_after
    else failed e.message

unfoldable pub of_delivery : Delivery → SendResult
of_delivery delivered = sent
of_delivery (rejected e) = on_error e

-- `send`, with the calls of the library that it makes, the newest first
unfoldable pub send :
    (push : PushSubscription → Text → Delivery)
    → (is_configured : Bool) → PushSubscription
    → (payload : Text) → List (PushSubscription × Text)
    → SendResult × List (PushSubscription × Text)
send push false subscription payload calls = (failed (codes "VAPID_NOT_CONFIGURED"), calls)
send push true subscription payload calls =
    (of_delivery (push subscription payload), (subscription, payload) ∷ calls)
