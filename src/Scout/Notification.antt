-- ===== src/Scout/Notification.antt =====
-- src/backend/services/notification_service.py: push with three attempts, then email. The provider
-- is not part of the program: it is a function from the number of the attempt to the status code
-- of its reply, or `none` where the call raises.
use tristar.Base.{
  ℕ, zero, suc, ◌+◌, Bool, true, false, ◌||◌, Option, none, some, List, [], ◌∷◌, ◌≡◌, not, arith,
  nat_eq, if◌then◌else◌,
}

pub data DeliveryChannel : Type 0 where
  push email : DeliveryChannel

-- without the times
pub record NotificationResult : Type 0 where
  pub delivered : Bool
  pub channel : DeliveryChannel
  pub failed : Bool

abbrev is_200 : Option ℕ → Bool
is_200 none = false
is_200 (some code) = nat_eq code 200

pub record Provider : Type 0 where
  pub push_reply : ℕ → Option ℕ
  pub email_reply : Option ℕ

-- `_send_push_attempt`
abbrev pub push_attempt : Provider → ℕ → Bool
push_attempt p attempt = is_200 (p.push_reply attempt)

-- `send_email_fallback`
unfoldable pub send_email_fallback : Provider → NotificationResult
send_email_fallback p =
    if is_200 p.email_reply
    then record { delivered = true; channel = email; failed = false }
    else record { delivered = false; channel = email; failed = true }

-- The loop over `range(1, 4)`: the attempts that are left and the number of the next. The second
-- part is the requests that were sent.
unfoldable pub push_loop : Provider → ℕ → ℕ → NotificationResult × List DeliveryChannel
unfolding send_email_fallback
push_loop p zero attempt = (send_email_fallback p, email ∷ [])
push_loop p (suc left) attempt =
    let rest = push_loop p left (attempt + 1) in
    if push_attempt p attempt
    then (record { delivered = true; channel = push; failed = false }, push ∷ [])
    else (rest.0, push ∷ rest.1)

-- `send_push`
unfoldable pub send_push : Provider → NotificationResult × List DeliveryChannel
unfolding push_loop
send_push p = push_loop p 3 1

abbrev pub any_push : Provider → Bool
any_push p = push_attempt p 1 || (push_attempt p 2 || push_attempt p 3)

-- The requests that go out, by the replies to the three push attempts: the first that is answered with 200
-- is the last, and the email comes after three that are not.
abbrev pub requests : Bool → Bool → Bool → List DeliveryChannel
requests true second third = push ∷ []
requests false true third = push ∷ push ∷ []
requests false false true = push ∷ push ∷ push ∷ []
requests false false false = push ∷ push ∷ push ∷ email ∷ []

-- A notification is delivered exactly if one of the three push attempts or the email is answered with 200,
-- by push if one of the three is. Pushes go out one by one up to the first that is answered with 200, and
-- the email goes out only after three that are not.
pub send_push_lem :
    (p : Provider)
    → let (result, sent) = send_push p in
      (result.delivered ≡ any_push p || is_200 p.email_reply)
      × (result.channel ≡ (if any_push p then push else email))
      × (result.failed ≡ not result.delivered)
      × (sent ≡ requests (push_attempt p 1) (push_attempt p 2) (push_attempt p 3))
unfolding send_push
send_push_lem p = ground arith
