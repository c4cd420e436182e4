-- ===== src/Designer/Claude/Retry.antt =====
-- `_call_with_retry` of claude_api.py. The API is not part of the program: it is a function from the
-- number of the attempt to the text of the answer, or `none` where the call raises.
use tristar.Base.{
  if◌then◌else◌, is_some, take, ◌-◌, ℕ, suc, ◌+◌, Option, none, some, List, [], ◌∷◌, ◌≡◌, arith,
  Text,
}

-- The calls that were made and the delays that were waited, in seconds.
pub record Attempts : Type 0 where
  pub answer : Option Text
  pub calls : ℕ
  pub waited : List ℕ

-- after the last delay there is no wait
abbrev wait : ℕ → List ℕ → List ℕ → List ℕ
wait delay [] waited = waited
wait delay (_ ∷ _) waited = delay ∷ waited

abbrev tried : Option Text → Attempts → ℕ → List ℕ → Attempts
tried (some t) rest delay left = record { answer = some t; calls = 1; waited = [] }
tried none rest delay left = record {
  answer = rest.answer;
  calls = suc rest.calls;
  waited = wait delay left rest.waited;
}

-- the loop over the delays, with the number of the next attempt
unfoldable pub retry : (ℕ → Option Text) → List ℕ → ℕ → Attempts
retry api [] attempt = record { answer = none; calls = 0; waited = [] }
retry api (delay ∷ left) attempt = tried (api attempt) (retry api left (attempt + 1)) delay left

-- `self._retry_delays`
abbrev retry_delays : List ℕ
retry_delays = 1 ∷ 2 ∷ 4 ∷ []

-- `none` stands for `ClaudeApiError`
unfoldable pub call_with_retry : (ℕ → Option Text) → Attempts
unfolding retry
call_with_retry api = retry api retry_delays 1

abbrev first_of_three : Option Text → Option Text → Option Text → Option Text
first_of_three (some t) _ _ = some t
first_of_three none (some t) _ = some t
first_of_three none none c = c

-- The answer is that of the first attempt of three that does not raise, and no call is made after it.
-- Between attempts one and then two seconds are waited: the third delay, of four seconds, never is.
pub call_with_retry_lem :
    (api : ℕ → Option Text)
    → let r = call_with_retry api in
      (r.answer ≡ first_of_three (api 1) (api 2) (api 3))
      × (r.calls ≡ (if is_some (api 1) then 1 else if is_some (api 2) then 2 else 3))
      × (r.waited ≡ take (r.calls - 1) (1 ∷ 2 ∷ []))
unfolding call_with_retry
call_with_retry_lem api = ground arith
