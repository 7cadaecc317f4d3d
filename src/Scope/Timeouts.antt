-- ===== src/Scope/Timeouts.antt =====
-- scope.go: `getTimeoutWithErrMsg`, `maxQueueTime` and `calculateQueueDeadlineAndSleep`. Durations
-- are signed numbers of nanoseconds.
use chproxy.Base.{
  arith, false, if◌then◌else◌, int_le, int_lt, is_positive, is_zero, ltb, magnitude, not, pos, true,
  ℕ, ℤ, ◌&&◌, ◌*◌, ◌+◌, ◌/◌, ◌^◌, ◌||◌, ◌≡◌, ◌≤◌, ◌⊎◌,
}
use chproxy.Scope.Types.{Scope}

-- Whose limit the message of a timeout names.
pub data TimeoutOf : Type 0 where
  no_timeout user_timeout cluster_user_timeout : TimeoutOf

pub get_timeout : ℤ → ℤ → ℤ × TimeoutOf
get_timeout user cluster_user =
    let (timeout, whose) = if is_positive user then (user, user_timeout) else (pos 0, no_timeout) in
    if is_zero timeout || (is_positive cluster_user && int_lt cluster_user timeout)
    then (cluster_user, cluster_user_timeout)
    else (timeout, whose)

unfoldable pub get_timeout_with_err_msg : Scope → ℤ × TimeoutOf
unfolding get_timeout
get_timeout_with_err_msg s = get_timeout s.user.max_execution_time s.cluster_user.max_execution_time

abbrev pub second : ℕ
second = 10 ^ 9

abbrev pub millisecond : ℕ
millisecond = 10 ^ 6

pub queue_time : ℤ → ℤ → ℤ
queue_time user cluster_user =
    let d =
      if not (is_positive user) || (is_positive cluster_user && int_lt cluster_user user)
      then cluster_user
      else user in
    if not (is_positive d) then pos (10 * second) else d

pub max_queue_time : Scope → ℤ
unfolding queue_time
max_queue_time s = queue_time s.user.max_queue_time s.cluster_user.max_queue_time

-- The time of one sleep, and the deadline, from a queue time that is positive.
pub sleep_time : ℕ → ℕ
sleep_time d =
    let d_sleep = d / 10 in
    let at_most = if ltb second d_sleep then second else d_sleep in
    if ltb at_most millisecond then millisecond else at_most

unfoldable pub calculate_queue_deadline_and_sleep : (now : ℕ) → Scope → ℕ × ℕ
unfolding max_queue_time sleep_time
calculate_queue_deadline_and_sleep now s =
    let d = magnitude (max_queue_time s) in (sleep_time d, now + d)

-- The least positive one of two limits, of which one that is not positive is none.
pub data LeastLimit (user cluster_user : ℤ) : ℤ → Type 0 where
  of_user :
      {d : ℤ}
      → is_positive user ≡ true
      → d ≡ user
      → (is_positive cluster_user ≡ false) ⊎ (int_le user cluster_user ≡ true)
      → LeastLimit user cluster_user d
  of_cluster_user :
      {d : ℤ}
      → is_positive cluster_user ≡ true
      → d ≡ cluster_user
      → (is_positive user ≡ false) ⊎ (int_lt cluster_user user ≡ true)
      → LeastLimit user cluster_user d
  of_neither :
      {d : ℤ}
      → is_positive user ≡ false
      → is_positive cluster_user ≡ false
      → LeastLimit user cluster_user d

-- The time of a request in the queue is the smaller one of the two configured times, the other one
-- where one is not positive, and ten seconds where neither is.
queue_time-least :
    (user cluster_user : ℤ)
    → (LeastLimit user cluster_user (queue_time user cluster_user)
        × (is_positive (queue_time user cluster_user) ≡ true))
      × (is_positive user ≡ false
          → is_positive cluster_user ≡ false
          → queue_time user cluster_user ≡ pos (10 * second))
unfolding queue_time
queue_time-least u c =
    ((grind (arith, of_user, of_cluster_user, of_neither), ground arith), ground arith)

-- A positive timeout is the smaller one of the two configured times, or the one that is positive;
-- the message names the one that was taken. Where neither is positive, there is no timeout.
get_timeout-least :
    (user cluster_user : ℤ)
    → LeastLimit user cluster_user (get_timeout user cluster_user).0
      × (is_positive user ≡ false
          → is_positive cluster_user ≡ false
          → is_positive (get_timeout user cluster_user).0 ≡ false)
unfolding get_timeout
get_timeout-least u c = (grind (arith, of_user, of_cluster_user, of_neither), ground arith)

-- A sleep in the queue takes between a millisecond and a second.
pub sleep_time_bounds : (d : ℕ) → (millisecond ≤ sleep_time d) × (sleep_time d ≤ second)
unfolding sleep_time
sleep_time_bounds d = ground arith
