-- ===== src/Incidents/Worker/Notices.antt =====
-- What a job says, and when it is tried again: `notificationFor`, `fallbackName` and `retryDelay` of
-- internal/incidents/worker.go, and the types of internal/notification/notification.go.
use logthing.Prelude.{
  ℕ, zero, suc, ◌+◌, ◌*◌, ◌%◌, ◌^◌, ◌≤◌, min, String, Bool, [], ◌∷◌, ◌==◌, if◌then◌else◌, arith,
}
use logthing.Prelude.Text.{concat}
use logthing.Incidents.Types.{Kind, kind_text, Incident, NotificationJob}

pub record Notification : Type 0 where
  pub event_id : String
  pub kind : Kind
  pub severity : String
  pub title : String
  pub body : String
  pub occurred_at : ℕ
  pub incident_id : String
  pub link : String

-- What `Notifier.Send` gives: a receipt, a `SendError` (a wait of 0 or less is 0), or another error.
pub data Outcome : Type 0 where
  delivered : (adapter external_id : String) → Outcome
  send_error : (message : String) (permanent : Bool) (retry_after : ℕ) → Outcome
  other_error : (message : String) → Outcome

-- What the worker takes from elsewhere.
pub record Outside : Type 0 where
  -- The 32-bit FNV-1a hash of a text.
  pub hash : String → ℕ
  -- `Duration.String`
  pub duration : ℕ → String
  -- The text of the time from the second argument to the first, rounded to a second.
  pub between : ℕ → ℕ → String
  -- A text as `fmt.Sprintf` prints it with "%q".
  pub quote : String → String
  -- The notifier.
  pub send : Notification → Outcome

abbrev fallback_name : String → String
fallback_name iface =
    if iface == "wwan" then "Starlink" else if iface == "tethering" then "4G tethering" else iface

pub data NotificationResult : Type 0 where
  notification : Notification → NotificationResult
  unsupported : String → NotificationResult

module _ (o : Outside) (job : NotificationJob) (i : Incident) where
  abbrev message_of : String → String → String → NotificationResult
  message_of severity title body = notification (record {
    event_id = job.id;
    kind = job.kind;
    severity = severity;
    title = title;
    body = body;
    occurred_at = job.created_at;
    incident_id = i.id;
    link = "";
  })

  abbrev recovered_body : String
  recovered_body = concat (
      i.hostname
      ∷ " "
      ∷ i.interface
      ∷ " was healthy continuously for "
      ∷ o.duration i.recovered_after
      ∷ ". Incident duration: "
      ∷ o.between job.created_at i.started_at
      ∷ "."
      ∷ [])

  abbrev down_body : String → String → String
  down_body been rest =
      concat (i.hostname ∷ " " ∷ i.interface ∷ been ∷ o.duration i.down_after ∷ rest ∷ [])

  abbrev unsupported_kind : Kind → NotificationResult
  unsupported_kind kind =
      unsupported (concat ("unsupported notification kind " ∷ o.quote (kind_text kind) ∷ []))

  abbrev notification_of_kind : Kind → NotificationResult
  notification_of_kind Kind.fallback_resolved =
      message_of "info" (concat ("🟢 " ∷ fallback_name i.interface ∷ " backup recovered" ∷ []))
        recovered_body
  notification_of_kind Kind.fallback_escalated =
      message_of "critical"
        (concat ("🔴 Primary WAN and " ∷ fallback_name i.interface ∷ " backup down" ∷ []))
        (down_body " has also been offline for " ". Remaining connectivity is unknown.")
  notification_of_kind Kind.fallback_opened =
      message_of "warning" (concat ("🟠 " ∷ fallback_name i.interface ∷ " backup down" ∷ []))
        (down_body " has been offline for " "; primary WAN remains healthy.")
  notification_of_kind Kind.incident_resolved =
      message_of "info" "🟢 Primary WAN recovered" recovered_body
  notification_of_kind Kind.incident_opened =
      message_of "critical" "🔴 Primary WAN down"
        (down_body " has been offline for " ". Backup connectivity is unknown.")
  notification_of_kind Kind.test = unsupported_kind Kind.test
  notification_of_kind (Kind.other text) = unsupported_kind (Kind.other text)

  unfoldable pub notification_for : NotificationResult
  notification_for = notification_of_kind job.kind

-- The wait before the attempt, in nanoseconds: 2^(attempt-1) minutes, an hour at most, and a jitter
-- of a tenth of it. It is counted in half minutes, since attempt 0 has half a minute, and is exact
-- where Go rounds the product of two floating-point numbers.
abbrev backoff_half_minutes : ℕ → ℕ
backoff_half_minutes attempt = min 120 (2 ^ attempt)

pub retry_delay : Outside → String → ℕ → ℕ
retry_delay o job_id attempt =
    backoff_half_minutes attempt * 3000000 * (9000 + o.hash job_id % 2001)

power_positive : (n : ℕ) → 1 ≤ 2 ^ n
power_positive zero = omega arith
power_positive (suc n) = omega (arith, power_positive n)

mul-le_right : (m n k : ℕ) → m ≤ n → m * k ≤ n * k
mul-le_right zero n k h = omega arith
mul-le_right (suc m) zero k h = omega arith
mul-le_right (suc m) (suc n) k h = omega (arith, mul-le_right m n k (omega arith))

jitter_bounds :
    (m j : ℕ)
    → 2 ≤ m
    → m ≤ 120
    → j ≤ 2000
    → (54000000000 ≤ m * 3000000 * (9000 + j)) × (m * 3000000 * (9000 + j) ≤ 3960000000000)
jitter_bounds m j low high small = (omega arith, omega (arith, mul-le_right m 120 j high))

-- The wait before every attempt from the first on is at least 54 seconds and at most 66 minutes.
pub retry_delay_lem :
    (o : Outside) (job_id : String) (attempt : ℕ)
    → 1 ≤ attempt
    → (54000000000 ≤ retry_delay o job_id attempt) × (retry_delay o job_id attempt ≤ 3960000000000)
unfolding retry_delay
retry_delay_lem o job_id (suc n) h =
    jitter_bounds (backoff_half_minutes (suc n)) (o.hash job_id % 2001)
      (omega (arith, power_positive n)) (omega arith) (omega arith)
retry_delay_lem o job_id zero h = absurd (omega arith)
