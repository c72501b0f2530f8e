-- ===== src/Schedules/Entry.antt =====
-- internal/schedules/schedule.go: schedules, their runs, and `Validate`. Parameters: `json.Unmarshal` into a list
-- of texts, and `time.LoadLocation`. Times are nanoseconds. Who created a schedule is left out.
pub mod Valid
use system_wrangler_backend.Prelude.{
  ℕ, Bool, true, false, ◌&&◌, not, Option, none, some, List, [], ◌∷◌, any, length, ltb,
  if◌then◌else◌, Bytes, codes, bytes_eq, ◌==◌,
}
use system_wrangler_backend.Prelude.Strings.{trim_space}
use system_wrangler_backend.Schedules.Cron.{parse_cron}
use system_wrangler_backend.Schedules.Cron.Next.{Zone}

pub data TargetKind : Type 0 where
  global group systems selector : TargetKind
  other : Bytes → TargetKind

pub data RunStatus : Type 0 where
  running success partial failed : RunStatus

pub record Schedule : Type 0 where
  pub id : Bytes
  pub name : Bytes
  pub cron_expr : Bytes
  pub timezone : Bytes
  pub run_check : Bool
  pub run_apply : Bool
  pub reboot_after_apply : Bool
  pub target_kind : TargetKind
  pub target_value : Bytes
  pub enabled : Bool
  pub next_run_at : Option ℕ
  pub last_run_at : Option ℕ
  pub last_status : Option RunStatus
  pub created_at : ℕ
  pub updated_at : ℕ

pub record ScheduleInput : Type 0 where
  pub name : Bytes
  pub cron_expr : Bytes
  pub timezone : Bytes
  pub run_check : Bool
  pub run_apply : Bool
  pub reboot_after_apply : Bool
  pub target_kind : TargetKind
  pub target_value : Bytes
  pub enabled : Bool

pub record ScheduleRun : Type 0 where
  pub id : Bytes
  pub schedule_id : Bytes
  pub started_at : ℕ
  pub finished_at : Option ℕ
  pub status : RunStatus
  pub targets_attempted : ℕ
  pub targets_succeeded : ℕ
  pub targets_failed : ℕ

-- `ErrNotFound`, `ErrInvalid`, the `ErrInvalidCron` of a search that gave up, and the error of an INSERT
-- whose primary key is there already.
pub data Error : Type 0 where
  not_found invalid gave_up taken : Error

pub data Result (A : Type 0) : Type 0 where
  ok : A → Result A
  fail : Error → Result A

infixl 5 ◌>>=◌
abbrev pub ◌>>=◌ : {A B : Type 0} → Result A → (A → Result B) → Result B
ok a >>= f = f a
fail e >>= f = fail e

-- A call that gives an error, and `if c { return ErrInvalid }`.
abbrev pub or_err : {A : Type 0} → Error → Option A → Result A
or_err e none = fail e
or_err e (some a) = ok a

abbrev pub refuse_if : Bool → Result (Unit {0})
refuse_if true = fail invalid
refuse_if false = ok tt

-- The primary key of a table.
abbrev pub refuse_found : {A : Type 0} → Option A → Result (Unit {0})
refuse_found none = ok tt
refuse_found (some _) = fail taken

is_empty : List Bytes → Bool
is_empty [] = true
is_empty (_ ∷ _) = false

abbrev pub max_name_len : ℕ
max_name_len = 255

-- The four fields without the space round them.
unfoldable pub trimmed : ScheduleInput → ScheduleInput
trimmed input = record input {
  name = trim_space input.name;
  cron_expr = trim_space input.cron_expr;
  timezone = trim_space input.timezone;
  target_value = trim_space input.target_value;
}

unfoldable pub or_utc : ScheduleInput → ScheduleInput
or_utc input = record input {
  timezone = if input.timezone == [] then codes "UTC" else input.timezone;
}

module _ (unmarshal : Bytes → Option (List Bytes)) (load_location : Bytes → Option Zone) where
  pub validate_ids : List Bytes → Result (Unit {0})
  unfolding is_empty
  validate_ids ids =
      refuse_if (is_empty ids) >>= λ _. refuse_if (any (λ id. trim_space id == []) ids)

  -- The switch over the kind of target.
  unfoldable pub validate_target : TargetKind → Bytes → Result (Unit {0})
  unfolding validate_ids
  validate_target global value = refuse_if (not (value == []))
  validate_target group value = refuse_if (value == [])
  validate_target systems value = or_err invalid (unmarshal value) >>= validate_ids
  validate_target selector value = refuse_if (value == [])
  validate_target (other _) value = fail invalid

  -- The tests on the trimmed fields, in their order.
  unfoldable pub validate_trimmed : ScheduleInput → Result ScheduleInput
  unfolding validate_target or_utc
  validate_trimmed input = do
    _ ← refuse_if (input.name == [])
    _ ← refuse_if (ltb max_name_len (length input.name))
    _ ← or_err invalid (parse_cron input.cron_expr)
    _ ← or_err invalid (load_location (or_utc input).timezone)
    _ ← refuse_if (not input.run_check && not input.run_apply)
    _ ← refuse_if (input.reboot_after_apply && not input.run_apply)
    _ ← validate_target input.target_kind input.target_value
    ok (or_utc input)

  -- The input as it is behind a call that gives no error.
  unfoldable pub validate : ScheduleInput → Result ScheduleInput
  unfolding validate_trimmed trimmed
  validate input = validate_trimmed (trimmed input)
