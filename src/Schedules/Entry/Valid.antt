-- ===== src/Schedules/Entry/Valid.antt =====
-- internal/schedules/schedule.go: what `Validate` assures.
use system_wrangler_backend.Prelude.{
  ◌≡◌, refl, subst, Bool, true, false, ◌&&◌, ◌||◌, not, Option, none, some, List, [], arith, Bytes,
  bytes_eq, ◌==◌, ltb, length,
}
use system_wrangler_backend.Schedules.Cron.{CronSchedule, parse_cron}
use system_wrangler_backend.Schedules.Cron.Next.{Zone}
use system_wrangler_backend.Schedules.Entry.{
  ScheduleInput, Error, Result, ok, fail, ◌>>=◌, or_err, refuse_if, invalid, max_name_len, trimmed,
  or_utc, validate_target, validate_trimmed, validate,
}

pub bind-ok :
    {A B : Type 0} (m : Result A) (f : A → Result B) (b : B)
    → (m >>= f) ≡ ok b
    → (a : A) × (m ≡ ok a) × (f a ≡ ok b)
bind-ok (ok a) f b h = (a, refl, h)
bind-ok (fail e) f b h = cc

pub or_err-ok : {A : Type 0} (e : Error) (o : Option A) (a : A) → or_err e o ≡ ok a → o ≡ some a
or_err-ok e none a h = cc
or_err-ok e (some x) a h = cc

pub ok_inj : {A : Type 0} (a b : A) → ok a ≡ ok b → a ≡ b
ok_inj a b h = cc

pub refuse_if-ok : (b : Bool) (u : Unit {0}) → refuse_if b ≡ ok u → b ≡ false
refuse_if-ok true u h = cc
refuse_if-ok false u h = refl

module _ (load_location : Bytes → Option Zone) where
  -- What a run of a schedule relies on.
  abbrev pub IsRunnable : Bytes → Bytes → Bool → Bool → Bool → Type 0
  IsRunnable expr tz check apply reboot =
      ((c : CronSchedule) × (parse_cron expr ≡ some c))
      × ((z : Zone) × (load_location tz ≡ some z))
      × (check || apply ≡ true)
      × (reboot ≡ true → apply ≡ true)

  module _ (unmarshal : Bytes → Option (List Bytes)) where
    -- The input that is returned, and what the tests before it have found.
    validate_trimmed-finds :
        (i input : ScheduleInput)
        → validate_trimmed unmarshal load_location i ≡ ok input
        → (or_utc i ≡ input)
          × ((c : CronSchedule) × (parse_cron i.cron_expr ≡ some c))
          × ((z : Zone) × (load_location (or_utc i).timezone ≡ some z))
          × (not i.run_check && not i.run_apply ≡ false)
          × (i.reboot_after_apply && not i.run_apply ≡ false)
    unfolding validate_trimmed
    validate_trimmed-finds i input h =
        let (_, _, h1) = bind-ok (refuse_if (i.name == [])) _ input h in
        let (_, _, h2) = bind-ok (refuse_if (ltb max_name_len (length i.name))) _ input h1 in
        let (c, parsed, h3) = bind-ok (or_err invalid (parse_cron i.cron_expr)) _ input h2 in
        let (z, located, h4) =
          bind-ok (or_err invalid (load_location (or_utc i).timezone)) _ input h3 in
        let (_, acts, h5) = bind-ok (refuse_if (not i.run_check && not i.run_apply)) _ input h4 in
        let (_, reboots, h6) =
          bind-ok (refuse_if (i.reboot_after_apply && not i.run_apply)) _ input h5 in
        let (_, _, h7) =
          bind-ok (validate_target unmarshal load_location i.target_kind i.target_value) _ input
            h6 in
        (
          ok_inj _ _ h7,
          (c, or_err-ok invalid _ c parsed),
          (z, or_err-ok invalid _ z located),
          refuse_if-ok _ _ acts,
          refuse_if-ok _ _ reboots,
        )

    runnable :
        (i input : ScheduleInput)
        → validate_trimmed unmarshal load_location i ≡ ok input
        → IsRunnable
            (or_utc i).cron_expr
            (or_utc i).timezone
            (or_utc i).run_check
            (or_utc i).run_apply
            (or_utc i).reboot_after_apply
    unfolding or_utc
    runnable i input h =
        let (_, parsed, located, acts, reboots) = validate_trimmed-finds i input h in
        (parsed, located, ground (arith, acts), λ r. ground (arith, reboots, r))

    pub validate-IsRunnable :
        (given input : ScheduleInput)
        → validate unmarshal load_location given ≡ ok input
        → IsRunnable input.cron_expr input.timezone input.run_check input.run_apply
            input.reboot_after_apply
    unfolding validate
    validate-IsRunnable given input h =
        let same = (validate_trimmed-finds (trimmed given) input h).0 in
        subst (λ i. IsRunnable i.cron_expr i.timezone i.run_check i.run_apply i.reboot_after_apply)
          same (runnable (trimmed given) input h)
