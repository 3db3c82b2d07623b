-- ===== src/Cli/Doctor/Verdict.antt =====
-- What the doctor says and what it does to the service.
use rubica_bot.Prelude.{
  ℕ, ◌+◌, ◌≡◌, ◌⊎◌, refl, ap, ◌∙◌, String, Bool, false, not, ◌&&◌, Option, List, [], ◌∷◌, ◌++◌,
  arith, inl, inr, Bool-cases, ◌<◌,
}
use rubica_bot.Prelude.Text.{is_empty}
use rubica_bot.Result.{IfOk}
use rubica_bot.Json.{Value, obj, no_fields}
use rubica_bot.Cli.Machine.{Machine, next, return, lift}
use rubica_bot.Cli.Machine.Keeps.{Gives, next-Gives, next-Gives_any, Keeps, next-leads}
use rubica_bot.Cli.Installer.Steps.{method_url}
use rubica_bot.Cli.Doctor.Checks.{DoctorCheck, is_fail, is_warn, number_of, render_doctor_tables}
use rubica_bot.Cli.Doctor.Checks.Counted.{render_doctor_tables_lem}
use rubica_bot.Cli.Doctor.Found.{Host, Options}
use rubica_bot.Cli.Doctor.System.{check_system, check_runtime}
use rubica_bot.Cli.Doctor.Service.{
  Settings, check_configuration, check_api, check_me, check_owner, check_webhook, call,
}
use rubica_bot.Cli.Doctor.Queue.{check_queue}
use rubica_bot.Cli.Doctor.Sqlite.{check_database}
use rubica_bot.Cli.Doctor.{issues, overall, env_data_of, settings_of, all_checks, doctor}

number_of-append :
    (p : DoctorCheck → Bool) (cs bs : List DoctorCheck)
    → number_of p (cs ++ bs) ≡ number_of p cs + number_of p bs
unfolding number_of
number_of-append p [] bs = omega arith
number_of-append p (c ∷ cs) bs = omega (arith, number_of-append p cs bs)

abbrev pub is_configured : Settings → Bool
is_configured s =
    s.env_there
    && not (is_empty s.token)
    && not (is_empty s.owner_id)
    && not (is_empty s.webhook_url)

module _ (h : Host) (o : Options) where
  unconfigured-fails :
      (s : Settings) → is_configured s ≡ false → 0 < number_of is_fail (check_configuration h o s)
  unfolding check_configuration number_of
  unconfigured-fails s missing = ground arith

  overall-issues : (f w : ℕ) → 0 < f → overall (f, w) ≡ issues
  overall-issues f w h = ground arith

  module _ (env : Option String) where
    -- A failed check is among the checks.
    abbrev Failing : List DoctorCheck → Type 0
    Failing checks = 0 < number_of is_fail checks

    all_checks-Failing :
        is_configured (settings_of o env) ≡ false
        → (m : Machine) → Gives Failing (all_checks h o env m)
    unfolding all_checks
    all_checks-Failing missing m =
        let s = settings_of o env in
        let configuration = check_configuration h o s in
        let database = check_database h (env_data_of env) o.skip_db in
        next-Gives_any Failing {B = List DoctorCheck} _ (lift (check_system h o) m) (λ system m1.
          next-Gives_any Failing {B = List DoctorCheck} _ (lift (check_runtime h o) m1)
            (λ runtime m2.
              next-Gives_any Failing
                (λ api m3.
                  next
                    (λ queue.
                      return
                        (system ++ (runtime ++ (configuration ++ (api ++ (queue ++ database))))))
                    (lift (check_queue h o) m3))
                (check_api h o s m2)
                (λ api m3.
                  next-Gives_any Failing
                    (λ queue.
                      return
                        (system ++ (runtime ++ (configuration ++ (api ++ (queue ++ database))))))
                    (lift (check_queue h o) m3)
                    (λ queue m4. omega (
                      arith,
                      number_of-append is_fail system
                          (runtime ++ (configuration ++ (api ++ (queue ++ database)))),
                      number_of-append is_fail runtime
                          (configuration ++ (api ++ (queue ++ database))),
                      number_of-append is_fail configuration (api ++ (queue ++ database)),
                      unconfigured-fails s missing,
                    )))))

    -- Where a setting is missing that the bot needs, or the file .env, the doctor reports issues,
    -- whatever else it finds and skips, if it comes to an end.
    pub doctor-unconfigured :
        is_configured (settings_of o env) ≡ false
        → (m : Machine) → IfOk (λ v. v ≡ issues) (doctor h o env m).0
    unfolding doctor
    doctor-unconfigured missing m =
        next-Gives (λ v. v ≡ issues) Failing
          (λ checks. return (overall (render_doctor_tables checks))) (all_checks h o env m)
          (all_checks-Failing missing m)
          (λ checks m' failing.
            ap overall (render_doctor_tables_lem checks)
            ∙ overall-issues (number_of is_fail checks) (number_of is_warn checks) failing)

  module _ (s : Settings) (before : List (String × Value)) where
    -- Posted are those of before and at most the question who the bot is.
    abbrev pub AsksOnly : Machine → Type 0
    AsksOnly m =
        (m.posted ≡ before)
        ⊎ (m.posted ≡ before ++ (method_url s.api_base s.token "getMe", obj no_fields) ∷ [])

    check_me-AsksOnly : (m : Machine) → m.posted ≡ before → AsksOnly (check_me h o s m).1
    unfolding check_me call
    check_me-AsksOnly m e = elim (Bool-cases o.skip_rubika) [
      | inl skip ↦ rw skip (inl e)
      | inr ask ↦ elim (Bool-cases (is_empty s.token)) [
        | inl missing ↦ rw (ask, missing) (inl e)
        | inr given ↦
            rw (ask, given)
              (inr (ap (λ l. l ++ (method_url s.api_base s.token "getMe", obj no_fields) ∷ []) e))
      ]
    ]

    check_owner-Keeps : o.send_owner ≡ false → Keeps AsksOnly (check_owner h o s)
    unfolding check_owner
    check_owner-Keeps quiet m k = rw quiet k

    check_webhook-Keeps : o.apply_webhook ≡ false → Keeps AsksOnly (check_webhook h o s)
    unfolding check_webhook
    check_webhook-Keeps dry m k =
        elim (Bool-cases
          (o.test_webhook && not (is_empty s.token) && not (is_empty s.webhook_url))) [
            | inl test ↦ rw (test, dry) k
            | inr leave ↦ rw leave k
          ]

    check_api-AsksOnly :
        o.send_owner ≡ false
        → o.apply_webhook ≡ false
        → (m : Machine) → m.posted ≡ before
        → AsksOnly (check_api h o s m).1
    unfolding check_api
    check_api-AsksOnly quiet dry m e =
        next-leads AsksOnly AsksOnly _ (check_me h o s m) (check_me-AsksOnly m e) (λ m' k. k)
          (λ me m1 k1.
            next-leads AsksOnly AsksOnly _ (check_owner h o s m1) (check_owner-Keeps quiet m1 k1)
              (λ m' k. k)
              (λ owner m2 k2.
                next-leads AsksOnly AsksOnly (λ webhook. return (me ++ (owner ++ webhook)))
                  (check_webhook h o s m2) (check_webhook-Keeps dry m2 k2) (λ m' k. k)
                  (λ webhook m3 k3. k3)))

  -- Without --send-owner and --apply-webhook the doctor posts nothing but at most one getMe, however it
  -- ends.
  pub doctor-AsksOnly :
      (env : Option String) (m : Machine)
      → o.send_owner ≡ false
      → o.apply_webhook ≡ false
      → AsksOnly (settings_of o env) m.posted (doctor h o env m).1
  unfolding doctor all_checks
  doctor-AsksOnly env m quiet dry =
      let s = settings_of o env in
      let P = AsksOnly s m.posted in
      let Q = λ (m' : Machine). m'.posted ≡ m.posted in
      next-leads P P _ (all_checks h o env m)
        (next-leads Q P _ (lift (check_system h o) m) refl (λ m' k. inl k)
          (λ system m1 k1.
            next-leads Q P _ (lift (check_runtime h o) m1) k1 (λ m' k. inl k)
              (λ runtime m2 k2.
                next-leads P P _ (check_api h o s m2)
                  (check_api-AsksOnly s m.posted quiet dry m2 k2) (λ m' k. k)
                  (λ api m3 k3.
                    next-leads P P _ (lift (check_queue h o) m3) k3 (λ m' k. k)
                      (λ queue m4 k4. k4)))))
        (λ m' k. k) (λ checks m' k. k)
