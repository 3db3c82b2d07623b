-- ===== src/Db/Migrations/Upgrade.antt =====
-- `ensure_schema`: it returns, every table and index of the program is there afterwards, and a second
-- run changes nothing.
use rubica_bot.Prelude.{
  ℕ, zero, suc, ◌+◌, ◌-◌, ◌≡◌, refl, ap, ◌∙◌, true, List, [], ◌∷◌, ltb, ◌==◌, if◌then◌else◌, inl,
  inr, arith, Bool-cases,
}
use rubica_bot.Prelude.Lists.{any, all}
use rubica_bot.Result.{ok, ◌>>=◌, Returns, Returns-bind}
use rubica_bot.Db.Messages.Selection.{All}
use rubica_bot.Db.Migrations.{
  Schema, find_table, execute_all, schema_version, initial_schema, migrations, migrate,
  map_versions, set_versions, upgrade, ensure_schema, idx_messages_chat_created,
  idx_incoming_updates_job, idx_incoming_updates_received,
}
use rubica_bot.Db.Migrations.Statements.{
  AllDone, Extends, Fits, Holds, IsDeclared, declared, execute_all_held, execute_all_lem,
  is_ordered, tables_of,
}

initial-IsDeclared : All IsDeclared initial_schema
unfolding declared find_table tables_of any all
initial-IsDeclared = (
  refl,
  (
    refl,
    (refl, (refl, (refl, (on_messages, (refl, (refl, (refl, (on_job, (on_received, tt))))))))),
  ),
)
  where
    on_messages : IsDeclared idx_messages_chat_created
    on_messages = (_, refl, refl)

    on_job : IsDeclared idx_incoming_updates_job
    on_job = (_, refl, refl)

    on_received : IsDeclared idx_incoming_updates_received
    on_received = (_, refl, refl)

initial_ordered : is_ordered [] initial_schema ≡ true
unfolding any
initial_ordered = refl

-- Every migration's statement is one of the initial schema's.
migrations_held :
    (version : ℕ) (s : Schema) → All (Holds s) initial_schema → All (Holds s) (migrations version)
migrations_held version s
      (_, (_, (_, (_, (_, (_, (_, (settings, (updates, (job, (received, _))))))))))) =
    elim (Bool-cases (version == 2)) [
      | inl two ↦ rw two (settings, tt)
      | inr not_two ↦ elim (Bool-cases (version == 3)) [
        | inl three ↦ rw not_two (rw three (updates, (job, tt)))
        | inr not_three ↦ elim (Bool-cases (version == 4)) [
          | inl four ↦ rw not_two (rw not_three (rw four (received, tt)))
          | inr not_four ↦ rw not_two (rw not_three (rw not_four tt))
        ]
      ]
    ]

migrate_held :
    (count version : ℕ) (s : Schema) → All (Holds s) initial_schema → migrate count version s ≡ ok s
unfolding migrate
migrate_held zero version s h = refl
migrate_held (suc count) version s h =
    ap (λ r. r >>= migrate count (version + 1))
      (execute_all_held (migrations version) s (migrations_held version s h))
    ∙ migrate_held count (version + 1) s h

-- The version that the file has afterwards: a newer one is left as it is.
unfoldable pub upgraded : List ℕ → List ℕ
upgraded [] = schema_version ∷ []
upgraded (v ∷ vs) = if ltb v schema_version then map_versions schema_version (v ∷ vs) else v ∷ vs

upgrade_lem :
    (versions : List ℕ) (s : Schema)
    → All (Holds s) initial_schema
    → s.versions ≡ versions
    → upgrade versions s ≡ ok (record s { versions = upgraded versions })
unfolding upgrade upgraded
upgrade_lem [] s h e = refl
upgrade_lem (v ∷ vs) s h e = elim (Bool-cases (ltb v schema_version)) [
  | inl older ↦ rw older (
      ap (λ r. r >>= set_versions) (migrate_held (schema_version - v) (v + 1) s h)
      ∙ ap (λ l. ok (record s { versions = map_versions schema_version l })) e)
  | inr newer ↦ rw newer (ap (λ l. ok (record s { versions = l })) e)
]

upgraded-upgraded : (versions : List ℕ) → upgraded (upgraded versions) ≡ upgraded versions
unfolding upgraded
upgraded-upgraded [] = refl
upgraded-upgraded (v ∷ vs) = elim (Bool-cases (ltb v schema_version)) [
  | inl older ↦ rw older refl
  | inr newer ↦ rw newer (rw newer refl)
]

abbrev pub IsEnsured : Schema → Schema → Type 0
IsEnsured s s' =
    All (Holds s') initial_schema
    × Extends s s'
    × (s'.versions ≡ upgraded s.versions)
    × (ensure_schema s' ≡ ok s')

settled :
    (s : Schema)
    → All (Holds s) initial_schema
    → upgraded s.versions ≡ s.versions
    → ensure_schema s ≡ ok s
unfolding ensure_schema
settled s h v =
    ap (λ r. r >>= λ c. upgrade c.versions c) (execute_all_held initial_schema s h)
    ∙ upgrade_lem s.versions s h refl
    ∙ ap (λ l. ok (record s { versions = l })) v

-- `ensure_schema` returns on every schema whose tables fit the program's. Afterwards each table and
-- index of the program is there and none is lost or changed, a version below 4 has become 4 and any
-- other is kept, and a second run changes nothing.
pub ensure_schema_lem : (s : Schema) → Fits s → Returns (IsEnsured s) (ensure_schema s)
unfolding ensure_schema any
ensure_schema_lem s f =
    Returns-bind (AllDone s initial_schema) (IsEnsured s) (execute_all initial_schema s)
      (λ c. upgrade c.versions c)
      (execute_all_lem [] initial_schema s initial-IsDeclared initial_ordered
        (λ n h. ground (arith, h)) f)
      (λ c (held, e, _, v).
        let done = record c { versions = upgraded c.versions } in
        rw (upgrade_lem c.versions c held refl)
          (held, e, ap upgraded v, settled done held (upgraded-upgraded c.versions)))
