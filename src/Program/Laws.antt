-- ===== src/Program/Laws.antt =====
-- When the backfill program reports success.
use transisi_db.Prelude.{
  ◌≡◌, ◌↔◌, ◌⊎◌, refl, sym, ap, subst, ◌∙◌, Bool, true, false, not, Option, none, some, arith,
  if◌then◌else◌,
}
use transisi_db.Config.{Config, TableConfig, Loaded, loaded, not_loaded, load, lookup, is_empty}
use transisi_db.Backfill.{
  Ending, stopped, finished, cancelled, already_running, count_failed, batch_error, still_running,
}
use transisi_db.Program.{
  Flags, World, Report, completed, no_table_flag, disabled, table_disabled, no_connection, report,
  job, with_table, with_config, main,
}

report_completed_iff : (e : Ending) → (report e ≡ completed) ↔ ((e ≡ finished) ⊎ (e ≡ stopped))
unfolding report
report_completed_iff already_running = ground arith
report_completed_iff count_failed = ground arith
report_completed_iff cancelled = ground arith
report_completed_iff stopped = ground arith
report_completed_iff finished = ground arith
report_completed_iff batch_error = ground arith
report_completed_iff still_running = ground arith

-- The table is configured and enabled, and the job came to its end or was stopped.
abbrev pub IsSuccess : Flags → World → Config → Type 0
IsSuccess flags w c =
    (c.backfill.enabled ≡ true)
    × (t : TableConfig) × (lookup flags.table c.tables ≡ some t)
    × (t.enabled ≡ true)
    × (w.connects ≡ true)
    × ((job flags w c ≡ finished) ⊎ (job flags w c ≡ stopped))

tests :
    (b d r : Bool) (x : Report)
    → ((if not b then table_disabled else if not d then no_connection else if r then x else x)
        ≡ completed)
      ↔ ((b ≡ true) × (d ≡ true) × (x ≡ completed))
tests b d r x = ground arith

enabled_first :
    (b : Bool) (x : Report)
    → ((if not b then disabled else x) ≡ completed) ↔ ((b ≡ true) × (x ≡ completed))
enabled_first b x = ground arith

some_eq : {A : Type 0} {a b : A} → some a ≡ some b → a ≡ b
some_eq h = cc

loaded_eq : {c d : Config} → loaded c ≡ loaded d → c ≡ d
loaded_eq h = cc

with_table_iff :
    (flags : Flags) (w : World) (c : Config) (o : Option TableConfig)
    → (with_table flags w c o ≡ completed) ↔ (
        (t : TableConfig) × (o ≡ some t)
        × (t.enabled ≡ true)
        × (w.connects ≡ true)
        × ((job flags w c ≡ finished) ⊎ (job flags w c ≡ stopped)))
unfolding with_table
with_table_iff flags w c none =
    (λ h. absurd (ground arith), λ (t, e, _, _, _). absurd (ground arith))
with_table_iff flags w c (some t) =
    let g = tests t.enabled w.connects flags.dry_run (report (job flags w c)) in
    let r = report_completed_iff (job flags w c) in
    (
      λ h. let (on, up, x) = g.0 h in (t, refl, on, up, r.0 x),
      λ (u, e, on, up, x). g.1 (ap (λ (t : TableConfig). t.enabled) (some_eq e) ∙ on, up, r.1 x),
    )

with_config_iff :
    (flags : Flags) (w : World) (l : Loaded)
    → (with_config flags w l ≡ completed) ↔ ((c : Config) × (l ≡ loaded c) × IsSuccess flags w c)
unfolding with_config
with_config_iff flags w (not_loaded e) =
    (λ h. absurd (ground arith), λ (c, e, _). absurd (ground arith))
with_config_iff flags w (loaded c) =
    let g = with_table_iff flags w c (lookup flags.table c.tables) in
    let r = enabled_first c.backfill.enabled (with_table flags w c (lookup flags.table c.tables)) in
    (
      λ h.
          let (on, x) = r.0 h in
          let (t, e, enabled, up, s) = g.0 x in (c, refl, (on, t, e, enabled, up, s)),
      λ (d, e, s).
          let (on, t, f, enabled, up, x) = subst (IsSuccess flags w) (sym (loaded_eq e)) s in
          r.1 (on, g.1 (t, f, enabled, up, x)),
    )

unless_empty :
    (b : Bool) (x : Report)
    → ((if b then no_table_flag else x) ≡ completed) ↔ ((b ≡ false) × (x ≡ completed))
unless_empty b x = ground arith

-- The program reports success exactly when a table is named, the file gives a valid configuration in
-- which the backfill and this table are enabled, the database connects, and the job finished or was
-- stopped; whether this was called a dry run makes no difference.
pub completed_iff :
    (flags : Flags) (w : World)
    → (main flags w ≡ completed) ↔ (
        (is_empty flags.table ≡ false)
        × ((c : Config) × (load w.file ≡ loaded c) × IsSuccess flags w c))
unfolding main
completed_iff flags w =
    let u = unless_empty (is_empty flags.table) (with_config flags w (load w.file)) in
    let g = with_config_iff flags w (load w.file) in
    (λ h. let (named, x) = u.0 h in (named, g.0 x), λ (named, x). u.1 (named, g.1 x))
