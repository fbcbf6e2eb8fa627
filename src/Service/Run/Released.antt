-- ===== src/Service/Run/Released.antt =====
-- That the process releases what it takes.
use careerpilot.Base.{
  ℕ, ◌+◌, ◌≡◌, refl, ◌⊎◌, inl, inr, Bool, true, false, not, ◌&&◌, ◌||◌, Option, none, some, List,
  [], ◌∷◌, arith, nat_eq, ◌==◌, string_eq, Option-cases, int_eq, Error, ok, err, Result-cases,
}
use careerpilot.Config.{Environment, Config, load}
use careerpilot.Service.Database
use careerpilot.Service.Database.{Call, World, Db, open_database, close_database}
use careerpilot.Service.App.{App, new_app, close_app, app_with}
use careerpilot.Service.Run.{
  error_sent, interrupted, after_select, serve, serve_and_close, with_signals, run,
}

abbrev closing : Call → ℕ
closing Database.close_connection = 1
closing _ = 0

abbrev notifying : Call → ℕ
notifying Database.notify_signals = 1
notifying _ = 0

abbrev stopping : Call → ℕ
stopping Database.stop_signals = 1
stopping _ = 0

abbrev listening : Call → ℕ
listening (Database.listen_and_serve addr) = 1
listening _ = 0

-- How often a record of calls closes the connection, takes and releases the signals, and serves.
abbrev pub closes : List Call → ℕ
closes [] = 0
closes (c ∷ h) = closing c + closes h

abbrev pub notifies : List Call → ℕ
notifies [] = 0
notifies (c ∷ h) = notifying c + notifies h

abbrev pub stops : List Call → ℕ
stops [] = 0
stops (c ∷ h) = stopping c + stops h

abbrev pub listens : List Call → ℕ
listens [] = 0
listens (c ∷ h) = listening c + listens h

module _ (w : World) where
  -- Whether `app.New`, called after some calls, opens a connection.
  abbrev pub opens : Config → List Call → Bool
  opens cfg h =
      not (cfg.database_url == "")
      && elim (w.open_connection h cfg.database_url) [ none ↦ true | some e ↦ false ]

  -- Whether it returns an application: there is no database, or it is opened and answers.
  abbrev pub starts : Config → List Call → Bool
  starts cfg h =
      (cfg.database_url == "")
      || opens cfg h && elim (w.ping_connection (Database.open_connection cfg.database_url ∷ h)) [
        | none ↦ true
        | some e ↦ false
      ]

  -- The four counts, between two records.
  abbrev pub Counts : ℕ → ℕ → ℕ → ℕ → List Call → List Call → Type 0
  Counts closed notified stopped served h h' =
      (closes h' ≡ closed + closes h)
      × (notifies h' ≡ notified + notifies h)
      × (stops h' ≡ stopped + stops h)
      × (listens h' ≡ served + listens h)

  abbrev pub one_if : Bool → ℕ
  one_if true = 1
  one_if false = 0

  serve-Counts : (a : App) (h : List Call) → Counts 0 0 0 1 h (serve w a h).1
  unfolding serve after_select interrupted error_sent
  serve-Counts a h = ground arith

  abbrev has_db : Option Db → Bool
  has_db none = false
  has_db (some db) = true

  serve_and_close-Counts :
      (a : App) (h : List Call) → Counts (one_if (has_db a.db)) 0 0 1 h (serve_and_close w a h).1
  unfolding serve_and_close close_app close_database
  serve_and_close-Counts a h =
      let served = serve-Counts a h in
      elim (Option-cases a.db) [
        | inl none_open ↦ rw none_open (ground arith)
        | inr (db, is_open) ↦ rw is_open (ground arith)
      ]

  with_signals-Counts :
      (cfg : Config) (h : List Call)
      → let h' = Database.notify_signals ∷ h in
        Counts (one_if (opens cfg h')) 1 1 (one_if (starts cfg h')) h (with_signals w cfg h).1
  unfolding with_signals new_app open_database
  with_signals-Counts cfg h =
      let h' = Database.notify_signals ∷ h in
      let url = cfg.database_url in
      let h₁ = Database.open_connection url ∷ h' in
      let h₂ = Database.ping_connection ∷ h₁ in
      elim (string_eq.dec url "") [
        | yes unset ↦ let served = serve_and_close-Counts (app_with cfg none) h' in ground arith
        | no set_url ↦ elim (Option-cases (w.open_connection h' url)) [
          | inr (e, unopened) ↦ ground arith
          | inl opened ↦ elim (Option-cases (w.ping_connection h₁)) [
            | inr (e, unanswered) ↦ ground arith
            | inl answered ↦
                let served =
                  serve_and_close-Counts (app_with cfg (some (record { dsn = url }))) h₂ in
                ground arith
          ]
        ]
      ]

  -- A process whose configuration loads takes the signals once and releases them once, closes its
  -- database connection exactly once when it opened one and never otherwise, and serves once exactly
  -- when no database is configured or the opened connection has answered, whatever failed; one
  -- whose configuration does not load makes no call and returns that error.
  pub run_releases :
      (vars : Environment) (h : List Call)
      → let h' = Database.notify_signals ∷ h in
        ((cfg : Config) × (load vars ≡ ok cfg)
          × Counts (one_if (opens cfg h')) 1 1 (one_if (starts cfg h')) h (run w vars h).1)
        ⊎ ((e : Error) × (load vars ≡ err e) × (run w vars h ≡ (some e, h)))
  unfolding run
  run_releases vars h = elim (Result-cases (load vars)) [
    | inl (cfg, loads) ↦ inl (cfg, loads, rw (loads, run) (with_signals-Counts cfg h))
    | inr (e, fails) ↦ inr (e, fails, rw (fails, run) refl)
  ]
