-- ===== src/Config/Reloads.antt =====
-- What the table is behind any number of reloads.
use sni_router.Common.{
  Bool, ◌≡◌, ◌⊎◌, refl, ap, ◌∙◌, List, [], ◌∷◌, ◌++◌, Result, ok, err, Result-cases, inl, inr,
}
use sni_router.Lookup.Text.{Str}
use sni_router.Config.{ConfigError}
use sni_router.Config.App.{AppConfig, RawConfig, load}
use sni_router.Config.Reload.{
  FileRouteLookup, StartupSettings, snapshot, replace, reloaded, reload_from_path, reload_all,
}

module _ (has_whitespace : Str → Bool) (from_str : Str → Result ConfigError RawConfig) where
  -- None of the files is valid.
  abbrev pub AllFail : List (Result ConfigError Str) → Type 0
  AllFail [] = Unit
  AllFail (file ∷ files) =
      ((e : ConfigError) × (load has_whitespace from_str file ≡ err e)) × AllFail files

  -- The last of the files that is valid, and the table that it has.
  pub record IsLastValid (files : List (Result ConfigError Str)) (l : FileRouteLookup)
      : Type 0 where
    pub before : List (Result ConfigError Str)
    pub file : Result ConfigError Str
    pub after : List (Result ConfigError Str)
    pub config : AppConfig
    pub split : files ≡ before ++ file ∷ after
    pub valid : load has_whitespace from_str file ≡ ok config
    pub rest : AllFail after
    pub table : snapshot l ≡ config.routes

  -- After any number of reloads the routes are those of the last file that was valid as a whole, or those
  -- from the start if none was: a file with an error anywhere changes nothing.
  pub reload_all-IsLastValid :
      (files : List (Result ConfigError Str)) (startup : StartupSettings) (l : FileRouteLookup)
      → (AllFail files × (reload_all has_whitespace from_str files startup l ≡ l))
        ⊎ IsLastValid files (reload_all has_whitespace from_str files startup l)
  unfolding reload_all reload_from_path reloaded replace snapshot
  reload_all-IsLastValid [] startup l = inl (tt, refl)
  reload_all-IsLastValid (file ∷ files) startup l =
      let next = (reload_from_path has_whitespace from_str file startup l).0 in
      elim (reload_all-IsLastValid files startup next) [
        | inr i ↦ inr record {
          before = file ∷ i.before;
          file = i.file;
          after = i.after;
          config = i.config;
          split = ap (λ rest. file ∷ rest) i.split;
          valid = i.valid;
          rest = i.rest;
          table = i.table;
        }
        | inl (fail, same) ↦ elim (Result-cases (load has_whitespace from_str file)) [
          | inl (config, loaded) ↦ inr record {
            before = [];
            file = file;
            after = files;
            config = config;
            split = refl;
            valid = loaded;
            rest = fail;
            table =
                ap (λ (x : FileRouteLookup). x.table) same
                ∙ ap (λ r. (reloaded r startup l).0.table) loaded;
          }
          | inr (e, broken) ↦
              inl (((e, broken), fail), same ∙ ap (λ r. (reloaded r startup l).0) broken)
        ]
      ]
