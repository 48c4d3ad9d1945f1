-- ===== src/Start/Launch/Secured.antt =====
-- With which configuration the program runs.
use clip_share_desktop.Prelude.{◌≡◌, true, Option, none, some}
use clip_share_desktop.Config.{Config, is_set}
use clip_share_desktop.Config.Defaults.{IsReady}
use clip_share_desktop.World.{World}
use clip_share_desktop.Action.{Result, ok, err, stuck}
use clip_share_desktop.Start.Options.{Options}
use clip_share_desktop.Start.Launch.{Run, exited, commands, serves, crashed, is_given}

-- The fields that are used without a test are set, and those of TLS where it is on.
pub record IsSecured (c : Config) : Type 0 where
  pub ready : IsReady c
  pub tls :
      is_set c.secure_mode_enabled ≡ true
      → (is_given c.client_cert ≡ true)
        × (is_given c.ca_cert ≡ true)
        × (is_given c.trusted_servers ≡ true)

-- The program runs with such a configuration only.
abbrev pub RunsSecured : Run → Type 0
RunsSecured (exited killed success) = Unit
RunsSecured (commands c offset) = IsSecured c
RunsSecured (serves c killed jobs) = IsSecured c
RunsSecured crashed = Unit

abbrev OptionSecured : Option Config → Type 0
OptionSecured none = Unit
OptionSecured (some c) = IsSecured c

abbrev pub ResultSecured : Result Run → Type 0
ResultSecured (ok run) = RunsSecured run
ResultSecured err = Unit
ResultSecured stuck = Unit
