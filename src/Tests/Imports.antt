-- ===== src/Tests/Imports.antt =====
-- Runs of the transcript import and of herdr's resolver at concrete inputs.
use antitimely.Prelude.{ℕ, ◌≡◌, refl, inl, false, Option, none, some, List, [], ◌∷◌, map, arith}
use antitimely.Prelude.Int.{pos}
use antitimely.Prelude.Text.{codes, str_eq, trim_right, has_char}
use antitimely.Domain.Signal.{RuleSpec}
use antitimely.Domain.Rules.{match_rules, match_one}
use antitimely.Domain.Cwd.{matches_cwd}
use antitimely.Store.Observing.{Db, upsert_observation, insert_tick}
use antitimely.Daemon.Import.{
  Stamp, Line, Progress, Transcript, ImportArgs, split_blocks, import_transcripts,
}
use antitimely.Daemon.Import.Blocks.{Group, ArePaused, stamps_in, block_of, split_blocks-groups}
use antitimely.Daemon.Import.Grid.{Ends, import_transcripts-Ends}
use antitimely.Daemon.Import.Grid.Again.{import_transcripts_again}
use antitimely.Herdr.{
  SessionFile, View, Resolver, new_resolver, reload, spaces_of, learn, space_for_pane,
  space_for_session, space,
}
use antitimely.Herdr.Closed.{reload-fail_closed}

-- A pause of 400 seconds is above the grace of 300.
abbrev stamps : List ℕ
stamps = 1000 ∷ 1100 ∷ 1500 ∷ []

split_run : split_blocks stamps 300 ≡ (1000, 1100) ∷ (1500, 1500) ∷ []
unfolding split_blocks
split_run = refl

split_blocks-groups_example :
    (groups : List Group) × (stamps_in groups ≡ stamps)
    × (map block_of groups ≡ split_blocks stamps 300)
    × ArePaused 300 groups
split_blocks-groups_example = split_blocks-groups 300 stamps

abbrev entry : ℕ → Line
entry u = some (record { cwd = codes "/w/site"; timestamp = Stamp.at u })

abbrev session : Transcript
session = record {
  dir = codes "-w-site";
  session = codes "s1";
  lines = entry 1100 ∷ none ∷ entry 1000 ∷ entry 1500 ∷ [];
}

abbrev site_rule : RuleSpec
site_rule = record {
  id = 1;
  project_id = 4;
  priority = pos 100;
  match_bundle_id = none;
  match_title_substr = none;
  match_binary_name = none;
  match_cwd_prefix = some (codes "/w/site");
  match_space_id = none;
}

abbrev import_args : ImportArgs
import_args = record {
  from = 0;
  to = 2000;
  grace = 300;
  interval = 50;
  rules = site_rule ∷ [];
  faults = record { upsert = λ s. false; look = λ t. false; insert = λ t. false };
}

abbrev no_rows : Db
no_rows = record { observations = []; ignored = λ i. false; ticks = []; paused = λ p. false }

import_transcripts-Ends_example :
    Ends import_args [] (import_transcripts import_args (session ∷ []) 0 no_rows)
import_transcripts-Ends_example =
    import_transcripts-Ends import_args (session ∷ []) 0 no_rows
      (record { step = omega arith; look = λ t. refl })

abbrev after_import : Option Progress → ℕ × Db
after_import (some (Progress.going n db)) = (n, db)
after_import _ = (0, no_rows)

-- Three seconds of the first block and one of the second.
import_run : (after_import (import_transcripts import_args (session ∷ []) 0 no_rows)).0 ≡ 4
unfolding import_transcripts match_rules match_one matches_cwd trim_right has_char str_eq
    upsert_observation insert_tick
import_run = refl

import_transcripts_again_example :
    let db = (after_import (import_transcripts import_args (session ∷ []) 0 no_rows)).1 in
    (m : ℕ) × (import_transcripts import_args (session ∷ []) 0 db ≡ some (Progress.going m db))
unfolding import_transcripts match_rules match_one matches_cwd trim_right has_char str_eq
    upsert_observation insert_tick
import_transcripts_again_example =
    import_transcripts_again import_args (session ∷ []) 0 4 0 no_rows
      (after_import (import_transcripts import_args (session ∷ []) 0 no_rows)).1 (λ t. refl) refl

abbrev good_file : SessionFile
good_file =
    record { id = codes "w1"; custom_name = none; tabs = (some (codes "u1") ∷ []) ∷ [] } ∷ []

abbrev gone : View
gone = record { stat = none; read = none }

abbrev back : View
back = record { stat = some (5, 9); read = some (some good_file) }

abbrev resolver : Resolver
resolver = new_resolver (codes "/h/session.json")

reload-fail_closed_example :
    let r' = reload back (reload gone resolver) in
    ((space_for_pane gone (codes "w1:p1") resolver).0 ≡ none)
    × ((space_for_session gone (codes "u1") resolver).0 ≡ none)
    × ((space gone (codes "w1") resolver).0 ≡ none)
    × (r'.spaces ≡ spaces_of good_file (λ i. none))
    × (r'.sessions ≡ learn good_file (λ u. none))
unfolding new_resolver
reload-fail_closed_example =
    reload-fail_closed gone back resolver (codes "w1:p1") (codes "u1") (codes "w1") (5, 9) good_file
      refl (inl refl) refl refl
