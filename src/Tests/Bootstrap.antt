-- ===== src/Tests/Bootstrap.antt =====
-- src/api/bootstrap_token.ts at a token of seven characters.
use ratline.Prelude.{◌≡◌, ◌↔◌, refl, true, false, List, [], ◌∷◌, none, some, arith}
use ratline.Prelude.Text.{Text, lit}
use ratline.Agent.Utf8.{encode}
use ratline.Bootstrap.{
  SecretsDir, answered, readable_by_others, mint_bootstrap_token, bootstrap_token_matches,
  bootstrap_state,
}
use ratline.Prelude.Text.Trim.{trim, trim_end, trim_start, is_space}
use ratline.Bootstrap.Laws.{
  spent_or_died, Operation, minting, presenting, step, run, fresh, written,
  run-spend_bootstrap_token, mint_bootstrap_token-run, bootstrap_token_matches_iff,
}

abbrev token : Text
token = lit "dG9-ZW4"

abbrev other : Text
other = lit "AAAA"

abbrev restarts : List Operation
restarts = minting other ∷ presenting other ∷ minting other ∷ []

abbrev claimable : SecretsDir
claimable = record { token = some (written token); spent = false }

-- A token file that the group may read (0o640) is refused, and not read.
loose_refused :
    bootstrap_token_matches token
      (record { token = some (record { content = token; mode = 416 }); spent = false })
    ≡ readable_by_others
unfolding bootstrap_token_matches bootstrap_state
loose_refused = refl

run-spend_bootstrap_token_example :
    (mint_bootstrap_token other (run restarts (spent_or_died false claimable))
      ≡ (answered none, run restarts (spent_or_died false claimable)))
    × (bootstrap_token_matches token (run restarts (spent_or_died false claimable))
        ≡ answered false)
run-spend_bootstrap_token_example = run-spend_bootstrap_token false restarts claimable other token

mint_bootstrap_token-run_example :
    (mint_bootstrap_token other (run restarts (step (minting token) fresh))
      ≡ (answered (some token), run restarts (step (minting token) fresh)))
    × ((bootstrap_token_matches other (run restarts (step (minting token) fresh)) ≡ answered true)
        ↔ (encode other ≡ encode token))
mint_bootstrap_token-run_example =
    mint_bootstrap_token-run token restarts other other refl (omega arith) refl

bootstrap_token_matches_iff_example : bootstrap_token_matches token claimable ≡ answered true
unfolding trim trim_end trim_start is_space
bootstrap_token_matches_iff_example =
    (bootstrap_token_matches_iff token claimable).1 (written token, refl, refl, omega arith, refl)
