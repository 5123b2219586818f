-- ===== src/Slots/Pace.antt =====
-- The interval of `WatchSlots`, from the command line to `time.NewTicker`.
use solana_exporter.Base.{
  ℕ, ◌≤◌, ℤ, pos, pos_part, neg_part, ◌≤ℤ◌, ltb_ℤ, Text, true, false, List, ◌≡◌, refl, ap, ◌∙◌,
  arith,
}
use solana_exporter.Exec.{stopped, panic, ◌>>=◌}
use solana_exporter.Rpc.Types.{ok}
use solana_exporter.Rpc.Client.{Client}
use solana_exporter.Config.Cli.{Setting, seconds, new_exporter_config_from_cli}
use solana_exporter.Config.Cli.Given.{
  last_slot_pace, seconds_lem, new_exporter_config_from_cli-IsGiven,
}
use solana_exporter.Slots.State.{Env, System}
use solana_exporter.Slots.Watching.{new_ticker, watch_rounds, watch_slots}

-- A number of seconds that fits into a duration.
abbrev pub IsDuration : ℤ → Type 0
IsDuration n = (pos_part n ≤ 9223372036) × (neg_part n ≤ 9223372036)

seconds_positive : (n : ℤ) → IsDuration n → pos 1 ≤ℤ n → ltb_ℤ (pos 0) (seconds n) ≡ true
seconds_positive n fits h = let exact = seconds_lem n fits.0 fits.1 in ground arith

seconds_not_positive : (n : ℤ) → IsDuration n → n ≤ℤ pos 0 → ltb_ℤ (pos 0) (seconds n) ≡ false
seconds_not_positive n fits h = let exact = seconds_lem n fits.0 fits.1 in ground arith

module _ {W F : Type 0} (env : Env W F) (rounds : ℕ) (s : System W) where
  ticks :
      ltb_ℤ (pos 0) env.config.slot_pace ≡ true
      → watch_slots env rounds s ≡ watch_rounds env rounds s
  unfolding watch_slots new_ticker ◌>>=◌
  ticks h = rw h refl

  panics :
      ltb_ℤ (pos 0) env.config.slot_pace ≡ false → (watch_slots env rounds s).result ≡ stopped panic
  unfolding watch_slots new_ticker ◌>>=◌
  panics h = rw h refl

-- With the configuration of a command line whose slot pace, of at most 292 years, is given last as `n`
-- seconds, or not at all and is 1 second: if `n` is positive then `WatchSlots` starts its rounds, and if
-- it is not then it panics before the first, whatever the state is.
pub watch_slots-pace :
    {W F : Type 0} (connect : Text → ℤ → ℤ → Client W F) (settings : List Setting) (world : W)
    (env : Env W F) (rounds : ℕ) (s : System W)
    → (new_exporter_config_from_cli connect settings world).0 ≡ ok env.config
    → let n = last_slot_pace settings (pos 1) in
      IsDuration n
      → (pos 1 ≤ℤ n → watch_slots env rounds s ≡ watch_rounds env rounds s)
        × (n ≤ℤ pos 0 → (watch_slots env rounds s).result ≡ stopped panic)
watch_slots-pace connect settings world env rounds s made fits =
    let n = last_slot_pace settings (pos 1) in
    let pace = new_exporter_config_from_cli-IsGiven connect settings world env.config made in
    (
      (λ h. ticks env rounds s (ap (ltb_ℤ (pos 0)) pace.3 ∙ seconds_positive n fits h)),
      (λ h. panics env rounds s (ap (ltb_ℤ (pos 0)) pace.3 ∙ seconds_not_positive n fits h)),
    )
