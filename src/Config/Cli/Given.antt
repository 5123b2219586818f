-- ===== src/Config/Cli/Given.antt =====
-- How the command line decides the configuration, and the interval of the slot watcher.
use solana_exporter.Base.{
  suc, ◌*◌, ◌-◌, ◌≤◌, ℤ, pos, negsuc, pos_part, neg_part, wrap64_lem, Text, Bool, true, false, List,
  [], ◌∷◌, ◌++◌, append_assoc, append-nil, length, ◌≡◌, refl, sym, ◌∙◌, ap, arith,
}
use solana_exporter.Rpc.Types.{ok}
use solana_exporter.Rpc.Client.{Client}
use solana_exporter.Config.{ExporterConfig, new_exporter_config}
use solana_exporter.Config.Light.{IsBare, new_exporter_config-IsFrom, new_exporter_config-IsValid}
use solana_exporter.Config.Cli.{
  Flags, default_flags, Setting, set_http_timeout, set_slot_pace, set_epoch_cleanup_time,
  set_firedancer_metrics_port, set_rpc_url, set_listen_address, set_active_identity, add_nodekey,
  add_balance_address, set_comprehensive_slot_tracking, set_comprehensive_vote_account_tracking,
  set_monitor_block_sizes, set_light_mode, array_set, set_flag, parse_flags, seconds, arguments_of,
  new_exporter_config_from_cli,
}

-- The nodekeys and the balance addresses among the settings, in their order.
abbrev pub nodekeys : List Setting → List Text
nodekeys [] = []
nodekeys (add_nodekey s ∷ settings) = s ∷ nodekeys settings
nodekeys (_ ∷ settings) = nodekeys settings

abbrev pub addresses : List Setting → List Text
addresses [] = []
addresses (add_balance_address s ∷ settings) = s ∷ addresses settings
addresses (_ ∷ settings) = addresses settings

-- The last setting of a flag, or what it was before.
abbrev pub last_light_mode : List Setting → Bool → Bool
last_light_mode [] b = b
last_light_mode (set_light_mode c ∷ settings) b = last_light_mode settings c
last_light_mode (_ ∷ settings) b = last_light_mode settings b

abbrev pub last_slot_pace : List Setting → ℤ → ℤ
last_slot_pace [] n = n
last_slot_pace (set_slot_pace m ∷ settings) n = last_slot_pace settings m
last_slot_pace (_ ∷ settings) n = last_slot_pace settings n

abbrev IsParsed : List Setting → Flags → Flags → Type 0
IsParsed settings f g =
    (g.node_keys ≡ f.node_keys ++ nodekeys settings)
    × (g.balance_addresses ≡ f.balance_addresses ++ addresses settings)
    × (g.light_mode ≡ last_light_mode settings f.light_mode)
    × (g.slot_pace ≡ last_slot_pace settings f.slot_pace)

IsParsed-cons :
    (setting : Setting) (settings : List Setting) (f g : Flags)
    → IsParsed settings (set_flag setting f) g
    → IsParsed (setting ∷ settings) f g
unfolding set_flag array_set
IsParsed-cons (add_nodekey s) settings f g h =
    (h.0 ∙ append_assoc f.node_keys (s ∷ []) (nodekeys settings), h.1, h.2, h.3)
IsParsed-cons (add_balance_address s) settings f g h =
    (h.0, h.1 ∙ append_assoc f.balance_addresses (s ∷ []) (addresses settings), h.2, h.3)
IsParsed-cons (set_http_timeout n) settings f g h = h
IsParsed-cons (set_slot_pace n) settings f g h = h
IsParsed-cons (set_epoch_cleanup_time n) settings f g h = h
IsParsed-cons (set_firedancer_metrics_port n) settings f g h = h
IsParsed-cons (set_rpc_url s) settings f g h = h
IsParsed-cons (set_listen_address s) settings f g h = h
IsParsed-cons (set_active_identity s) settings f g h = h
IsParsed-cons (set_comprehensive_slot_tracking b) settings f g h = h
IsParsed-cons (set_comprehensive_vote_account_tracking b) settings f g h = h
IsParsed-cons (set_monitor_block_sizes b) settings f g h = h
IsParsed-cons (set_light_mode b) settings f g h = h

parse_flags-IsParsed :
    (settings : List Setting) (f : Flags) → IsParsed settings f (parse_flags settings f)
unfolding parse_flags
parse_flags-IsParsed [] f =
    (sym (append-nil f.node_keys), sym (append-nil f.balance_addresses), refl, refl)
parse_flags-IsParsed (setting ∷ settings) f =
    IsParsed-cons setting settings f (parse_flags settings (set_flag setting f))
      (parse_flags-IsParsed settings (set_flag setting f))

module _ {W F : Type 0} (connect : Text → ℤ → ℤ → Client W F) (settings : List Setting)
    (world : W) where
  -- The client that the command line asks for.
  abbrev client : Client W F
  client =
      let a = arguments_of (parse_flags settings default_flags) in
      connect a.rpc_url a.http_timeout a.firedancer_metrics_port

  from_arguments :
      (c : ExporterConfig)
      → (new_exporter_config_from_cli connect settings world).0 ≡ ok c
      → (new_exporter_config client (arguments_of (parse_flags settings default_flags)) world).0
        ≡ ok c
  unfolding new_exporter_config_from_cli
  from_arguments c h = h

  -- If `NewExporterConfigFromCLI` returns a configuration: its nodekeys and balance addresses are those of
  -- the command line in their order, light mode is on if its last setting says so and off without one, the
  -- slot pace is that of its last setting, or one second, in nanoseconds, there is one votekey for each
  -- nodekey, and in light mode nothing that light mode excludes is on.
  pub new_exporter_config_from_cli-IsGiven :
      (c : ExporterConfig)
      → (new_exporter_config_from_cli connect settings world).0 ≡ ok c
      → (c.node_keys ≡ nodekeys settings)
        × (c.balance_addresses ≡ addresses settings)
        × (c.light_mode ≡ last_light_mode settings false)
        × (c.slot_pace ≡ seconds (last_slot_pace settings (pos 1)))
        × (length c.vote_keys ≡ length c.node_keys)
        × (c.light_mode ≡ true → IsBare c)
  unfolding arguments_of
  new_exporter_config_from_cli-IsGiven c h =
      let a = arguments_of (parse_flags settings default_flags) in
      let made = from_arguments c h in
      let (allowed, (vote_keys, answered, from)) =
        new_exporter_config-IsFrom client a world c made in
      let (keys, balances, light, pace) = parse_flags-IsParsed settings default_flags in
      let valid = new_exporter_config-IsValid client a world c made in
      (from.1 ∙ keys, from.3 ∙ balances, from.0 ∙ light, from.7 ∙ ap seconds pace, valid.1, valid.2)

-- Up to 292 years the product does not overflow.
pub seconds_lem :
    (z : ℤ)
    → pos_part z ≤ 9223372036
    → neg_part z ≤ 9223372036
    → (pos_part (seconds z) ≡ pos_part z * 1000000000)
      × (neg_part (seconds z) ≡ neg_part z * 1000000000)
unfolding seconds
seconds_lem (pos n) h k = rw (wrap64_lem (pos (n * 1000000000)) (omega arith)) (refl, refl)
seconds_lem (negsuc n) h k =
    rw (wrap64_lem (negsuc (suc n * 1000000000 - 1)) (omega arith)) (omega arith)
