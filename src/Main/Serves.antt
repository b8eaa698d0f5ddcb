-- ===== src/Main/Serves.antt =====
-- What holds when `main` goes on to serve.
use chassis_host.Common.{
  ℕ, ◌<◌, ◌≡◌, ◌⊎◌, inl, inr, refl, sym, ◌∙◌, true, false, Option, none, some, List, [], ◌∷◌, ◌++◌,
  length, arith, Bool-cases,
}
use chassis_host.Log.Level.{
  LogLevel, trace, debug, info, warn, error, fatal, num_log_levels, level_from_string,
}
use chassis_host.Main.{
  Flag, Numbers, Settings, split_listen_addr, parsed, read_options, Outcome, returned, aborted,
  serves, listen_on, with_level, wrong_rate, start_with, main, log_basename, defaults,
}
use chassis_host.Main.Address.{IsAddress, split_listen_addr-IsAddress, IsAddress-split_listen_addr}
use chassis_host.Main.Options.{first_end, settings_of, ReadAs, read_options-ReadAs}

-- No log file without a folder, and else "folder/chassis_host".
abbrev pub LogName : List ℕ → Option (List ℕ) → Type 0
LogName dir log =
    ((dir ≡ []) × (log ≡ none))
    ⊎ ((0 < length dir)
        × (log
            ≡ some (
                dir
                ++ (47 ∷ 99 ∷ 104 ∷ 97 ∷ 115 ∷ 115 ∷ 105 ∷ 115 ∷ 95 ∷ 104 ∷ 111 ∷ 115 ∷ 116 ∷ []))))

module _ (nums : Numbers) where
  log_basename-LogName : (dir : List ℕ) → LogName dir (log_basename nums dir)
  log_basename-LogName [] = inl (refl, refl)
  log_basename-LogName (c ∷ cs) = inr (omega arith, refl)

  -- One of the three rates is at most zero, or none of them.
  abbrev pub BadRate : Settings nums → Type 0
  BadRate s =
      (nums.at_most_zero s.repeat_hz ≡ true)
      ⊎ ((nums.at_most_zero s.odom_hz ≡ true) ⊎ (nums.at_most_zero s.slow_hz ≡ true))

  abbrev pub GoodRates : Settings nums → Type 0
  GoodRates s =
      (nums.at_most_zero s.repeat_hz ≡ false)
      × (nums.at_most_zero s.odom_hz ≡ false)
      × (nums.at_most_zero s.slow_hz ≡ false)

  abbrev pub BadLevel : Settings nums → Type 0
  BadLevel s = level_from_string (some s.log_level) ≡ num_log_levels

  -- What each way to go on says of the options, and of the settings that they come to.
  abbrev pub OutcomeOk : List (Flag × List ℕ) → Settings nums → Outcome nums → Type 0
  OutcomeOk options s (returned code) =
      (first_end options ≡ some code)
      ⊎ ((first_end options ≡ none) × (code ≡ 1) × (BadRate s ⊎ BadLevel s))
  OutcomeOk options s aborted =
      (first_end options ≡ none)
      × GoodRates s
      × (¬ BadLevel s)
      × ((ip : List ℕ) (port : ℕ) → ¬ IsAddress nums.atoi s.listen_addr ip port)
  OutcomeOk options s (serves used ip port level log) =
      (first_end options ≡ none)
      × GoodRates s
      × (¬ BadLevel s)
      × (used ≡ s)
      × (level_from_string (some s.log_level) ≡ level)
      × IsAddress nums.atoi s.listen_addr ip port
      × LogName s.log_dir log

  wrong_rate-BadRate : (s : Settings nums) → wrong_rate nums s ≡ true → BadRate s
  wrong_rate-BadRate s h = ground (arith, h)

  wrong_rate-GoodRates : (s : Settings nums) → wrong_rate nums s ≡ false → GoodRates s
  wrong_rate-GoodRates s h = ground (arith, h)

  module _ (options : List (Flag × List ℕ)) (goes_on : first_end options ≡ none) where
    listen_on-OutcomeOk :
        (s : Settings nums) (level : LogLevel) (o : Option (List ℕ × ℕ))
        → GoodRates s
        → level_from_string (some s.log_level) ≡ level
        → ¬ (level ≡ num_log_levels)
        → split_listen_addr nums.atoi s.listen_addr ≡ o
        → OutcomeOk options s (listen_on nums s level o)
    listen_on-OutcomeOk s level none rates lv valid addr = (
      goes_on,
      rates,
      λ bad. valid (sym lv ∙ bad),
      λ ip port a.
          ground (arith, sym addr ∙ IsAddress-split_listen_addr nums.atoi s.listen_addr ip port a),
    )
    listen_on-OutcomeOk s level (some (ip, port)) rates lv valid addr = (
      goes_on,
      rates,
      λ bad. valid (sym lv ∙ bad),
      refl,
      lv,
      split_listen_addr-IsAddress nums.atoi s.listen_addr ip port addr,
      log_basename-LogName s.log_dir,
    )

    with_level-OutcomeOk :
        (s : Settings nums) (level : LogLevel)
        → GoodRates s
        → level_from_string (some s.log_level) ≡ level
        → OutcomeOk options s (with_level nums s level)
    unfolding with_level
    with_level-OutcomeOk s num_log_levels rates lv = inr (goes_on, refl, inr lv)
    with_level-OutcomeOk s trace rates lv =
        listen_on-OutcomeOk s trace (split_listen_addr nums.atoi s.listen_addr) rates lv
          (λ h. absurd (ground (arith, h))) refl
    with_level-OutcomeOk s debug rates lv =
        listen_on-OutcomeOk s debug (split_listen_addr nums.atoi s.listen_addr) rates lv
          (λ h. absurd (ground (arith, h))) refl
    with_level-OutcomeOk s info rates lv =
        listen_on-OutcomeOk s info (split_listen_addr nums.atoi s.listen_addr) rates lv
          (λ h. absurd (ground (arith, h))) refl
    with_level-OutcomeOk s warn rates lv =
        listen_on-OutcomeOk s warn (split_listen_addr nums.atoi s.listen_addr) rates lv
          (λ h. absurd (ground (arith, h))) refl
    with_level-OutcomeOk s error rates lv =
        listen_on-OutcomeOk s error (split_listen_addr nums.atoi s.listen_addr) rates lv
          (λ h. absurd (ground (arith, h))) refl
    with_level-OutcomeOk s fatal rates lv =
        listen_on-OutcomeOk s fatal (split_listen_addr nums.atoi s.listen_addr) rates lv
          (λ h. absurd (ground (arith, h))) refl

    start_with-OutcomeOk : (s : Settings nums) → OutcomeOk options s (start_with nums (parsed s))
    unfolding start_with
    start_with-OutcomeOk s = elim (Bool-cases (wrong_rate nums s)) [
      | inl wrong ↦ rw wrong (inr (goes_on, refl, inl (wrong_rate-BadRate s wrong)))
      | inr good ↦ rw good (
          with_level-OutcomeOk s (level_from_string (some s.log_level))
            (wrong_rate-GoodRates s good) refl)
    ]

  start_as-OutcomeOk :
      (options : List (Flag × List ℕ)) (o : Option ℕ)
      → first_end options ≡ o
      → ReadAs nums options (defaults nums) o
      → OutcomeOk options
          (settings_of nums options (defaults nums))
          (start_with nums (read_options nums options (defaults nums)))
  unfolding start_with
  start_as-OutcomeOk options (some code) stop read = rw read (inl stop)
  start_as-OutcomeOk options none stop read =
      rw read (start_with-OutcomeOk options stop (settings_of nums options (defaults nums)))

  -- If an option for help or a wrong one is given, `main` returns the code of the first such one, 0 or
  -- 1. Otherwise every setting is the one that was given last, or the default, and `main` returns 1
  -- only where a rate is at most zero or the level has no name; it aborts only where these are right
  -- and the address is not "ip:port", split at the last ':', with something on either side and a port
  -- that `atoi` reads as 1 to 65535; and it serves only where all of these are right: the address that
  -- was given, with its level, and a log file "folder/chassis_host" just where the folder has a name.
  pub main-OutcomeOk :
      (options : List (Flag × List ℕ))
      → OutcomeOk options (settings_of nums options (defaults nums)) (main nums options)
  unfolding main
  main-OutcomeOk options =
      start_as-OutcomeOk options (first_end options) refl
        (read_options-ReadAs nums options (defaults nums))
