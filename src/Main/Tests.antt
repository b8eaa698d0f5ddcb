-- ===== src/Main/Tests.antt =====
-- Runs of the command line on small inputs, and the theorem at a concrete input.
use chassis_host.Common.{ℕ, ◌≡◌, refl, none, some, List, [], ◌∷◌, get_or, ◌==◌, if◌then◌else◌}
use chassis_host.Common.Int.{pos}
use chassis_host.Log.Level.{level_from_string, is_name}
use chassis_host.Main.{
  Flag, flag_listen, flag_log_dir, flag_log_level, flag_help, Numbers, read_options, take_option,
  returned, aborted, split_listen_addr, start_with, with_level, main, defaults,
}
use chassis_host.Main.Options.{settings_of}
use chassis_host.Main.Serves.{OutcomeOk, main-OutcomeOk}

-- "9" is read as 9, and anything else as 0; rates are numbers.
abbrev small_numbers : Numbers
small_numbers = record {
  Double = ℕ;
  atoi = λ text. if get_or text 0 0 == 57 then pos 9 else pos 0;
  atoll = λ text. pos 0;
  atof = λ text. 0;
  ten = 10;
  one = 1;
  at_most_zero = λ n. n == 0;
}

-- "::9" is the address ":" with the port 9; ":9" and "a:" are none.
listen_on_colon : split_listen_addr small_numbers.atoi (58 ∷ 58 ∷ 57 ∷ []) ≡ some (58 ∷ [], 9)
unfolding split_listen_addr
listen_on_colon = refl

listen_on_nothing : split_listen_addr small_numbers.atoi (58 ∷ 57 ∷ []) ≡ none
unfolding split_listen_addr
listen_on_nothing = refl

-- A bad level in front of --help does not matter; a bad address aborts.
help_first : main small_numbers ((flag_log_level, 120 ∷ []) ∷ (flag_help, []) ∷ []) ≡ returned 0
unfolding main read_options take_option
help_first = refl

bad_address : main small_numbers ((flag_listen, 97 ∷ []) ∷ []) ≡ aborted
unfolding main start_with with_level read_options take_option level_from_string is_name
    split_listen_addr
bad_address = refl

-- "--listen a:9 --log-dir".
abbrev two_options : List (Flag × List ℕ)
two_options = (flag_listen, 97 ∷ 58 ∷ 57 ∷ []) ∷ (flag_log_dir, []) ∷ []

main-OutcomeOk_example :
    OutcomeOk small_numbers two_options
      (settings_of small_numbers two_options (defaults small_numbers))
      (main small_numbers two_options)
main-OutcomeOk_example = main-OutcomeOk small_numbers two_options
