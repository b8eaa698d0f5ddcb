-- ===== src/Log/LogFile/Name.antt =====
-- `getLogFileName`: the local time in text, the host's name and the process id are arguments.
use chassis_host.Common.{ℕ, Option, none, some, List, [], ◌∷◌, ◌++◌, ◌==◌, if◌then◌else◌}

-- `name.erase(dot)` for the first '.'.
unfoldable pub erase_domain : List ℕ → List ℕ
erase_domain [] = []
erase_domain (c ∷ cs) = let rest = erase_domain cs in if c == 46 then [] else c ∷ rest

-- "unknownhost" when `gethostname` fails.
abbrev pub host_name : Option (List ℕ) → List ℕ
host_name (some name) = name
host_name none = 117 ∷ 110 ∷ 107 ∷ 110 ∷ 111 ∷ 119 ∷ 110 ∷ 104 ∷ 111 ∷ 115 ∷ 116 ∷ []

unfoldable pub get_log_file_name : List ℕ → List ℕ → Option (List ℕ) → List ℕ → List ℕ
unfolding erase_domain
get_log_file_name basename local_time host pid =
    basename
    ++ ((46 ∷ local_time)
        ++ (erase_domain (host_name host) ++ ((46 ∷ pid) ++ (46 ∷ 108 ∷ 111 ∷ 103 ∷ []))))
