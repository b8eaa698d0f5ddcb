-- ===== src/Ota/Status.antt =====
-- The status of `waitpid` on Linux, as its 32-bit pattern: `WIFEXITED` and `WEXITSTATUS`.
use chassis_host.Common.{ℕ, ◌/◌, ◌%◌, Bool, ◌==◌}

abbrev pub exited : ℕ → Bool
exited status = status % 128 == 0

abbrev pub exit_status : ℕ → ℕ
exit_status status = status / 256 % 256
