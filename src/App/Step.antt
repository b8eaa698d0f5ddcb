-- ===== src/App/Step.antt =====
-- The host as a machine: one step for each event that the loop delivers.
pub mod Calm
pub mod Handlers
pub mod Timers
pub mod Guarded
pub mod Acts
pub mod Dispatch
pub mod Safety
pub mod Bytes
pub mod Reads
mod Tests
use Prim.Native.String.{String}
use chassis_host.Common.{ℕ, Bool, List, [], ◌∷◌}
use chassis_host.Link.ConSm.{ConSm}
use chassis_host.Serial.{Notice, handle_write, close_in_loop}
use chassis_host.App.Defs.{Platform, Host, HostOptions}
use chassis_host.App.Output.{notified}
use chassis_host.App.Ota.{ota_on_child_line, ota_on_child_exit}
use chassis_host.App.Dispatch.{handle_command}
use chassis_host.App.Events.{on_connection, on_serial_data}
use chassis_host.App.Timers.{
  on_con_tick, on_repeat_timer, on_odom_timer, on_slow_timer, on_watchdog_timer,
}

-- What the loop calls the host for: a connection that comes or goes, a command with its tokens,
-- bytes from the board, the serial port (writable again, or lost), the child process (a line, its
-- end), and the timers. `clock_at` is time that goes by.
pub data HostEvent : Type 0 where
  clock_at : ℕ → HostEvent
  connection : ℕ → Bool → HostEvent
  command : ℕ → List String → HostEvent
  serial_data : List ℕ → HostEvent
  serial_writable : HostEvent
  serial_lost : String → HostEvent
  child_line : String → HostEvent
  child_exit : Bool → ℕ → HostEvent
  con_tick repeat_timer odom_timer slow_timer watchdog_timer : HostEvent

module _ (pl : Platform) (opts : HostOptions) where
  -- `handleWrite` and `closeInLoop` of the port, with the callback to the host.
  unfoldable pub port_writable : Host pl → Host pl
  port_writable h =
      let (note, (port, world)) = handle_write pl.os (h.radio.port, h.radio.world) in
      notified pl note (record h { radio = record h.radio { port = port; world = world } })

  unfoldable pub port_lost : String → Host pl → Host pl
  port_lost reason h =
      let (port, note) = close_in_loop reason h.radio.port in
      notified pl note (record h { radio = record h.radio { port = port } })

  unfoldable pub step : HostEvent → ConSm × Host pl → ConSm × Host pl
  unfolding port_writable port_lost
  step (clock_at now) (s, h) = (s, record h { clock = now })
  step (connection c up) x = on_connection pl opts c up x
  step (command c tok) x = handle_command pl opts c tok x
  step (serial_data bytes) x = on_serial_data pl opts bytes x
  step serial_writable (s, h) = (s, port_writable h)
  step (serial_lost reason) (s, h) = (s, port_lost reason h)
  step (child_line line) (s, h) = (s, ota_on_child_line pl line h)
  step (child_exit ok status) (s, h) = (s, ota_on_child_exit pl ok status h)
  step con_tick x = on_con_tick pl opts x
  step repeat_timer x = on_repeat_timer pl opts x
  step odom_timer x = on_odom_timer pl opts x
  step slow_timer x = on_slow_timer pl opts x
  step watchdog_timer x = on_watchdog_timer pl opts x

  unfoldable pub steps : List HostEvent → ConSm × Host pl → ConSm × Host pl
  unfolding step
  steps [] x = x
  steps (ev ∷ evs) x = steps evs (step ev x)
