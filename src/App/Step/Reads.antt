-- ===== src/App/Step/Reads.antt =====
-- What a wake-up of the serial line makes of its reads, in events of the host.
use Prim.Native.String.{String}
use chassis_host.Common.{
  ℕ, zero, suc, ◌≡◌, refl, ap, ◌∙◌, true, List, [], ◌∷◌, ◌++◌, replicate, if◌then◌else◌,
}
use chassis_host.Link.ConSm.{ConSm}
use chassis_host.Serial.{Read, got, at_eof, drained_dry, interrupted, read_error, read_loop}
use chassis_host.App.Defs.{Platform, Host, HostOptions}
use chassis_host.App.Events.{on_serial_data}
use chassis_host.App.Step.{HostEvent, serial_data, serial_lost, port_lost, step, steps}
use chassis_host.App.Step.Bytes.{handle_read}

-- Reads of the serial line that bring these pieces, each after so many that were interrupted.
abbrev pub reads_of : List (ℕ × List ℕ) → List Read → List Read
reads_of [] later = later
reads_of ((tries, bytes) ∷ more) later =
    replicate tries interrupted ++ (got bytes ∷ reads_of more later)

abbrev pub delivered : List (ℕ × List ℕ) → List HostEvent → List HostEvent
delivered [] later = later
delivered ((tries, bytes) ∷ more) later = serial_data bytes ∷ delivered more later

-- How the reads of one wake-up end, and what the host is told of it.
pub data Stop : Read → List HostEvent → Type 0 where
  no_more : Stop drained_dry []
  hung_up : Stop at_eof (serial_lost "eof" ∷ [])
  broken : Stop read_error (serial_lost "read-error" ∷ [])

module _ (pl : Platform) (opts : HostOptions) (to_text : List ℕ → String) where
  after_interrupts :
      (n : ℕ) (later : List Read) (x : ConSm × Host pl)
      → read_loop
          (on_serial_data pl opts)
          (λ reason y. (y.0, port_lost pl opts reason y.1))
          (replicate n interrupted ++ later)
          x
        ≡ read_loop
            (on_serial_data pl opts)
            (λ reason y. (y.0, port_lost pl opts reason y.1))
            later
            x
  unfolding read_loop
  after_interrupts zero later x = refl
  after_interrupts (suc n) later x = after_interrupts n later x

  Stop-steps :
      (end : Read) (told : List HostEvent) (later : List Read) (x : ConSm × Host pl)
      → Stop end told
      → read_loop
          (on_serial_data pl opts)
          (λ reason y. (y.0, port_lost pl opts reason y.1))
          (end ∷ later)
          x
        ≡ steps pl opts told x
  unfolding read_loop steps step
  Stop-steps end told later x no_more = refl
  Stop-steps end told later x hung_up = refl
  Stop-steps end told later x broken = refl

  read_loop-steps :
      (pieces : List (ℕ × List ℕ)) (end : Read) (told : List HostEvent) (later : List Read)
      (x : ConSm × Host pl)
      → Stop end told
      → read_loop
          (on_serial_data pl opts)
          (λ reason y. (y.0, port_lost pl opts reason y.1))
          (reads_of pieces (end ∷ later))
          x
        ≡ steps pl opts (delivered pieces told) x
  unfolding read_loop steps step
  read_loop-steps [] end told later x stop = Stop-steps end told later x stop
  read_loop-steps ((tries, bytes) ∷ more) end told later x stop =
      after_interrupts tries (got bytes ∷ reads_of more (end ∷ later)) x
      ∙ read_loop-steps more end told later (on_serial_data pl opts bytes x) stop

  -- A wake-up of the open port that reads any pieces, each after any number of interrupted reads, up
  -- to a first read that finds nothing, the end of the file or an error: the host gets every piece, in
  -- order, then the loss of the line with its reason where there was one, and nothing that a later read
  -- would give.
  pub handle_read-steps :
      (pieces : List (ℕ × List ℕ)) (end : Read) (told : List HostEvent) (later : List Read)
      (x : ConSm × Host pl)
      → x.1.radio.port.is_open ≡ true
      → Stop end told
      → handle_read pl opts to_text (reads_of pieces (end ∷ later)) x
        ≡ steps pl opts (delivered pieces told) x
  unfolding handle_read
  handle_read-steps pieces end told later (s, h) up stop =
      let read =
        read_loop (on_serial_data pl opts) (λ reason y. (y.0, port_lost pl opts reason y.1))
          (reads_of pieces (end ∷ later)) (s, h) in
      ap (λ b. if b then read else (s, h)) up ∙ read_loop-steps pieces end told later (s, h) stop
