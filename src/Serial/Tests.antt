-- ===== src/Serial/Tests.antt =====
-- The port with a `write` that takes two bytes at a time.
use chassis_host.Common.{ℕ, ◌≡◌, ◌++◌, refl, true, false, [], ◌∷◌, inr, arith}
use chassis_host.Serial.{Os, wrote, Port, send, handle_write, open_device, after_write, keep_rest}
use chassis_host.Serial.Laws.{PortOk, written_now, port-PortOk, send-order}

abbrev slow_os : Os ℕ
slow_os = record { write = λ bytes w. (wrote 2, w); open_tty = λ w. (true, w) }

abbrev open_port : Port
open_port = record { is_open = true; writing = false; out = [] }

abbrev waiting_port : Port
waiting_port = record { is_open = true; writing = true; out = 3 ∷ 4 ∷ 5 ∷ [] }

waiting_port-PortOk : PortOk waiting_port
waiting_port-PortOk = record { bounded = λ _. omega arith; armed = λ _. inr refl }

port-PortOk_example :
    PortOk (send slow_os (6 ∷ 7 ∷ []) (waiting_port, 0)).1.0
    × PortOk (handle_write slow_os (waiting_port, 0)).1.0
    × PortOk (open_device slow_os (waiting_port, 0)).1.0
port-PortOk_example = port-PortOk slow_os (6 ∷ 7 ∷ []) waiting_port 0 waiting_port-PortOk

still_open : (send slow_os (1 ∷ 2 ∷ 3 ∷ []) (open_port, 0)).1.0.is_open ≡ true
unfolding send after_write keep_rest
still_open = refl

send-order_example :
    written_now slow_os (1 ∷ 2 ∷ 3 ∷ []) open_port 0
      ++ (send slow_os (1 ∷ 2 ∷ 3 ∷ []) (open_port, 0)).1.0.out
    ≡ open_port.out ++ (1 ∷ 2 ∷ 3 ∷ [])
send-order_example = send-order slow_os (1 ∷ 2 ∷ 3 ∷ []) open_port 0 still_open
