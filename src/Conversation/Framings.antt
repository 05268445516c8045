-- ===== src/Conversation/Framings.antt =====
-- The framings under which client and server agree (src/client/framing.rs, src/server/framing.rs).
use rust_modbus.Prelude.{ℕ, refl, List, arith}
use rust_modbus.Parse.Stream.{Winnow}
use rust_modbus.Frame.Tcp.{tcp}
use rust_modbus.Frame.Tcp.Adu.{HeaderIsTyped}
use rust_modbus.Frame.Rtu.{rtu, rtu_over_tcp}
use rust_modbus.Client.Framing.{client_tcp, client_serial}
use rust_modbus.Server.Framing.{server_tcp, server_serial}
use rust_modbus.Conversation.{IsPaired}

pub tcp-IsPaired : (w : Winnow) → IsPaired (tcp w) HeaderIsTyped client_tcp server_tcp
tcp-IsPaired w = record {
  builds = λ unit transaction hu ht. (ht, hu);
  addresses = λ unit transaction. refl;
  answers = λ header. ground arith;
  broadcasts = λ unit. refl;
}

pub rtu-IsPaired :
    (crc16 : List ℕ → ℕ) (w : Winnow)
    → IsPaired (rtu crc16 w) (λ (header : ℕ). Unit {0}) client_serial server_serial
      × IsPaired (rtu_over_tcp crc16 w) (λ (header : ℕ). Unit {0}) client_serial server_serial
rtu-IsPaired crc16 w = (
  record {
    builds = λ unit transaction hu ht. tt;
    addresses = λ unit transaction. refl;
    answers = λ header. ground arith;
    broadcasts = λ unit. refl;
  },
  record {
    builds = λ unit transaction hu ht. tt;
    addresses = λ unit transaction. refl;
    answers = λ header. ground arith;
    broadcasts = λ unit. refl;
  },
)
