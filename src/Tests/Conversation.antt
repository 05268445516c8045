-- ===== src/Tests/Conversation.antt =====
-- The theorems on a client and a server together, and on the blocking client (src/client,
-- src/server), at concrete conversations.
use rust_modbus.Prelude.{
  ℕ, ◌+◌, ◌≡◌, refl, inr, Bool, true, false, Option, some, List, [], ◌∷◌, arith, ok,
}
use rust_modbus.Parse.Reference.{reference, reference-IsWinnow}
use rust_modbus.Error.{Result}
use rust_modbus.Frame.Framing.{silence, encode_request, encode_response}
use rust_modbus.Frame.Tcp.Header.{MbapHeader}
use rust_modbus.Frame.Tcp.{tcp, tcp-IsFraming}
use rust_modbus.Frame.Pdu.Request.{RequestPdu}
use rust_modbus.Frame.Pdu.Request.Write.{encode}
use rust_modbus.Frame.Pdu.Response.{ResponsePdu}
use rust_modbus.Frame.Pdu.Response.Write as ResponseWrite
use rust_modbus.Client.Framing.{client_tcp, client_serial}
use rust_modbus.Server.Framing.{server_tcp}
use rust_modbus.Server.Service.{Service, Connection, connection, minimal}
use rust_modbus.Server.Exchange.{ServerConfig, is_other, response_of}
use rust_modbus.Client.Call.{Client, Turn, new_client, is_desynchronized}
use rust_modbus.Client.Methods.{read_coils}
use rust_modbus.Client.Sync.{SyncClient}
use rust_modbus.Client.Sync.Calls.{Attempt, outside, woven, sync_calls, sync_calls-outside}
use rust_modbus.Client.Call.State.{calls}
use rust_modbus.Conversation.{answered_by, served, IsRoundTrip, round_trip}
use rust_modbus.Conversation.Framings.{tcp-IsPaired}
use rust_modbus.Conversation.Reads.{read_coils-served}

abbrev coils : List Bool
coils = true ∷ false ∷ true ∷ []

-- A service that counts the reads of its coils.
abbrev device : Service ℕ
device = minimal [] (λ conn unit request n. (inr (some (ResponsePdu.read_coils coils)), n + 1))

abbrev config : ServerConfig
config = record { unit = some 17 }

abbrev conn : Connection
conn = connection 1 (some 9)

abbrev sent : MbapHeader
sent = record { transaction_id = 1; unit_id = 17 }

own_unit : is_other config.unit 17 ≡ false
unfolding is_other
own_unit = refl

usable : is_desynchronized new_client ≡ false
unfolding is_desynchronized
usable = refl

read_coils-served_example :
    (bytes reply : List ℕ) × (encode_request (tcp reference) sent (RequestPdu.read_coils 8 3)
      ≡ ok bytes)
    × ((served
          (tcp reference)
          (tcp-IsFraming reference reference-IsWinnow)
          client_tcp
          server_tcp
          (tcp-IsPaired reference)
          device
          config
          conn
          bytes
          4).sent
        ≡ (sent, ResponsePdu.read_coils coils) ∷ [])
    × (encode_response (tcp reference) sent (ResponsePdu.read_coils coils) ≡ ok reply)
    × ((read_coils client_tcp
          (tcp reference).boundary
          (answered_by
            (tcp reference)
            (tcp-IsFraming reference reference-IsWinnow)
            client_tcp
            server_tcp
            (tcp-IsPaired reference)
            device
            config
            conn
            reply
            [])
          17
          8
          3
          new_client).result
        ≡ ok coils)
read_coils-served_example =
    read_coils-served (tcp reference) (tcp-IsFraming reference reference-IsWinnow) client_tcp
      server_tcp (tcp-IsPaired reference) device config conn new_client 17 8 coils [] 4 usable
      (omega arith) refl own_unit (omega arith) refl

abbrev coils_pdu : List ℕ
coils_pdu = 1 ∷ 0 ∷ 8 ∷ 0 ∷ 3 ∷ []

coils_encode : encode (RequestPdu.read_coils 8 3) ≡ ok coils_pdu
unfolding encode rust_modbus.Frame.Pdu.Encode.encode_read rust_modbus.Frame.Pdu.Limits.check_range
    rust_modbus.Frame.Pdu.Encode.sized
coils_encode = refl

abbrev reply_pdu : List ℕ
reply_pdu = 1 ∷ 1 ∷ 5 ∷ []

reply_encode : ResponseWrite.encode (ResponsePdu.read_coils coils) ≡ ok reply_pdu
unfolding rust_modbus.Frame.Pdu.Response.Write.encode rust_modbus.Frame.Pdu.Encode.encode_counted
    rust_modbus.Frame.Pdu.Bits.push_bits rust_modbus.Frame.Pdu.Bits.packed_len
    rust_modbus.Frame.Pdu.Bits.chunks rust_modbus.Frame.Pdu.Bits.chunk_byte
reply_encode = refl

round_trip_example :
    IsRoundTrip
      (tcp reference)
      (tcp-IsFraming reference reference-IsWinnow)
      client_tcp
      server_tcp
      (tcp-IsPaired reference)
      device
      config
      conn
      new_client
      17
      (RequestPdu.read_coils 8 3)
      (ResponsePdu.read_coils coils)
      []
      4
unfolding response_of
round_trip_example =
    round_trip (tcp reference) (tcp-IsFraming reference reference-IsWinnow) client_tcp server_tcp
      (tcp-IsPaired reference) device config conn new_client 17 (RequestPdu.read_coils 8 3)
      (ResponsePdu.read_coils coils) coils_pdu reply_pdu [] 4 usable (omega arith) refl own_unit
      (omega arith) coils_encode refl tt reply_encode

-- A call that is answered, from a thread that drives no runtime and from one that does.
abbrev turn : Turn ℕ
turn = record { written = ok tt; arrivals = ok (17, ResponsePdu.read_coils coils) ∷ [] }

abbrev attempts : List (Attempt ℕ)
attempts =
    (false, (turn, 17, RequestPdu.read_coils 8 3))
    ∷ (true, (turn, 17, RequestPdu.read_coils 8 3))
    ∷ (false, (turn, 0, RequestPdu.write_single_coil 8 true))
    ∷ []

abbrev sync : SyncClient
sync = record { client = new_client }

sync_calls-outside_example :
    let async : List (Result (Option ResponsePdu)) × List (ℕ × RequestPdu) × Client =
      calls client_serial silence (outside attempts) new_client in
    sync_calls client_serial silence attempts sync ≡ (woven attempts async.0, async.1, async.2)
sync_calls-outside_example = sync_calls-outside client_serial silence attempts sync
