-- ===== src/Tests/Client.antt =====
-- The theorems on the client and on the transports, at concrete exchanges (src/client/mod.rs,
-- src/transport/mod.rs).
use rust_modbus.Prelude.{
  ℕ, ◌≡◌, refl, Bool, true, false, Option, some, List, [], ◌∷◌, ◌++◌, arith, length, take, All, ok,
}
use rust_modbus.Error.{Result}
use rust_modbus.Parse.Reference.{reference, reference-IsWinnow}
use rust_modbus.Frame.Framing.{silence, encode_request}
use rust_modbus.Frame.Tcp.Header.{MbapHeader}
use rust_modbus.Frame.Tcp.{tcp}
use rust_modbus.Frame.Tcp as Tcp
use rust_modbus.Frame.Tcp.Split.{adu_len}
use rust_modbus.Frame.Pdu.Request.{RequestPdu, function}
use rust_modbus.Frame.Pdu.Request.Write.{encode}
use rust_modbus.Frame.Pdu.Response.{ResponsePdu}
use rust_modbus.Frame.Pdu.Response as Response
use rust_modbus.Client.Framing.{client_serial}
use rust_modbus.Client.Call.{Client, Turn, new_client, unusable, silent, call, receive}
use rust_modbus.Client.Call.Answer.{IsAnswered, call-IsAnswered}
use rust_modbus.Client.Call.State.{relevant, receive-relevant}
use rust_modbus.Transport.Reader.Fill.{returns, Read, chunk, elapsed, read_prefixed}
use rust_modbus.Transport.Reader.Chunks.{AreFlowing, content, Leaves, read_prefixed-chunks}
use rust_modbus.Transport.Reader.Silence.{read_until_silence}
use rust_modbus.Transport.Reader.Bursts.{
  burst, joined, BringsBytes, IsTooLarge, read_until_silence-burst, read_until_silence-refused,
}
use rust_modbus.Transport.Stream.{FrameTransport, new_transport}
use rust_modbus.Transport.Stream.Requests.{
  Message, IsEncoded, wire, recv_requests, Holds, recv_requests-wire,
}

abbrev coils_request : RequestPdu
coils_request = RequestPdu.read_coils 0 3

abbrev coils : List Bool
coils = true ∷ false ∷ true ∷ false ∷ false ∷ false ∷ false ∷ false ∷ []

-- A stray response of another unit, and then the answer.
abbrev turn : Turn ℕ
turn = record {
  written = ok tt;
  arrivals = ok (18, ResponsePdu.read_coils []) ∷ ok (17, ResponsePdu.read_coils coils) ∷ [];
}

call_run :
    (call client_serial silence turn 17 coils_request new_client).result
    ≡ ok (some (ResponsePdu.read_coils coils))
unfolding call encode rust_modbus.Frame.Pdu.Limits.check_range rust_modbus.Frame.Pdu.Encode.sized
    rust_modbus.Frame.Pdu.Encode.encode_read function Response.function
call_run = refl

call-IsAnswered_example :
    IsAnswered client_serial silence turn 17 coils_request new_client
      (ResponsePdu.read_coils coils)
      (call client_serial silence turn 17 coils_request new_client)
call-IsAnswered_example =
    call-IsAnswered client_serial silence turn 17 coils_request new_client
      (ResponsePdu.read_coils coils) call_run

receive-relevant_example :
    receive client_serial silence 17 coils_request turn.arrivals new_client
    ≡ receive client_serial silence 17 coils_request
        (relevant client_serial silence 17 turn.arrivals)
        new_client
receive-relevant_example =
    receive-relevant client_serial silence 17 coils_request turn.arrivals new_client

abbrev mask_pdu : RequestPdu
mask_pdu = RequestPdu.mask_write_register 4 242 37

abbrev mask_adu : List ℕ
mask_adu = 0 ∷ 5 ∷ 0 ∷ 0 ∷ 0 ∷ 8 ∷ 17 ∷ 22 ∷ 0 ∷ 4 ∷ 0 ∷ 242 ∷ 0 ∷ 37 ∷ []

abbrev message : Message
message = record {
  header = record { transaction_id = 5; unit_id = 17 };
  pdu = mask_pdu;
  adu = mask_adu;
}

-- Two ADUs and a byte more, cut anywhere.
abbrev reads : List Read
reads =
    chunk (0 ∷ 5 ∷ 0 ∷ [])
    ∷ elapsed
    ∷ chunk (0 ∷ 0 ∷ 8 ∷ 17 ∷ 22 ∷ 0 ∷ 4 ∷ 0 ∷ 242 ∷ 0 ∷ 37 ∷ 0 ∷ 5 ∷ 0 ∷ 0 ∷ 0 ∷ 8 ∷ 17 ∷ [])
    ∷ chunk (22 ∷ 0 ∷ 4 ∷ 0 ∷ 242 ∷ 0 ∷ 37 ∷ 9 ∷ [])
    ∷ []

reads-AreFlowing : AreFlowing reads
unfolding AreFlowing
reads-AreFlowing = (refl, (refl, (refl, tt)))

reads_content : content reads ≡ mask_adu ++ (mask_adu ++ 9 ∷ [])
unfolding content
reads_content = refl

adu_told : adu_len (take 6 mask_adu) ≡ ok (length mask_adu)
unfolding adu_len
adu_told = refl

read_prefixed-chunks_example :
    Leaves mask_adu (mask_adu ++ 9 ∷ []) (read_prefixed 260 6 adu_len [] reads)
read_prefixed-chunks_example =
    read_prefixed-chunks 260 6 adu_len mask_adu (mask_adu ++ 9 ∷ []) [] reads reads-AreFlowing
      reads_content (omega arith) (omega arith) adu_told

mask_encode : encode_request (tcp reference) message.header mask_pdu ≡ ok mask_adu
unfolding encode_request Tcp.encode_request_into encode rust_modbus.Frame.Pdu.Encode.sized
mask_encode = refl

message-IsEncoded : IsEncoded reference message
unfolding IsEncoded
message-IsEncoded = (omega arith, omega arith, mask_encode)

reads_held : Holds reference (wire reference (message ∷ message ∷ []) ++ 9 ∷ []) new_transport reads
unfolding Holds wire content
reads_held = (refl, refl, reads-AreFlowing)

recv_requests-wire_example :
    let after : List (Option (Result (MbapHeader × RequestPdu))) × FrameTransport × List Read =
      recv_requests reference 2 new_transport reads in
    (after.0
      ≡ some (ok (message.header, message.pdu)) ∷ some (ok (message.header, message.pdu)) ∷ [])
    × Holds reference (9 ∷ []) after.1 after.2
recv_requests-wire_example =
    recv_requests-wire reference (message ∷ message ∷ []) (9 ∷ []) new_transport reads
      reference-IsWinnow (message-IsEncoded, (message-IsEncoded, tt)) reads_held

abbrev chunks : List (List ℕ)
chunks = (1 ∷ 2 ∷ []) ∷ (3 ∷ []) ∷ []

chunks-BringBytes : All BringsBytes chunks
unfolding BringsBytes
chunks-BringBytes = (refl, (refl, tt))

chunks-joined : joined chunks ≡ 1 ∷ 2 ∷ 3 ∷ []
unfolding joined
chunks-joined = refl

read_until_silence-burst_example :
    read_until_silence 256 (9 ∷ []) (burst chunks []) ≡ returns (ok (9 ∷ joined chunks)) [] []
read_until_silence-burst_example =
    read_until_silence-burst 256 chunks (9 ∷ []) [] chunks-BringBytes
      (rw chunks-joined (omega arith)) (rw chunks-joined (omega arith))

-- A limit of four bytes, to show one that is reached.
read_until_silence-refused_example : IsTooLarge 4 (read_until_silence 4 (9 ∷ []) (burst chunks []))
read_until_silence-refused_example =
    read_until_silence-refused 4 chunks (9 ∷ []) [] chunks-BringBytes (omega arith)
      (rw chunks-joined (omega arith))

abbrev dead_client : Client
dead_client = record { next_transaction = 4; state = unusable silent }
