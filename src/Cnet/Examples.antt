-- ===== src/Cnet/Examples.antt =====
-- The theorems about reads at a connection with two messages.
use chisel_uds.Prelude.{codes, [], ◌∷◌, ◌++◌, ◌≡◌, refl}
use chisel_uds.Cnet.{WsConn, read}
use chisel_uds.Cnet.Reads.{reads, reads_stream, pending}

abbrev two_messages : WsConn
two_messages = record {
  buff = [];
  incoming = codes "hello" ∷ codes "you" ∷ [];
  final_error = codes "EOF";
}

reads_pieces : (reads (3 ∷ 9 ∷ 9 ∷ 9 ∷ []) two_messages).1 ≡ codes "helloyou"
unfolding reads read
reads_pieces = refl

reads_stream_example :
    let (c', got) = reads (3 ∷ 9 ∷ []) two_messages in pending two_messages ≡ got ++ pending c'
reads_stream_example = reads_stream (3 ∷ 9 ∷ []) two_messages
