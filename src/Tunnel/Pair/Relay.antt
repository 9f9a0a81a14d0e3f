-- ===== src/Tunnel/Pair/Relay.antt =====
-- `relayUDSPair`: what happens to the two streams of a pair.
use chisel_uds.Prelude.{
  Text, Bool, true, false, Option, none, some, List, [], ◌∷◌, ◌++◌, ◌&&◌, ◌↔◌, if◌then◌else◌, ◌≡◌,
  refl, arith,
}

-- The streams of the one that waited and of the one that came.
pub data Side : Type 0 where
  first second : Side

pub data StreamCall : Type 0 where
  -- openRemoteStream, and whether it gave a stream
  open_stream : Side → Bool → StreamCall
  -- io.Copy into the side
  copy_into : Side → StreamCall
  close_stream : Side → StreamCall

-- `pipeBidirectional`: one direction ends first, which closes the side that it wrote to.
unfoldable pub pipe_bidirectional : Side → List StreamCall
pipe_bidirectional first =
    copy_into first ∷ close_stream first ∷ copy_into second ∷ close_stream second ∷ []
pipe_bidirectional second =
    copy_into second ∷ close_stream second ∷ copy_into first ∷ close_stream first ∷ []

-- The calls of a relay, and its error: `a` and `b` are the errors of opening the streams, and `ends` is
-- the side whose copy ends first.
unfoldable pub relay_uds_pair : Option Text → Option Text → Side → List StreamCall × Option Text
unfolding pipe_bidirectional
relay_uds_pair (some e) b ends = (open_stream first false ∷ [], some e)
relay_uds_pair none (some e) ends =
    (open_stream first true ∷ open_stream second false ∷ close_stream first ∷ [], some e)
relay_uds_pair none none ends = (
  open_stream first true
      ∷ open_stream second true
      ∷ (pipe_bidirectional ends ++ close_stream second ∷ close_stream first ∷ []),
  none,
)

-- How often a stream is opened and how often a side is closed.
abbrev is_side : Side → Side → Bool
is_side first first = true
is_side first second = false
is_side second first = false
is_side second second = true

pub opened : Side → List StreamCall → Bool
opened s [] = false
opened s (open_stream t ok ∷ rest) =
    let more = opened s rest in if is_side s t && ok then true else more
opened s (copy_into t ∷ rest) = opened s rest
opened s (close_stream t ∷ rest) = opened s rest

pub closed : Side → List StreamCall → Bool
closed s [] = false
closed s (open_stream t ok ∷ rest) = closed s rest
closed s (copy_into t ∷ rest) = closed s rest
closed s (close_stream t ∷ rest) = let more = closed s rest in if is_side s t then true else more

-- However the opens answer and whichever direction ends first, a relay closes exactly the streams that
-- it opened; and it fails exactly if a stream was not opened.
pub relay-closed :
    (a b : Option Text) (ends s : Side)
    → let (calls, e) = relay_uds_pair a b ends in
      (closed s calls ≡ opened s calls)
      × ((e ≡ none) ↔ ((opened first calls ≡ true) × (opened second calls ≡ true)))
unfolding relay_uds_pair opened closed
relay-closed (some e) b ends first = (refl, ground arith)
relay-closed (some e) b ends second = (refl, ground arith)
relay-closed none (some e) ends first = (refl, ground arith)
relay-closed none (some e) ends second = (refl, ground arith)
relay-closed none none first first = (refl, ground arith)
relay-closed none none first second = (refl, ground arith)
relay-closed none none second first = (refl, ground arith)
relay-closed none none second second = (refl, ground arith)
