-- ===== src/RequestManager/Tests.antt =====
-- Concrete schedules, and the theorems along them.
use webwire_go.Base.{◌≡◌, refl, [], ◌∷◌, arith}
use webwire_go.Map.{find, insert}
use webwire_go.Payload.{binary}
use webwire_go.RequestManager.{
  RequestIdentifier, new_request_manager, little_endian, create, is_pending,
}
use webwire_go.RequestManager.Outcome.{finished_once, reader_stuck}
use webwire_go.RequestManager.Steps.{
  Reply, fulfilled, result_of, finished, delivering, State, timed_out, start, send, expire, leave,
  look_up, hand_over, clean, initial, Reach, here, next,
}
use webwire_go.Runtime.{bytes_discrete}

record Run : Type 0 where
  last : State
  reach : Reach initial last

abbrev one : RequestIdentifier
one = 1 ∷ 0 ∷ 0 ∷ 0 ∷ 0 ∷ 0 ∷ 0 ∷ 0 ∷ []

abbrev ok_reply : Reply
ok_reply = fulfilled (record { encoding = binary; bytes = 7 ∷ [] })

-- The first request is created; its message is about to be written.
abbrev started : Run
unfolding initial new_request_manager
started = record { last = _; reach = next here (start 5 (omega arith)) }

-- Its reply is handed over.
abbrev answered : Run
unfolding initial new_request_manager create little_endian insert bytes_discrete is_pending find
answered = record {
  last = _;
  reach =
      next (next (next started.reach (send {id = one} refl)) (look_up one ok_reply refl refl))
        (hand_over {id = one} refl refl);
}

abbrev cleaned : Run
unfolding initial new_request_manager create little_endian insert bytes_discrete is_pending find
cleaned = record { last = _; reach = next answered.reach (clean {id = one} refl) }

-- It times out after the reader has looked it up.
abbrev late : Run
unfolding initial new_request_manager create little_endian insert bytes_discrete is_pending find
late = record {
  last = _;
  reach =
      next (next (next started.reach (send {id = one} refl)) (look_up one ok_reply refl refl))
        (expire {id = one} refl timed_out);
}

finished_once_example : cleaned.last.phase one ≡ finished (result_of ok_reply)
unfolding initial new_request_manager create little_endian insert bytes_discrete is_pending find
finished_once_example =
    finished_once answered.reach (next here (clean {id = one} refl)) one (result_of ok_reply) refl

reader_stuck_example : late.last.reader ≡ delivering one ok_reply
unfolding initial new_request_manager create little_endian insert bytes_discrete is_pending find
reader_stuck_example =
    reader_stuck late.reach (next here (leave {id = one} refl)) one ok_reply refl tt
