-- ===== src/Channel/Receiving.antt =====
-- src/channel.cc: the loops in which the two channels receive. An address is known by a number. What
-- `receive_from` answers is an `Answer`; each callback gets the bytes of one datagram.
pub mod Delivered
mod Tests
use servo_fleet.Prelude.{
  ℕ, ◌==◌, ◌&&◌, ◌||◌, not, if◌then◌else◌, Bool, true, false, List, [], ◌∷◌, Option, none, some,
}

pub record Endpoint : Type 0 where
  pub address : ℕ
  pub port : ℕ

unfoldable pub is_expected_sender : Endpoint → Endpoint → Bool
is_expected_sender remote sender =
    sender.address == remote.address && (remote.port == 0 || sender.port == remote.port)

-- `would_block` stands for `try_again` too, and `failed` for every other error.
pub data Answer : Type 0 where
  received_from : Endpoint → List ℕ → Answer
  would_block connection_reset operation_aborted failed : Answer

-- What one round of a loop finds: whether its condition holds, and what the socket answers.
pub record Poll : Type 0 where
  pub goes_on : Bool
  pub answer : Answer

abbrev pub deliver : Bool → List ℕ → Option (List (List ℕ)) → Option (List (List ℕ))
deliver expected bytes none = none
deliver expected bytes (some rest) = some (if expected then bytes ∷ rest else rest)

module _ (remote : Endpoint) where
  -- `udp_channel::impl::receive_available` with a callback: the datagrams that the callback gets, or
  -- `none` if the loop does not end with these polls. Its condition is that the socket is open.
  unfoldable pub receive_available : List Poll → Option (List (List ℕ))
  unfolding is_expected_sender
  receive_available [] = none
  receive_available (p ∷ polls) =
      let rest = receive_available polls in
      if p.goes_on
      then elim p.answer [
        | received_from sender bytes ↦ deliver (is_expected_sender remote sender) bytes rest
        | would_block ↦ some []
        | connection_reset ↦ some []
        | operation_aborted ↦ some []
        | failed ↦ some []
      ]
      else some []

  -- `realtime_udp_channel::impl::rx_loop` with a callback. Its condition is that no stop is requested
  -- and the channel is not stopped; the errors only differ in what is logged and in a sleep.
  unfoldable pub rx_loop : List Poll → Option (List (List ℕ))
  unfolding is_expected_sender
  rx_loop [] = none
  rx_loop (p ∷ polls) =
      let rest = rx_loop polls in
      if p.goes_on
      then elim p.answer [
        | received_from sender bytes ↦ deliver (is_expected_sender remote sender) bytes rest
        | would_block ↦ rest
        | connection_reset ↦ rest
        | operation_aborted ↦ rest
        | failed ↦ rest
      ]
      else some []
