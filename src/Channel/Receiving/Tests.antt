-- ===== src/Channel/Receiving/Tests.antt =====
-- Three datagrams, one of them from a stranger, and then nothing.
use servo_fleet.Prelude.{[], ◌∷◌, some, ◌≡◌, refl, true, false}
use servo_fleet.Channel.Receiving.{
  Endpoint, is_expected_sender, Poll, receive_available, rx_loop, received_from, would_block,
}
use servo_fleet.Channel.Receiving.Delivered.{
  datagrams_from, before, is_over, is_dry, rx_loop_lem, receive_available_lem,
}
use servo_fleet.Prelude.{List}

abbrev gateway : Endpoint
gateway = record { address = 201; port = 9999 }

abbrev stranger : Endpoint
stranger = record { address = 7; port = 9999 }

abbrev from : Endpoint → Poll
from sender = record { goes_on = true; answer = received_from sender (sender.address ∷ []) }

abbrev polls : List Poll
polls =
    from gateway
    ∷ from stranger
    ∷ record { goes_on = true; answer = would_block }
    ∷ from gateway
    ∷ record { goes_on = false; answer = would_block }
    ∷ []

rx_loop_lem_example : rx_loop gateway polls ≡ some (datagrams_from gateway (before is_over polls))
rx_loop_lem_example = rx_loop_lem gateway polls refl

two_datagrams : datagrams_from gateway (before is_over polls) ≡ (201 ∷ []) ∷ (201 ∷ []) ∷ []
unfolding is_expected_sender
two_datagrams = refl

receive_available_lem_example :
    receive_available gateway polls ≡ some (datagrams_from gateway (before is_dry polls))
receive_available_lem_example = receive_available_lem gateway polls refl

one_datagram : datagrams_from gateway (before is_dry polls) ≡ (201 ∷ []) ∷ []
unfolding is_expected_sender
one_datagram = refl
